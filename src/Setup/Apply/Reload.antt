-- ===== src/Setup/Apply/Reload.antt =====
-- main.go, `applyConfig`: when a reload replaces the whole proxy.
use chproxy.Base.{arith, true, ◌↔◌, ◌≡◌, ◌≢◌}
use chproxy.Setup.Types.{Config}
use chproxy.Setup.Apply.{new_reverse_proxy, proxy_config_changed}

-- A proxy that was made for a configuration counts as changed under that same configuration exactly
-- when the two limits on idle connections differ: its field for the first is filled from the second.
pub proxy_config_changed_same :
    (cfg : Config)
    → (proxy_config_changed cfg (new_reverse_proxy cfg) ≡ true)
      ↔ (cfg.max_idle_conns ≢ cfg.max_idle_conns_per_host)
unfolding proxy_config_changed new_reverse_proxy
proxy_config_changed_same cfg = (ground arith, ground arith)
