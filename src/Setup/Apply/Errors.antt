-- ===== src/Setup/Apply/Errors.antt =====
-- What `applyConfig` of proxy.go leaves of the old configuration when it fails.
use chproxy.Scope.Types.{Cluster}
use chproxy.Base.{Bool, Dict, Option, Text, [], any, arith, ◌||◌, ◌≡◌, ◌≢◌}
use chproxy.Topology.{Address}
use chproxy.Setup.Types.{Config, CacheConfig, ok, err, ReverseProxy, ConfigError, UserConfig}
use chproxy.Setup.Apply.{apply_config, prepare, set_early, new_clusters}

module _ (parse_url : Text → Option Address) (open_store : CacheConfig → Bool) where
  -- When applyConfig fails, the proxy keeps its users, its clusters, its caches and the goroutines
  -- that serve them.
  pub apply_config-keeps :
      (cfg : Config) (rp : ReverseProxy)
      → (apply_config parse_url open_store cfg rp).1 ≢ ok tt
      → let q = (apply_config parse_url open_store cfg rp).0 in
        (q.users ≡ rp.users)
        × (q.clusters ≡ rp.clusters)
        × (q.caches ≡ rp.caches)
        × (q.services ≡ rp.services)
  unfolding apply_config set_early
  apply_config-keeps cfg rp h = ground arith

  -- But the old configuration is not kept whole: if the clusters are right and something behind
  -- them fails, the new limit on the size of an error reason is in force, and the search for
  -- wildcarded users is on if the new configuration has one.
  apply_config-early :
      (cfg : Config) (rp : ReverseProxy) {clusters : Dict Cluster} {e : ConfigError}
      → new_clusters parse_url cfg.clusters [] ≡ ok clusters
      → prepare open_store cfg clusters ≡ err e
      → let r = apply_config parse_url open_store cfg rp in
        (r.1 ≡ err e)
        × (r.0.max_error_reason_size ≡ cfg.max_error_reason_size)
        × (r.0.has_wildcarded
            ≡ rp.has_wildcarded || any (λ (u : UserConfig). u.is_wildcarded) cfg.users)
  unfolding apply_config set_early
  apply_config-early cfg rp h k = ground arith
