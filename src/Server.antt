-- ===== src/Server.antt =====
-- main.go: what is read when the configuration is loaded anew, and which requests go on to the proxy.
-- The listeners, the signals and the pages of the metrics are left out.
pub mod Reload
pub mod Gate
use chproxy.Http.{Request}
use chproxy.Proxy.Writers.{Client}
use chproxy.Topology.{Address}
use chproxy.Base.{
  Bool, List, Option, Text, bytes, if◌then◌else◌, inl, inr, none, not, some, text_eq, ◌&&◌, ◌/◌,
  ◌||◌, ◌⊎◌,
}
use chproxy.Config.Load.{LoadError, load_file}
use chproxy.Proxy.Handler.{respond_to_client, set_client_header}
use chproxy.Scope.Types.{Networks}
use chproxy.Setup.Apply.{apply_config, new_reverse_proxy, proxy_config_changed}
use chproxy.Setup.Types.{
  Config, ConfigError, CacheConfig, IpNet, ProxyHeaderConfig, Result, ReverseProxy, ok, err, panic,
}

-- The package's variables.
pub record Server : Type 0 where
  pub proxy : Option ReverseProxy
  pub allowed_networks_http : Networks
  pub allowed_networks_https : Networks
  pub allowed_networks_metrics : Networks
  pub proxy_header : ProxyHeaderConfig
  pub allow_ping : Bool

-- The proxy that a configuration is applied to.
unfoldable pub proxy_for : Config → Server → ReverseProxy
proxy_for cfg s = elim s.proxy [
  | none ↦ new_reverse_proxy cfg
  | some rp ↦ if proxy_config_changed cfg rp then new_reverse_proxy cfg else rp
]

unfoldable pub store_settings : Config → Server → Server
store_settings cfg s = record s {
  allowed_networks_http = cfg.server.http.allowed_networks;
  allowed_networks_https = cfg.server.https.allowed_networks;
  allowed_networks_metrics = cfg.server.metrics_allowed_networks;
  proxy_header = cfg.server.proxy;
  allow_ping = cfg.allow_ping;
}

-- Why a configuration is not in force.
pub data Failure : Type 0 where
  not_loaded : LoadError → Failure
  not_applied : ConfigError → Failure
  panicked : Failure

abbrev pub finish_apply :
    Config → Server → ReverseProxy × Result (Unit {0}) → Server × Option Failure
finish_apply cfg s (rp, ok t) = (store_settings cfg (record s { proxy = some rp }), none)
finish_apply cfg s (rp, err e) = (record s { proxy = some rp }, some (not_applied e))
finish_apply cfg s (rp, panic) = (record s { proxy = some rp }, some panicked)

module _ (parse_url : Text → Option Address) (open_store : CacheConfig → Bool) where
  unfoldable pub apply_to_server : Config → Server → Server × Option Failure
  apply_to_server cfg s =
      finish_apply cfg s (apply_config parse_url open_store cfg (proxy_for cfg s))

  abbrev pub after_load : Server → LoadError ⊎ Config → Server × Option Failure
  after_load s (inl e) = (s, some (not_loaded e))
  after_load s (inr cfg) = apply_to_server cfg s

  -- `reloadConfig`, of a file that was decoded.
  unfoldable pub reload_config :
      (parse_cidr : Text → Option IpNet) (networks : List IpNet → Networks)
      → Config
      → Server
      → Server × Option Failure
  reload_config parse_cidr networks file s = after_load s (load_file parse_cidr networks file)

-- What becomes of a request: answered at once, or handed on to the page of the metrics or to the
-- proxy.
pub data Routed : Type 0 where
  answered : Client → Routed
  to_metrics : Routed
  to_proxy : Request → Routed

abbrev pub close : Client → Client
close c = set_client_header (bytes "Connection") (bytes "close") c

module _ (remote_addr_of : ProxyHeaderConfig → Request → Text) where
  -- The texts of the errors are arguments: of the method, of the path, of the networks and of a ping.
  unfoldable pub route_query : (network_error : Text) → Server → Request → Client → Routed
  route_query network_error s r c =
      let addr = remote_addr_of s.proxy_header r in
      let networks = if r.is_tls then s.allowed_networks_https else s.allowed_networks_http in
      if networks addr
      then to_proxy (record r { remote_addr = addr })
      else answered (respond_to_client network_error 403 (close c))

  abbrev is_ping : Request → Bool
  is_ping r = text_eq r.path (bytes "/ping")

  unfoldable pub route_path : (path_error network_error : Text) → Server → Request → Client → Routed
  route_path path_error network_error s r c =
      if text_eq r.path (bytes "/favicon.ico")
      then answered c
      else if text_eq r.path (bytes "/metrics")
      then if s.allowed_networks_metrics r.remote_addr
        then to_metrics
        else answered (respond_to_client network_error 403 (close c))
      else if text_eq r.path (bytes "/") || (text_eq r.path (bytes "/query") || is_ping r)
      then if is_ping r && not s.allow_ping
        then answered (respond_to_client (bytes "ping is not allowed") 403 c)
        else route_query network_error s r c
      else answered (respond_to_client path_error 400 (close c))

  -- `serveHTTP`.
  unfoldable pub route :
      (method_error path_error network_error : Text) → Server → Request → Client → Routed
  route method_error path_error network_error s r c =
      if text_eq r.method (bytes "GET") || text_eq r.method (bytes "POST")
      then route_path path_error network_error s r c
      else if text_eq r.method (bytes "OPTIONS")
      then answered (set_client_header (bytes "Allow") (bytes "GET,POST") c)
      else answered (respond_to_client method_error 405 (close c))
