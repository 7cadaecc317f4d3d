-- ===== src/Tests/Setup.antt =====
-- Examples for the theorems on the configuration and the users.
use chproxy.Http.{Request}
use chproxy.Base.{
  Option, Text, [], arith, bytes, false, insert, is_empty, lookup, none, pos, refl, some, text_eq,
  true, ◌∷◌, ◌≡◌, ◌≢◌, ◌⊎◌,
}
use chproxy.Topology.{Address}
use chproxy.Scope.Types.{Scope}
use chproxy.Setup.Types.{
  TimeoutConfig, ServerConfig, UserConfig, ClusterUserConfig, ClusterConfig, Config, ReverseProxy,
}
use chproxy.Setup.Build.{new_clusters}
use chproxy.Setup.Apply.{apply_config, prepare}
use chproxy.Setup.Apply.Resolved.{IsResolved, apply_config-IsResolved}
use chproxy.Setup.Find.{Found, get_user, found, get_scope, Entry, entered, denied, entry_panic}
use chproxy.Setup.Find.Credentials.{
  get_user-found, get_scope-entered, IsAdmitted, Known, Wildcarded,
}
use chproxy.Utils.Auth.{get_auth, default_user}
use chproxy.Tests.Fixtures.{cluster, user, cluster_user, scope}
use chproxy.Tests.Requests.{request}

abbrev cluster_user_config : ClusterUserConfig
cluster_user_config = record {
  name = bytes "web";
  password = bytes "pw";
  max_concurrent_queries = 4;
  max_execution_time = pos 0;
  req_per_min = 0;
  tokens_burst = 100;
  tokens_rate = 10;
  max_queue_size = 3;
  max_queue_time = pos 50;
  networks_or_groups = [];
  allowed_networks = λ _. true;
}

abbrev pub cluster_config : ClusterConfig
cluster_config = record {
  name = bytes "main";
  scheme = bytes "http";
  nodes = bytes "ch:8123" ∷ [];
  replicas = [];
  cluster_users = cluster_user_config ∷ [];
  kill_query_user_name = [];
  kill_query_user_password = [];
  heart_beat = record {
    interval = 5;
    timeout = 3;
    request = bytes "/ping";
    response = bytes "Ok.";
    user = [];
    password = [];
  };
  retry_number = pos 0;
}

abbrev pub user_config : Text → UserConfig
user_config to_cluster = record {
  name = bytes "alice";
  password = bytes "secret";
  to_cluster = to_cluster;
  to_user = bytes "web";
  max_concurrent_queries = 0;
  max_execution_time = pos 10;
  req_per_min = 0;
  tokens_burst = 0;
  tokens_rate = 0;
  max_queue_size = 0;
  max_queue_time = pos 0;
  networks_or_groups = [];
  deny_http = false;
  deny_https = false;
  allow_cors = false;
  allowed_networks = λ _. true;
  cache = [];
  params = [];
  is_wildcarded = false;
}

abbrev timeouts : TimeoutConfig
timeouts = record { read_timeout = pos 0; write_timeout = pos 0; idle_timeout = pos 0 }

abbrev pub server : ServerConfig
server = record {
  http = record {
    listen_addr = bytes ":80";
    networks_or_groups = bytes "10.0.0.0/8" ∷ [];
    allowed_networks = λ _. true;
    force_autocert_handler = false;
    timeouts = timeouts;
  };
  https = record {
    listen_addr = [];
    cert_file = [];
    key_file = [];
    cache_dir = [];
    networks_or_groups = [];
    allowed_networks = λ _. true;
    timeouts = timeouts;
  };
  metrics_networks_or_groups = [];
  metrics_allowed_networks = λ _. true;
  proxy = record { enable = false; header = [] };
}

abbrev pub config : Text → Config
config to_cluster = record {
  server = server;
  hack_me_please = false;
  allow_ping = false;
  network_groups = [];
  clusters = cluster_config ∷ [];
  users = user_config to_cluster ∷ [];
  caches = [];
  param_groups = [];
  max_error_reason_size = 50;
  max_idle_conns = 100;
  max_idle_conns_per_host = 2;
}

abbrev parse : Text → Option Address
parse t = some (record { scheme = bytes "http"; host = t })

abbrev pub proxy : ReverseProxy
proxy = record {
  users = (bytes "alice", user 5) ∷ [];
  clusters = (bytes "main", cluster) ∷ [];
  caches = [];
  has_wildcarded = false;
  max_idle_conns = 2;
  max_idle_conns_per_host = 2;
  max_error_reason_size = 0;
  services = [];
}

abbrev good : ReverseProxy
good = (apply_config parse (λ _. true) (config (bytes "main")) proxy).0

abbrev kept : ReverseProxy
kept = (apply_config parse (λ _. true) (config (bytes "other")) proxy).0

apply_config-IsResolved_example : IsResolved good.clusters good.users
unfolding apply_config new_clusters lookup chproxy.Base.text_eq prepare
    chproxy.Setup.Apply.init_temp_caches chproxy.Setup.Build.params_from_config
    chproxy.Setup.Build.new_users chproxy.Setup.Build.new_user chproxy.Base.insert
    chproxy.Setup.Build.find_cache chproxy.Setup.Build.find_params
    chproxy.Setup.Apply.validate_no_wildcarded_user_for_heartbeat
apply_config-IsResolved_example =
    apply_config-IsResolved parse (λ _. true) (config (bytes "main")) proxy refl

abbrev alice : Found
alice = record { user = user 5; cluster = cluster; cluster_user = cluster_user }

get_user-found_example :
    Known proxy (bytes "alice") (bytes "secret") alice
    ⊎ ((lookup (bytes "alice") proxy.users ≡ none)
        × (is_empty (bytes "alice") ≡ false)
        × (bytes "alice" ≢ default_user)
        × (proxy.has_wildcarded ≡ true)
        × Wildcarded proxy (bytes "alice") (bytes "secret") alice)
unfolding get_user lookup text_eq
get_user-found_example = get_user-found proxy (bytes "alice") (bytes "secret") {f = alice} refl

proxy-IsResolved : IsResolved proxy.clusters proxy.users
unfolding lookup text_eq
proxy-IsResolved name u e = let same : user 5 ≡ u = ground arith in rw (← same) refl

abbrev scope_of : Entry → Scope
scope_of (entered s) = s
scope_of (denied d) = scope 5
scope_of entry_panic = scope 5

abbrev plain : Request
plain = record request { headers = [] }

-- The scope of alice's request: a host is picked, and the query is read.
abbrev made : Scope
made = scope_of (get_scope (λ _. 0) (λ _ t. some t) proxy 11 (bytes "10.0.0.2:9090") plain)

get_scope-entered_example :
    (f : Found) × (q : Text) × (get_user proxy (get_auth plain).0 (get_auth plain).1 ≡ found f)
    × IsAdmitted (λ _. 0) (λ _ t. some t) plain f made q
unfolding get_scope get_user lookup text_eq get_auth chproxy.Http.get_header
    chproxy.Scope.Pick.get_host chproxy.Scope.Pick.replica_is_active chproxy.Scope.Pick.replica_load
    chproxy.Topology.current_load chproxy.Utils.Auth.get_session_id chproxy.Http.get_value
    chproxy.Utils.Query.get_full_query
get_scope-entered_example =
    get_scope-entered (λ _. 0) (λ _ t. some t) proxy 11 (bytes "10.0.0.2:9090") plain {s = made}
      refl
