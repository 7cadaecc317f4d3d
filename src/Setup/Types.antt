-- ===== src/Setup/Types.antt =====
-- The configuration as far as scope.go and proxy.go read it (the types of config/config.go), the
-- proxy's own state, and the results of what can fail.
use chproxy.Base.{Bool, Dict, List, Text, refl, ℕ, ℤ, ◌≡◌}
use chproxy.Scope.Types.{Networks, Cluster, User, AsyncCache}

pub record UserConfig : Type 0 where
  pub name : Text
  pub password : Text
  pub to_cluster : Text
  pub to_user : Text
  pub max_concurrent_queries : ℕ  -- uint32
  pub max_execution_time : ℤ
  pub req_per_min : ℕ  -- int32, as a bit pattern
  pub tokens_burst : ℕ
  pub tokens_rate : ℕ
  pub max_queue_size : ℕ  -- uint32
  pub max_queue_time : ℤ
  pub networks_or_groups : List Text
  pub deny_http : Bool
  pub deny_https : Bool
  pub allow_cors : Bool
  pub allowed_networks : Networks
  pub cache : Text
  pub params : Text
  pub is_wildcarded : Bool

pub record ClusterUserConfig : Type 0 where
  pub name : Text
  pub password : Text
  pub max_concurrent_queries : ℕ  -- uint32
  pub max_execution_time : ℤ
  pub req_per_min : ℕ  -- int32, as a bit pattern
  pub tokens_burst : ℕ
  pub tokens_rate : ℕ
  pub max_queue_size : ℕ  -- uint32
  pub max_queue_time : ℤ
  pub networks_or_groups : List Text
  pub allowed_networks : Networks

pub record ReplicaConfig : Type 0 where
  pub name : Text
  pub nodes : List Text

pub record HeartBeatConfig : Type 0 where
  pub interval : ℕ
  pub timeout : ℕ
  pub request : Text
  pub response : Text
  pub user : Text
  pub password : Text

pub record ClusterConfig : Type 0 where
  pub name : Text
  pub scheme : Text
  pub nodes : List Text
  pub replicas : List ReplicaConfig
  pub cluster_users : List ClusterUserConfig
  pub kill_query_user_name : Text
  pub kill_query_user_password : Text
  pub heart_beat : HeartBeatConfig
  pub retry_number : ℤ

pub record CacheConfig : Type 0 where
  pub name : Text
  pub mode : Text
  pub dir : Text
  pub max_size : ℕ
  pub redis_addresses : List Text
  pub redis_password : Text
  pub expire : ℤ
  pub grace_time : ℤ
  pub max_payload_size : ℕ
  pub shared_with_all_users : Bool

pub record ParamGroupConfig : Type 0 where
  pub name : Text
  pub params : List (Text × Text)

pub record TimeoutConfig : Type 0 where
  pub read_timeout : ℤ
  pub write_timeout : ℤ
  pub idle_timeout : ℤ

pub record HttpConfig : Type 0 where
  pub listen_addr : Text
  pub networks_or_groups : List Text
  pub allowed_networks : Networks
  pub force_autocert_handler : Bool
  pub timeouts : TimeoutConfig

pub record HttpsConfig : Type 0 where
  pub listen_addr : Text
  pub cert_file : Text
  pub key_file : Text
  pub cache_dir : Text
  pub networks_or_groups : List Text
  pub allowed_networks : Networks
  pub timeouts : TimeoutConfig

pub record ProxyHeaderConfig : Type 0 where
  pub enable : Bool
  pub header : Text

pub record ServerConfig : Type 0 where
  pub http : HttpConfig
  pub https : HttpsConfig
  pub metrics_networks_or_groups : List Text
  pub metrics_allowed_networks : Networks
  pub proxy : ProxyHeaderConfig

-- A `*net.IPNet`, by its text.
abbrev pub IpNet : Type 0
IpNet = Text

pub record NetworkGroup : Type 0 where
  pub name : Text
  pub networks : List IpNet

pub record Config : Type 0 where
  pub server : ServerConfig
  pub hack_me_please : Bool
  pub allow_ping : Bool
  pub network_groups : List NetworkGroup
  pub clusters : List ClusterConfig
  pub users : List UserConfig
  pub caches : List CacheConfig
  pub param_groups : List ParamGroupConfig
  pub max_error_reason_size : ℕ
  pub max_idle_conns : ℕ
  pub max_idle_conns_per_host : ℕ

-- The errors, with the name that their message gives.
pub data ConfigError : Type 0 where
  duplicate_cluster_user duplicate_cluster duplicate_user : Text → ConfigError
  bad_node unknown_cluster unknown_cluster_user unknown_cache unknown_params : Text → ConfigError
  duplicate_cache duplicate_params empty_params : Text → ConfigError
  cache_without_dir cache_without_size cache_without_expire cache_not_opened : Text → ConfigError
  unknown_cache_mode wildcarded_heartbeat : Text → ConfigError

-- What a constructor of the configuration returns; `panic` is a nil pointer or an index out of range.
pub data Result {ℓ} (T : Type ℓ) : Type ℓ where
  panic : Result T
  err : ConfigError → Result T
  ok : T → Result T

infixl 5 ◌>>=◌
abbrev pub ◌>>=◌ {ℓ κ} : {T : Type ℓ} {U : Type κ} → Result T → (T → Result U) → Result U
panic >>= next = panic
err reason >>= next = err reason
ok t >>= next = next t

-- A chain that succeeds has succeeded at each of its steps.
pub >>=-split {ℓ κ} :
    {T : Type ℓ} {U : Type κ} (first : Result T) (next : T → Result U) {u : U}
    → (first >>= next) ≡ ok u
    → (t : T) × (first ≡ ok t) × (next t ≡ ok u)
>>=-split panic next success = cc
>>=-split (err reason) next success = cc
>>=-split (ok t) next success = (t, refl, success)

-- What the service goroutines of one configuration look after.
pub data Service : Type 0 where
  heartbeat_of : (cluster : Text) → (replica host : ℕ) → Service
  cluster_user_rate : (cluster user : Text) → Service
  user_rate : Text → Service

pub record ReverseProxy : Type 0 where
  pub users : Dict User
  pub clusters : Dict Cluster
  pub caches : Dict AsyncCache
  pub has_wildcarded : Bool
  pub max_idle_conns : ℕ
  pub max_idle_conns_per_host : ℕ
  pub max_error_reason_size : ℕ
  pub services : List Service
