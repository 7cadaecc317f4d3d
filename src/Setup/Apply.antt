-- ===== src/Setup/Apply.antt =====
-- proxy.go: `applyConfig`, `initTempCaches`, `validateNoWildcardedUserForHeartbeat` and
-- `restartWithNewConfig`; cache/async_cache.go: `NewAsyncCache` with the checks of
-- `newFilesSystemCache`; main.go: `proxyConfigChanged` and the constructor `newReverseProxy`.
-- Whether a directory can be made, or Redis be reached, is a parameter.
pub mod Resolved
pub mod Errors
pub mod Reload
use chproxy.Base.{
  Bool, Dict, List, Option, Text, [], any, bytes, false, if◌then◌else◌, insert, int_lt, is_empty,
  is_positive, is_some, is_zero, length, lookup, magnitude, map, none, not, pos, some, suc, text_eq,
  zero, ℕ, ℤ, ◌&&◌, ◌++◌, ◌+◌, ◌==◌, ◌||◌, ◌∷◌,
}
use chproxy.Topology.{Address}
use chproxy.Scope.Types.{AsyncCache, ClusterUser, Replica, Cluster, User}
use chproxy.Setup.Types.{
  UserConfig, ClusterConfig, CacheConfig, Config, Result, ok, err, panic, duplicate_cache,
  cache_without_dir, cache_without_size, cache_without_expire, cache_not_opened, unknown_cache_mode,
  wildcarded_heartbeat, ◌>>=◌, Service, heartbeat_of, cluster_user_rate, user_rate, ReverseProxy,
}
use chproxy.Setup.Build.{new_clusters, params_from_config, new_users, first_user}

-- The grace time: the longest execution time where it is 0, none where it is negative.
abbrev pub grace_of : ℤ → ℤ → ℕ
grace_of grace max_execution_time = magnitude (if is_zero grace then max_execution_time else grace)

abbrev pub to_async_cache : CacheConfig → ℤ → AsyncCache
to_async_cache c max_execution_time = record {
  name = c.name;
  grace_time = grace_of c.grace_time max_execution_time;
  max_payload_size = c.max_payload_size;
  shared_with_all_users = c.shared_with_all_users;
}

module _ (open_store : CacheConfig → Bool) where
  new_files_system_cache : CacheConfig → ℤ → Result AsyncCache
  new_files_system_cache c t =
      if is_empty c.dir
      then err (cache_without_dir c.name)
      else if c.max_size == 0
      then err (cache_without_size c.name)
      else if not (is_positive c.expire)
      then err (cache_without_expire c.name)
      else if open_store c
      then ok (to_async_cache c t)
      else err (cache_not_opened c.name)

  new_async_cache : CacheConfig → ℤ → Result AsyncCache
  unfolding new_files_system_cache
  new_async_cache c max_execution_time =
      if text_eq c.mode (bytes "file_system")
      then new_files_system_cache c max_execution_time
      else if text_eq c.mode (bytes "redis")
      then (if open_store c
          then ok (to_async_cache c max_execution_time)
          else err (cache_not_opened c.name))
      else err (unknown_cache_mode c.name)

  unfoldable pub init_temp_caches :
      ℤ → List CacheConfig → Dict AsyncCache → Result (Dict AsyncCache)
  unfolding new_async_cache
  init_temp_caches t [] caches = ok caches
  init_temp_caches t (c ∷ cs) caches =
      if is_some (lookup c.name caches)
      then err (duplicate_cache c.name)
      else (new_async_cache c t >>= λ a. init_temp_caches t cs (insert c.name a caches))

unfoldable pub transactions_timeout : ℤ → List UserConfig → ℤ
transactions_timeout t [] = t
transactions_timeout t (u ∷ us) =
    transactions_timeout (if int_lt t u.max_execution_time then u.max_execution_time else t) us

abbrev pub cluster_user_of : Option Cluster → Text → Option ClusterUser
cluster_user_of none name = none
cluster_user_of (some c) name = lookup name c.users

-- One cluster of the loop: a wildcarded first user cannot send the heartbeat.
validate_cluster : Dict Cluster → ClusterConfig → Result (Unit {0})
validate_cluster clusters c = do
  first ← first_user c.cluster_users
  elim (cluster_user_of (lookup c.name clusters) first.name) [
    | none ↦ panic
    | some cu ↦
        if cu.is_wildcarded
          && (not (text_eq c.heart_beat.request (bytes "/ping")) && is_empty c.heart_beat.user)
        then err (wildcarded_heartbeat c.name)
        else ok tt
  ]

unfoldable pub validate_no_wildcarded_user_for_heartbeat :
    Dict Cluster → List ClusterConfig → Result (Unit {0})
unfolding validate_cluster
validate_no_wildcarded_user_for_heartbeat clusters [] = ok tt
validate_no_wildcarded_user_for_heartbeat clusters (c ∷ cs) =
    validate_cluster clusters c >>= λ _. validate_no_wildcarded_user_for_heartbeat clusters cs

host_services : Text → (replica host : ℕ) → ℕ → List Service
host_services c i j zero = []
host_services c i j (suc k) = heartbeat_of c i j ∷ host_services c i (j + 1) k

replica_services : Text → ℕ → List Replica → List Service
unfolding host_services
replica_services c i [] = []
replica_services c i (r ∷ rs) =
    host_services c i 0 (length r.hosts) ++ replica_services c (i + 1) rs

cluster_services : Dict Cluster → List Service
unfolding replica_services
cluster_services [] = []
cluster_services ((name, c) ∷ cs) =
    replica_services name 0 c.replicas
    ++ (map (λ e. cluster_user_rate name e.0) c.users ++ cluster_services cs)

-- The goroutines of the new configuration; those of the old one were stopped before.
unfoldable pub restart_with_new_config : Dict Cluster → Dict User → List Service
unfolding cluster_services
restart_with_new_config clusters users = cluster_services clusters ++ map (λ e. user_rate e.0) users

-- The caches, and the users with their clusters.
abbrev pub Prepared : Type 0
Prepared = Dict AsyncCache × Dict Cluster × Dict User

module _ (open_store : CacheConfig → Bool) where
  -- All that can fail behind the clusters.
  unfoldable pub prepare : Config → Dict Cluster → Result Prepared
  prepare cfg clusters = do
    caches ← init_temp_caches open_store (transactions_timeout (pos 0) cfg.users) cfg.caches []
    params ← params_from_config cfg.param_groups []
    r ← new_users caches params cfg.users clusters []
    validated ← validate_no_wildcarded_user_for_heartbeat r.0 cfg.clusters
    ok (caches, r.0, r.1)

-- The two fields that are set before the rest is known to be right.
pub set_early : Config → ReverseProxy → ReverseProxy
set_early cfg rp = record rp {
  max_error_reason_size = cfg.max_error_reason_size;
  has_wildcarded = rp.has_wildcarded || any (λ (u : UserConfig). u.is_wildcarded) cfg.users;
}

abbrev pub install : ReverseProxy → Result Prepared → ReverseProxy × Result (Unit {0})
install rp (ok (caches, clusters, users)) = (
  record rp {
    users = users;
    clusters = clusters;
    caches = caches;
    services = restart_with_new_config clusters users;
  },
  ok tt,
)
install rp (err e) = (rp, err e)
install rp panic = (rp, panic)

module _ (parse_url : Text → Option Address) (open_store : CacheConfig → Bool) where
  abbrev pub after_clusters :
      Config → ReverseProxy → Result (Dict Cluster) → ReverseProxy × Result (Unit {0})
  after_clusters cfg rp (ok clusters) = install (set_early cfg rp) (prepare open_store cfg clusters)
  after_clusters cfg rp (err e) = (rp, err e)
  after_clusters cfg rp panic = (rp, panic)

  unfoldable pub apply_config : Config → ReverseProxy → ReverseProxy × Result (Unit {0})
  apply_config cfg rp = after_clusters cfg rp (new_clusters parse_url cfg.clusters [])

-- `maxIdleConns` is filled from the other field, as in the source.
unfoldable pub new_reverse_proxy : Config → ReverseProxy
new_reverse_proxy cfg = record {
  users = [];
  clusters = [];
  caches = [];
  has_wildcarded = false;
  max_idle_conns = cfg.max_idle_conns_per_host;
  max_idle_conns_per_host = cfg.max_idle_conns_per_host;
  max_error_reason_size = 0;
  services = [];
}

unfoldable pub proxy_config_changed : Config → ReverseProxy → Bool
proxy_config_changed cfg rp =
    not (cfg.max_idle_conns == rp.max_idle_conns)
    || not (cfg.max_idle_conns_per_host == rp.max_idle_conns_per_host)
