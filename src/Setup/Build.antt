-- ===== src/Setup/Build.antt =====
-- scope.go: `newUsers`, `newUser`, `newClusterUser`, `deepCopy`, `newReplicas`, `newNodes`,
-- `newCluster`, `newClusters` and `newParamsRegistry`; internal/heartbeat/heartbeat.go:
-- `NewHeartbeat`. Parsing a URL is a parameter, `none` an error of it.
pub mod Shape
use chproxy.Base.{
  Dict, List, Option, Text, [], bytes, false, if◌then◌else◌, insert, is_empty, is_some, lookup, ltb,
  magnitude, none, not, some, text_eq, to_dict, true, ℕ, ◌&&◌, ◌++◌, ◌∷◌,
}
use chproxy.Topology.{Address, Node, new_node}
use chproxy.Utils.Hashes.{calc_map_hash}
use chproxy.Scope.Types.{
  Limiter, Chan, ParamsRegistry, AsyncCache, User, ClusterUser, Replica, HeartBeat, Cluster,
}
use chproxy.Setup.Types.{
  UserConfig, ClusterUserConfig, ReplicaConfig, HeartBeatConfig, ClusterConfig, ParamGroupConfig,
  Result, ok, err, panic, duplicate_cluster_user, duplicate_cluster, duplicate_user, bad_node,
  unknown_cluster, unknown_cluster_user, unknown_cache, unknown_params, duplicate_params,
  empty_params, ◌>>=◌,
}

abbrev pub new_limiter : (rate burst : ℕ) → Limiter
new_limiter rate burst = record { rate = rate; burst = burst; calls = [] }

abbrev pub make_chan : ℕ → Option Chan
make_chan n = if ltb 0 n then some (record { capacity = n; used = 0 }) else none

unfoldable pub new_cluster_user : ClusterUserConfig → ClusterUser
new_cluster_user cu = record {
  name = cu.name;
  password = cu.password;
  max_concurrent_queries = cu.max_concurrent_queries;
  query_counter = 0;
  max_execution_time = cu.max_execution_time;
  req_per_min = cu.req_per_min;
  rate_limiter = 0;
  queue_ch = make_chan cu.max_queue_size;
  max_queue_time = cu.max_queue_time;
  token_limiter = new_limiter cu.tokens_rate cu.tokens_burst;
  tokens_burst = cu.tokens_burst;
  tokens_rate = cu.tokens_rate;
  allowed_networks = cu.allowed_networks;
  is_wildcarded = false;
}

-- The queue of the copy has the capacity `maxQueueTime`, as in the source.
unfoldable pub deep_copy : ClusterUser → ClusterUser
deep_copy cu = record {
  name = cu.name;
  password = cu.password;
  max_concurrent_queries = cu.max_concurrent_queries;
  query_counter = 0;
  max_execution_time = cu.max_execution_time;
  req_per_min = cu.req_per_min;
  rate_limiter = 0;
  queue_ch = make_chan (magnitude cu.max_queue_time);
  max_queue_time = cu.max_queue_time;
  token_limiter = new_limiter 0 0;
  tokens_burst = 0;
  tokens_rate = 0;
  allowed_networks = cu.allowed_networks;
  is_wildcarded = false;
}

abbrev default_endpoint : Text
default_endpoint = bytes "/ping"

abbrev heartbeat_user : HeartBeatConfig → Text → Text → Text × Text
heartbeat_user c user password =
    if text_eq c.request default_endpoint
    then ([], [])
    else if is_empty c.user
    then (user, password)
    else (c.user, c.password)

-- With the default user as its option; a panic where a user is needed and there is none.
unfoldable pub new_heartbeat : HeartBeatConfig → (user password : Text) → Result HeartBeat
new_heartbeat c user password =
    let (u, p) = heartbeat_user c user password in
    if not (text_eq c.request default_endpoint) && is_empty u
    then panic
    else ok (record {
      interval = c.interval;
      timeout = c.timeout;
      request = c.request;
      response = c.response;
      user = u;
      password = p;
    })

abbrev pub first_user : List ClusterUserConfig → Result ClusterUserConfig
first_user [] = panic
first_user (cu ∷ cus) = ok cu

module _ (parse_url : Text → Option Address) where
  unfoldable pub new_nodes : List Text → (scheme cluster replica : Text) → Result (List Node)
  new_nodes [] scheme cluster replica = ok []
  new_nodes (n ∷ ns) scheme cluster replica =
      let rest = new_nodes ns scheme cluster replica in
      elim (parse_url (scheme ++ (bytes "://" ++ n))) [
        | none ↦ err (bad_node n)
        | some addr ↦ do hs ← rest; ok (new_node addr cluster replica [] ∷ hs)
      ]

  unfoldable pub new_replica : (name : Text) → List Text → (scheme cluster : Text) → Result Replica
  unfolding new_nodes
  new_replica name nodes scheme cluster = do
    hosts ← new_nodes nodes scheme cluster name
    ok (record { name = name; hosts = hosts; next_host_idx = 0 })

  unfoldable pub each_replica : List ReplicaConfig → (scheme cluster : Text) → Result (List Replica)
  unfolding new_replica
  each_replica [] scheme cluster = ok []
  each_replica (r ∷ rs) scheme cluster = do
    head ← new_replica r.name r.nodes scheme cluster
    rest ← each_replica rs scheme cluster
    ok (head ∷ rest)

  -- Flat nodes make one replica of the name `default`.
  unfoldable pub new_replicas :
      List ReplicaConfig → (nodes : List Text) → (scheme cluster : Text) → Result (List Replica)
  unfolding new_replica each_replica
  new_replicas cfg [] scheme cluster = each_replica cfg scheme cluster
  new_replicas cfg (n ∷ ns) scheme cluster = do
    r ← new_replica (bytes "default") (n ∷ ns) scheme cluster
    ok (r ∷ [])

  unfoldable pub new_cluster_users :
      List ClusterUserConfig → Dict ClusterUser → Result (Dict ClusterUser)
  unfolding new_cluster_user
  new_cluster_users [] users = ok users
  new_cluster_users (cu ∷ cus) users =
      let rest = new_cluster_users cus (insert cu.name (new_cluster_user cu) users) in
      if is_some (lookup cu.name users) then err (duplicate_cluster_user cu.name) else rest

  unfoldable pub new_cluster : ClusterConfig → Result Cluster
  unfolding new_cluster_users new_heartbeat new_replicas
  new_cluster c = do
    users ← new_cluster_users c.cluster_users []
    first ← first_user c.cluster_users
    heart_beat ← new_heartbeat c.heart_beat first.name first.password
    replicas ← new_replicas c.replicas c.nodes c.scheme c.name
    ok (record {
      name = c.name;
      replicas = replicas;
      next_replica_idx = 0;
      users = users;
      kill_query_user_name = c.kill_query_user_name;
      kill_query_user_password = c.kill_query_user_password;
      heart_beat = heart_beat;
      retry_number = c.retry_number;
    })

  unfoldable pub new_clusters : List ClusterConfig → Dict Cluster → Result (Dict Cluster)
  unfolding new_cluster
  new_clusters [] clusters = ok clusters
  new_clusters (c ∷ cs) clusters =
      if is_some (lookup c.name clusters)
      then err (duplicate_cluster c.name)
      else (new_cluster c >>= λ d. new_clusters cs (insert c.name d clusters))

new_params_registry : Text → List (Text × Text) → Result ParamsRegistry
unfolding calc_map_hash
new_params_registry name [] = err (empty_params name)
new_params_registry name (p ∷ ps) =
    ok (record { key = calc_map_hash (to_dict (p ∷ ps) []); params = p ∷ ps })

unfoldable pub params_from_config :
    List ParamGroupConfig → Dict ParamsRegistry → Result (Dict ParamsRegistry)
unfolding new_params_registry
params_from_config [] params = ok params
params_from_config (p ∷ ps) params =
    if is_some (lookup p.name params)
    then err (duplicate_params p.name)
    else (new_params_registry p.name p.params >>= λ r.
        params_from_config ps (insert p.name r params))

-- `cu.isWildcarded = true` in the cluster's own map.
unfoldable pub mark_wildcarded : (cluster user : Text) → Dict Cluster → Dict Cluster
mark_wildcarded cluster user clusters = elim (lookup cluster clusters) [
  | none ↦ clusters
  | some c ↦ elim (lookup user c.users) [
    | none ↦ clusters
    | some cu ↦
        insert cluster
          (record c { users = insert user (record cu { is_wildcarded = true }) c.users }) clusters
  ]
]

module _ (caches : Dict AsyncCache) (params : Dict ParamsRegistry) where
  unfoldable pub find_cache : Text → Result (Option AsyncCache)
  find_cache [] = ok none
  find_cache (c ∷ name) = elim (lookup (c ∷ name) caches) [
    | none ↦ err (unknown_cache (c ∷ name))
    | some cc ↦ ok (some cc)
  ]

  unfoldable pub find_params : Text → Result (Option ParamsRegistry)
  find_params [] = ok none
  find_params (c ∷ name) = elim (lookup (c ∷ name) params) [
    | none ↦ err (unknown_params (c ∷ name))
    | some p ↦ ok (some p)
  ]

  abbrev or_err {ℓ} : {A : Type ℓ} → Option A → Result A → Result A
  or_err none e = e
  or_err (some a) e = ok a

  -- The clusters, with the mark of a wildcarded user, and the user.
  unfoldable pub new_user : Dict Cluster → UserConfig → Result (Dict Cluster × User)
  new_user clusters u = do
    c ← or_err (lookup u.to_cluster clusters) (err (unknown_cluster u.to_cluster))
    cu ← or_err (lookup u.to_user c.users) (err (unknown_cluster_user u.to_user))
    let clusters' =
        if u.is_wildcarded then mark_wildcarded u.to_cluster u.to_user clusters else clusters
    cc ← find_cache u.cache
    ps ← find_params u.params
    ok (
      clusters',
      record {
        name = u.name;
        password = u.password;
        to_cluster = u.to_cluster;
        to_user = u.to_user;
        max_concurrent_queries = u.max_concurrent_queries;
        query_counter = 0;
        max_execution_time = u.max_execution_time;
        req_per_min = u.req_per_min;
        rate_limiter = 0;
        token_limiter = new_limiter u.tokens_rate u.tokens_burst;
        tokens_burst = u.tokens_burst;
        tokens_rate = u.tokens_rate;
        queue_ch = make_chan u.max_queue_size;
        max_queue_time = u.max_queue_time;
        allowed_networks = u.allowed_networks;
        deny_http = u.deny_http;
        deny_https = u.deny_https;
        allow_cors = u.allow_cors;
        is_wildcarded = u.is_wildcarded;
        cache = cc;
        params = ps;
      },
    )

  -- An error leaves the marks that were made, but the clusters are dropped with it.
  unfoldable pub new_users :
      List UserConfig → Dict Cluster → Dict User → Result (Dict Cluster × Dict User)
  new_users [] clusters users = ok (clusters, users)
  new_users (u ∷ us) clusters users =
      if is_some (lookup u.name users)
      then err (duplicate_user u.name)
      else (new_user clusters u >>= λ (r : Dict Cluster × User).
          new_users us r.0 (insert u.name r.1 users))
