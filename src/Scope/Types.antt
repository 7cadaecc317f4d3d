-- ===== src/Scope/Types.antt =====
-- The structures of scope.go. A pointer to a shared object is the object itself: what other
-- requests do to it is an argument of the functions that wait. A host of a cluster is named by
-- its replica's index and its own.
use chproxy.Base.{Bool, Dict, List, Option, Text, get_elem?, modify, ℕ, ℤ, ◌>>=◌}
use chproxy.Topology.{Node}

-- `rate.Limiter` of golang.org/x/time, which is not modelled: what it was made with, and the calls
-- of `AllowN` so far (time and number of tokens), newest first.
pub record Limiter : Type 0 where
  pub rate : ℕ
  pub burst : ℕ
  pub calls : List (ℕ × ℕ)

-- A buffered channel of empty structs.
pub record Chan : Type 0 where
  pub capacity : ℕ
  pub used : ℕ

pub record ParamsRegistry : Type 0 where
  pub key : ℕ  -- uint32
  pub params : List (Text × Text)

-- What the proxy reads of `cache.AsyncCache` besides its two stores.
pub record AsyncCache : Type 0 where
  pub name : Text
  pub grace_time : ℕ
  pub max_payload_size : ℕ
  pub shared_with_all_users : Bool

-- `config.Networks`: a predicate on the remote address.
abbrev pub Networks : Type 0
Networks = Text → Bool

pub record User : Type 0 where
  pub name : Text
  pub password : Text
  pub to_cluster : Text
  pub to_user : Text
  pub max_concurrent_queries : ℕ  -- uint32
  pub query_counter : ℕ  -- uint32
  pub max_execution_time : ℤ
  pub req_per_min : ℕ  -- int32, as a bit pattern
  pub rate_limiter : ℕ  -- uint32
  pub token_limiter : Limiter
  pub tokens_burst : ℕ
  pub tokens_rate : ℕ
  pub queue_ch : Option Chan
  pub max_queue_time : ℤ
  pub allowed_networks : Networks
  pub deny_http : Bool
  pub deny_https : Bool
  pub allow_cors : Bool
  pub is_wildcarded : Bool
  pub cache : Option AsyncCache
  pub params : Option ParamsRegistry

pub record ClusterUser : Type 0 where
  pub name : Text
  pub password : Text
  pub max_concurrent_queries : ℕ  -- uint32
  pub query_counter : ℕ  -- uint32
  pub max_execution_time : ℤ
  pub req_per_min : ℕ  -- int32, as a bit pattern
  pub rate_limiter : ℕ  -- uint32
  pub queue_ch : Option Chan
  pub max_queue_time : ℤ
  -- Read only where `tokens_burst` is positive: `deepCopy` leaves the pointer nil and the burst 0.
  pub token_limiter : Limiter
  pub tokens_burst : ℕ
  pub tokens_rate : ℕ
  pub allowed_networks : Networks
  pub is_wildcarded : Bool

pub record Replica : Type 0 where
  pub name : Text
  pub hosts : List Node
  pub next_host_idx : ℕ  -- uint32

pub record HeartBeat : Type 0 where
  pub interval : ℕ
  pub timeout : ℕ
  pub request : Text
  pub response : Text
  pub user : Text
  pub password : Text

pub record Cluster : Type 0 where
  pub name : Text
  pub replicas : List Replica
  pub next_replica_idx : ℕ  -- uint32
  pub users : Dict ClusterUser
  pub kill_query_user_name : Text
  pub kill_query_user_password : Text
  pub heart_beat : HeartBeat
  pub retry_number : ℤ

-- A `*topology.Node` of a cluster.
pub record HostRef : Type 0 where
  pub replica : ℕ
  pub host : ℕ

unfoldable pub node_at : Cluster → HostRef → Option Node
node_at c h = do r ← get_elem? c.replicas h.replica; get_elem? r.hosts h.host

unfoldable pub update_node : HostRef → (Node → Node) → Cluster → Cluster
update_node h f c = record c {
  replicas = modify h.replica (λ r. record r { hosts = modify h.host f r.hosts }) c.replicas;
}

pub record Scope : Type 0 where
  pub id : ℕ  -- uint64
  pub host : HostRef
  pub cluster : Cluster
  pub user : User
  pub cluster_user : ClusterUser
  pub session_id : Text
  pub session_timeout : ℕ
  pub remote_addr : Text
  pub local_addr : Text
  pub canceled : Bool
  pub request_packet_size : ℕ
