-- ===== src/Tests/Fixtures.antt =====
-- Two replicas, the second of two hosts, and a scope on them.
use chproxy.Base.{Bool, [], bytes, false, none, pos, some, true, ℕ, ◌^◌, ◌∷◌}
use chproxy.Topology.{Node}
use chproxy.Scope.Types.{Limiter, User, ClusterUser, Replica, Cluster, HostRef, Scope}

abbrev pub node : Bool → ℕ → Node
node active connections = record {
  addr = record { scheme = bytes "http"; host = bytes "ch:8123" };
  active = active;
  connections = record { value = connections };
  penalty = 0;
  cluster_name = bytes "main";
  replica_name = bytes "r";
  opts = record {
    default_active = false;
    penalty_size = 5;
    penalty_max_size = 300;
    penalty_duration = 10 ^ 10;
  };
}

abbrev pub pair_replica : Replica
pair_replica = record {
  name = bytes "pair";
  hosts = node true 4 ∷ node true 2 ∷ [];
  next_host_idx = 7;
}

abbrev pub lone_replica : Replica
lone_replica = record { name = bytes "lone"; hosts = node true 9 ∷ []; next_host_idx = 0 }

abbrev pub limiter : Limiter
limiter = record { rate = 10; burst = 100; calls = [] }

abbrev pub cluster_user : ClusterUser
cluster_user = record {
  name = bytes "web";
  password = bytes "pw";
  max_concurrent_queries = 4;
  query_counter = 1;
  max_execution_time = pos 0;
  req_per_min = 0;
  rate_limiter = 3;
  queue_ch = none;
  max_queue_time = pos 0;
  token_limiter = limiter;
  tokens_burst = 100;
  tokens_rate = 10;
  allowed_networks = λ _. true;
  is_wildcarded = false;
}

abbrev pub cluster : Cluster
cluster = record {
  name = bytes "main";
  replicas = lone_replica ∷ pair_replica ∷ [];
  next_replica_idx = 0;
  users = (bytes "web", cluster_user) ∷ [];
  kill_query_user_name = [];
  kill_query_user_password = [];
  heart_beat = record {
    interval = 5;
    timeout = 3;
    request = bytes "/ping";
    response = bytes "Ok.";
    user = [];
    password = [];
  };
  retry_number = pos 2;
}

abbrev pub user : ℕ → User
user limit = record {
  name = bytes "alice";
  password = bytes "secret";
  to_cluster = bytes "main";
  to_user = bytes "web";
  max_concurrent_queries = limit;
  query_counter = 1;
  max_execution_time = pos 10;
  req_per_min = 60;
  rate_limiter = 5;
  token_limiter = limiter;
  tokens_burst = 0;
  tokens_rate = 0;
  queue_ch = some (record { capacity = 2; used = 0 });
  max_queue_time = pos (10 ^ 7);
  allowed_networks = λ _. true;
  deny_http = false;
  deny_https = false;
  allow_cors = false;
  is_wildcarded = false;
  cache = none;
  params = none;
}

abbrev pub host_one : HostRef
host_one = record { replica = 1; host = 1 }

-- A scope whose user may run `limit` queries and runs one.
abbrev pub scope : ℕ → Scope
scope limit = record {
  id = 11;
  host = host_one;
  cluster = cluster;
  user = user limit;
  cluster_user = cluster_user;
  session_id = [];
  session_timeout = 60;
  remote_addr = bytes "10.0.0.1:5000";
  local_addr = bytes "10.0.0.2:9090";
  canceled = false;
  request_packet_size = 8;
}
