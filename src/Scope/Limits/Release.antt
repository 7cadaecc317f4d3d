-- ===== src/Scope/Limits/Release.antt =====
-- What `inc` takes is given back: at once when it refuses (scope.go, `inc`), else by `dec`.
use chproxy.Base.{
  Bool, ap, arith, dec32-inc32, inc32, modify_undo, none, some, ℕ, ◌<◌, ◌^◌, ◌≡◌, ◌≢◌,
}
use chproxy.Topology.{Node, increment_connections, decrement_connections}
use chproxy.Scope.Types.{Limiter, Cluster, HostRef, Scope, update_node, node_at}
use chproxy.Scope.Limits.{
  inc, dec, check_user_packet, check_cluster_user_packet,
  check_token_free_packet_size_rate_limiters, check_token_free_rate_limiters, count_in,
}

-- The counters of a scope are uint32 values.
pub record IsWords (s : Scope) : Type 0 where
  pub user_queries : s.user.query_counter < 2 ^ 32
  pub user_rate : s.user.rate_limiter < 2 ^ 32
  pub cluster_user_queries : s.cluster_user.query_counter < 2 ^ 32
  pub cluster_user_rate : s.cluster_user.rate_limiter < 2 ^ 32
  pub connections : (n : Node) → node_at s.cluster s.host ≡ some n → n.connections.value < 2 ^ 32

-- Two scopes agree in all that `inc` and `dec` count, besides the rates.
pub record SameQueries (s t : Scope) : Type 0 where
  pub same_user : t.user.query_counter ≡ s.user.query_counter
  pub same_cluster_user : t.cluster_user.query_counter ≡ s.cluster_user.query_counter
  pub same_cluster : t.cluster ≡ s.cluster
  pub same_host : t.host ≡ s.host

-- What the checks leave alone.
record Keeps (s t : Scope) : Type 0 where
  user_queries : t.user.query_counter ≡ s.user.query_counter
  cluster_user_queries : t.cluster_user.query_counter ≡ s.cluster_user.query_counter
  cluster : t.cluster ≡ s.cluster
  host : t.host ≡ s.host
  user_queue : t.user.queue_ch ≡ s.user.queue_ch
  cluster_user_queue : t.cluster_user.queue_ch ≡ s.cluster_user.queue_ch

module _ (allow_n : Limiter → ℕ → ℕ → Bool) (now : ℕ) where
  -- The packet checks change nothing but the calls of the two limiters.
  record KeepsRates (s t : Scope) : Type 0 where
    keeps : Keeps s t
    user_rate : t.user.rate_limiter ≡ s.user.rate_limiter
    cluster_user_rate : t.cluster_user.rate_limiter ≡ s.cluster_user.rate_limiter

  user_packet_keeps : (s : Scope) → KeepsRates s (check_user_packet allow_n now s).0
  unfolding check_user_packet
  user_packet_keeps s = ground arith

  cluster_user_packet_keeps : (s : Scope) → KeepsRates s (check_cluster_user_packet allow_n now s).0
  unfolding check_cluster_user_packet
  cluster_user_packet_keeps s = ground arith

  packet_keeps :
      (s : Scope) → KeepsRates s (check_token_free_packet_size_rate_limiters allow_n now s).0
  unfolding check_token_free_packet_size_rate_limiters
  packet_keeps s =
      let s1 = (check_user_packet allow_n now s).0 in
      ground (arith, user_packet_keeps s, cluster_user_packet_keeps s1)

  rates_keep :
      (s : Scope)
      → let t = (check_token_free_rate_limiters allow_n now s).0 in
        Keeps s t
        × (t.user.rate_limiter ≡ inc32 s.user.rate_limiter)
        × (t.cluster_user.rate_limiter ≡ inc32 s.cluster_user.rate_limiter)
  unfolding check_token_free_rate_limiters
  rates_keep s = ground (
    arith,
    packet_keeps (record s {
      user = record s.user { rate_limiter = inc32 s.user.rate_limiter };
      cluster_user = record s.cluster_user { rate_limiter = inc32 s.cluster_user.rate_limiter };
    }),
  )

  -- A request that inc refuses leaves the two query counters, the two rate counters, the cluster
  -- with its connections, and the host as they were.
  pub inc_refused :
      (s : Scope)
      → IsWords s
      → (inc allow_n now s).1 ≢ none
      → let t = (inc allow_n now s).0 in
        SameQueries s t
        × (t.user.rate_limiter ≡ s.user.rate_limiter)
        × (t.cluster_user.rate_limiter ≡ s.cluster_user.rate_limiter)
  unfolding inc
  inc_refused s w h = ground (arith, rates_keep (count_in s))

  connections_undo :
      (c : Cluster) (h : HostRef)
      → ((n : Node) → node_at c h ≡ some n → n.connections.value < 2 ^ 32)
      → update_node h decrement_connections (update_node h increment_connections c) ≡ c
  unfolding update_node node_at increment_connections decrement_connections
  connections_undo c h small =
      ap (λ rs. record c { replicas = rs })
        (modify_undo _ _ h.replica c.replicas λ r er.
          ap (λ hs. record r { hosts = hs })
            (modify_undo _ _ h.host r.hosts λ n en. undo n (small n (rw er en))))
    where
      undo :
          (n : Node)
          → n.connections.value < 2 ^ 32
          → decrement_connections (increment_connections n) ≡ n
      undo n l =
          ap (λ v. record n { connections = record { value = v } })
            (dec32-inc32 n.connections.value l)

  -- After a request that inc let in, dec gives both query counters back and leaves every node with
  -- the connections that it had: the cluster is as before.
  pub dec-inc :
      (s : Scope)
      → IsWords s
      → (inc allow_n now s).1 ≡ none
      → SameQueries s (dec (inc allow_n now s).0)
  unfolding inc dec
  dec-inc s w h =
      ground (arith, rates_keep (count_in s), connections_undo s.cluster s.host w.connections)

  -- The queues are none of the business of inc.
  pub inc_queues :
      (s : Scope)
      → let t = (inc allow_n now s).0 in
        (t.user.queue_ch ≡ s.user.queue_ch) × (t.cluster_user.queue_ch ≡ s.cluster_user.queue_ch)
  unfolding inc
  inc_queues s = ground (arith, rates_keep (count_in s))
