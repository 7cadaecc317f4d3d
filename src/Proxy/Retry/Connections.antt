-- ===== src/Proxy/Retry/Connections.antt =====
-- The open connections of the nodes through `executeWithRetry` of proxy.go.
use chproxy.Http.{Body}
use chproxy.Base.{
  All, Bool, Bool-cases, List, Option, Option-cases, [], ap, arith, dec32, false, if◌then◌else◌,
  inc32, inl, inr, map_option, none, refl, some, true, u32, ℕ, ℤ, ◌+◌, ◌==◌, ◌∙◌, ◌∷◌, ◌≡◌,
}
use chproxy.Scope.Nodes.{same_ref, node_at-update_node, count_of, connections_at, SameConnections}
use chproxy.Scope.Pick.{get_host}
use chproxy.Scope.Pick.Hosts.{get_host-SameNodes}
use chproxy.Http.{Body, no_body, broken_body, content}
use chproxy.Topology.{Node, penalize, set_is_active, increment_connections, decrement_connections}
use chproxy.Scope.Types.{Scope, HostRef, Cluster, node_at, update_node}
use chproxy.Proxy.Retry.{
  Attempt, Flight, retry_loop, execute_with_retry, may_retry, mark_failed, move_connection,
  bad_gateway, code_of,
}
use chproxy.Proxy.Retry.Ends.{moved}

pub connections_at-update :
    (f : Node → Node) (g : ℕ → ℕ)
    → ((n : Node) → u32 (f n).connections.value ≡ g (u32 n.connections.value))
    → (h k : HostRef) (c : Cluster)
    → connections_at (update_node h f c) k
      ≡ (if same_ref h k then map_option g (connections_at c k) else connections_at c k)
connections_at-update f g eq h k c =
    ap count_of (node_at-update_node h k f c) ∙ at (same_ref h k) (node_at c k)
  where
    at :
        (b : Bool) (o : Option Node)
        → count_of (if b then map_option f o else o)
          ≡ (if b then map_option g (count_of o) else count_of o)
    at false o = refl
    at true none = refl
    at true (some n) = ap some (eq n)

pub map_option_id : (o : Option ℕ) → map_option (λ x. x) o ≡ o
map_option_id none = refl
map_option_id (some x) = refl

mark_failed-connections : (h : HostRef) (c : Cluster) → SameConnections c (mark_failed h c)
unfolding mark_failed penalize set_is_active
mark_failed-connections h c k =
    connections_at-update (λ n. set_is_active false (penalize n).0) (λ x. x) (λ n. ground arith) h k
      c
    ∙ ground (arith, map_option_id (connections_at c k))

get_host-connections :
    (c : Cluster) {h : HostRef} {d : Cluster} → get_host c ≡ some (h, d) → SameConnections c d
get_host-connections c e k = ap count_of ((get_host-SameNodes c e).same_nodes k.replica k.host)

-- The open connections of a node without this request's own one.
abbrev pub without_own : Scope → HostRef → Option ℕ
without_own s k = connections_at (update_node s.host decrement_connections s.cluster) k

decrement-at :
    (h k : HostRef) (c : Cluster)
    → connections_at (update_node h decrement_connections c) k
      ≡ (if same_ref h k then map_option dec32 (connections_at c k) else connections_at c k)
unfolding decrement_connections
decrement-at h k c = connections_at-update decrement_connections dec32 (λ n. omega arith) h k c

increment-at :
    (h k : HostRef) (c : Cluster)
    → connections_at (update_node h increment_connections c) k
      ≡ (if same_ref h k then map_option inc32 (connections_at c k) else connections_at c k)
unfolding increment_connections
increment-at h k c = connections_at-update increment_connections inc32 (λ n. omega arith) h k c

map_down-up : (x : Option Node) → map_option dec32 (map_option inc32 (count_of x)) ≡ count_of x
map_down-up none = refl
map_down-up (some n) = ap some (omega arith)

-- Moving the connection moves it: without it, every node has what it had.
move_connection-without_own :
    (h next k : HostRef) (c : Cluster)
    → connections_at (update_node next decrement_connections (move_connection h next c)) k
      ≡ connections_at (update_node h decrement_connections c) k
unfolding move_connection
move_connection-without_own h next k c =
    let c1 = update_node h decrement_connections c in
    elim (Bool-cases (same_ref h next)) [
      | inl same ↦
          rw (same, move_connection) (ground (arith, decrement-at next k c, decrement-at h k c))
      | inr differ ↦
          rw (differ, move_connection)
            (decrement-at next k (update_node next increment_connections c1)
              ∙ ground (arith, increment-at next k c1, map_down-up (node_at c1 k)))
    ]

without_own-cong :
    (h k : HostRef) (c d : Cluster)
    → SameConnections c d
    → connections_at (update_node h decrement_connections d) k
      ≡ connections_at (update_node h decrement_connections c) k
without_own-cong h k c d same = rw (decrement-at h k d, decrement-at h k c, same k) refl

-- The users of a request, and the connections of the others, are as before.
pub record SameOthers (s t : Scope) : Type 0 where
  pub same_user : t.user ≡ s.user
  pub same_cluster_user : t.cluster_user ≡ s.cluster_user
  pub same_connections : (k : HostRef) → without_own t k ≡ without_own s k

-- What the others do meanwhile leaves as many connections as there were.
abbrev pub IsQuiet : List Attempt → Type 0
IsQuiet attempts = All (λ (a : Attempt). (c : Cluster) → SameConnections c (a.others c)) attempts

pub with_cluster :
    (s : Scope) (c : Cluster)
    → SameConnections s.cluster c
    → SameOthers s (record s { cluster = c })
with_cluster s c same = record {
  same_user = refl;
  same_cluster_user = refl;
  same_connections = λ k. without_own-cong s.host k s.cluster c same;
}

loop-SameOthers :
    (max_retry : ℤ) (attempts : List Attempt) (k : ℕ) (f : Flight)
    → IsQuiet attempts
    → SameOthers f.scope (retry_loop max_retry attempts k f).0.scope
unfolding retry_loop
loop-SameOthers max_retry [] k f quiet = record {
  same_user = refl;
  same_cluster_user = refl;
  same_connections = λ h. refl;
}
loop-SameOthers max_retry (a ∷ attempts) k f (quiet, later) =
    let s = f.scope in
    let c1 = a.others s.cluster in
    let c2 = mark_failed s.host c1 in
    let same1 = quiet s.cluster in
    let same2 : SameConnections s.cluster c2 = λ h. mark_failed-connections s.host c1 h ∙ same1 h in
    elim (Option-cases a.context_error) [
      | inr (e, ctx) ↦ rw (ctx, retry_loop) (with_cluster s c1 same1)
      | inl live ↦ elim (Bool-cases (code_of a f.writers == bad_gateway)) [
        | inr fine ↦ rw (live, fine, retry_loop) (with_cluster s c1 same1)
        | inl bad ↦ elim (Option-cases (get_host c2)) [
          | inl none_left ↦ rw (live, bad, none_left, retry_loop) (with_cluster s c2 same2)
          | inr ((next, c3), got) ↦
              let same3 : SameConnections s.cluster c3 =
                λ h. get_host-connections c2 got h ∙ same2 h in
              elim (Option-cases (node_at c3 next)) [
                | inl missing ↦ rw (live, bad, got, missing, retry_loop) (with_cluster s c3 same3)
                | inr (n, there) ↦ elim (Bool-cases (may_retry k max_retry n s.session_id)) [
                  | inr stop ↦
                      rw (live, bad, got, there, stop, retry_loop) (with_cluster s c3 same3)
                  | inl again ↦
                      rw (live, bad, got, there, again, retry_loop)
                        (over_next s next c3 same3
                          (loop-SameOthers max_retry attempts (k + 1) (moved a next c3 f) later))
                ]
              ]
        ]
      ]
    ]
  where
    over_next :
        (s : Scope) (next : HostRef) (c : Cluster) {t : Scope}
        → SameConnections s.cluster c
        → SameOthers (record s { host = next; cluster = move_connection s.host next c }) t
        → SameOthers s t
    over_next s next c same h = record {
      same_user = h.same_user;
      same_cluster_user = h.same_cluster_user;
      same_connections = λ k.
          h.same_connections k
          ∙ move_connection-without_own s.host next k c
          ∙ without_own-cong s.host k s.cluster c same;
    }

-- However often a request is tried and wherever it goes, executeWithRetry moves its own connection
-- along: without it, each node of the cluster has as many open connections as before, if the others
-- leave as many as they find; the counters of the two users stay.
pub execute_with_retry-SameOthers :
    (max_retry : ℤ) (body : Body) (attempts : List Attempt) (f : Flight)
    → IsQuiet attempts
    → SameOthers f.scope (execute_with_retry max_retry body attempts f).0.scope
unfolding execute_with_retry
execute_with_retry-SameOthers max_retry no_body attempts f quiet =
    loop-SameOthers max_retry attempts 0 f quiet
execute_with_retry-SameOthers max_retry broken_body attempts f quiet = record {
  same_user = refl;
  same_cluster_user = refl;
  same_connections = λ h. refl;
}
execute_with_retry-SameOthers max_retry (content t) attempts f quiet =
    loop-SameOthers max_retry attempts 0 f quiet
