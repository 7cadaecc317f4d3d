-- ===== src/Proxy/Retry.antt =====
-- proxy.go: `executeWithRetry`. Each call of the reverse proxy of net/http is an attempt: the headers,
-- the status and the body that it wrote, the error of the context behind it, and what others did to
-- the nodes meanwhile.
-- The body is read beforehand and restored for each attempt. Metrics are left out.
pub mod Ends
pub mod Kept
pub mod Connections
use chproxy.Proxy.Writers.{
  Writers, write_response, srw_set_status_code, srw_respond_with, rw_status_code, stat_status_code,
}
use chproxy.Base.{
  Bool, List, Option, Text, [], false, if◌then◌else◌, int_lt, is_empty, none, pos, some, true, ℕ, ℤ,
  ◌&&◌, ◌+◌, ◌==◌, ◌∷◌,
}
use chproxy.Topology.{Node, penalize, set_is_active, increment_connections, decrement_connections}
use chproxy.Http.{Body, broken_body}
use chproxy.Scope.Types.{Cluster, HostRef, Scope, node_at, update_node}
use chproxy.Scope.Nodes.{same_ref}
use chproxy.Scope.Pick.{get_host}

pub data ContextError : Type 0 where
  canceled deadline_exceeded : ContextError

-- `error` is the text of the error if no host can be reached after it.
pub record Attempt : Type 0 where
  pub headers : List (Text × Text)
  pub status : ℕ
  pub body : Text
  pub context_error : Option ContextError
  pub others : Cluster → Cluster
  pub error : Text

-- The scope and the writers of a request on its way.
pub record Flight : Type 0 where
  pub scope : Scope
  pub writers : Writers

-- How the loop ends: with the status of the last attempt, with the status of a host that could not
-- be reached and no other to try, with an error of the context or of reading the body, or with a
-- panic. `unfinished` is a loop for which no more attempts were given.
pub data Ending : Type 0 where
  proxied unreachable : ℕ → Ending
  context_done : ContextError → Ending
  unreadable no_node unfinished : Ending

abbrev pub bad_gateway : ℕ
bad_gateway = 502

-- The failed host is penalized, with nothing between the two steps of `Penalize`, and inactive.
unfoldable pub mark_failed : HostRef → Cluster → Cluster
mark_failed h c = update_node h (λ n. set_is_active false (penalize n).0) c

-- The request's connection goes over to the next host.
unfoldable pub move_connection : (current next : HostRef) → Cluster → Cluster
move_connection current next c =
    if same_ref current next
    then c
    else update_node next increment_connections (update_node current decrement_connections c)

-- Whether the query may be sent again: retries are left, the next host is active and there is no
-- session.
pub may_retry : (num_retry : ℕ) (max_retry : ℤ) → Node → (session : Text) → Bool
may_retry num_retry max_retry next session =
    int_lt (pos num_retry) max_retry && (next.active && is_empty session)

-- The writers after an attempt, and the status that it wrote.
unfoldable pub written_by : Attempt → Writers → Writers
unfolding write_response
written_by a w = write_response a.headers a.status a.body w

unfoldable pub code_of : Attempt → Writers → ℕ
code_of a w = rw_status_code (written_by a w)

unfoldable pub after_attempt : Attempt → Writers → Writers
after_attempt a w = srw_set_status_code (code_of a w) (written_by a w)

unfoldable pub retry_loop :
    (max_retry : ℤ) → List Attempt → (num_retry : ℕ) → Flight → Flight × Ending
unfolding srw_respond_with stat_status_code
retry_loop max_retry [] num_retry f = (f, unfinished)
retry_loop max_retry (a ∷ attempts) num_retry f =
    let s = f.scope in
    let c1 = a.others s.cluster in
    let s1 = record s { cluster = c1 } in
    let w1 = written_by a f.writers in
    let code = code_of a f.writers in
    let w2 = after_attempt a f.writers in
    elim a.context_error [
      | some e ↦ (record { scope = s1; writers = w1 }, context_done e)
      | none ↦ elim (code == bad_gateway) [
        | false ↦ (record { scope = s1; writers = w2 }, proxied code)
        | true ↦
            let c2 = mark_failed s.host c1 in
            elim (get_host c2) [
              | none ↦ (record { scope = record s { cluster = c2 }; writers = w2 }, no_node)
              | some (next, c3) ↦ elim (node_at c3 next) [
                | none ↦ (record { scope = record s { cluster = c3 }; writers = w2 }, no_node)
                | some n ↦ elim (may_retry num_retry max_retry n s.session_id) [
                  | false ↦ (
                    record {
                      scope = record s { cluster = c3 };
                      writers = srw_respond_with a.error (stat_status_code w2.stat) w2;
                    },
                    unreachable code,
                  )
                  | true ↦ retry_loop max_retry attempts (num_retry + 1) (record {
                    scope = record s { host = next; cluster = move_connection s.host next c3 };
                    writers = w2;
                  })
                ]
              ]
            ]
      ]
    ]

unfoldable pub execute_with_retry : (max_retry : ℤ) → Body → List Attempt → Flight → Flight × Ending
execute_with_retry max_retry body attempts f = elim body [
  | broken_body ↦ (f, unreadable)
  | _ ↦ retry_loop max_retry attempts 0 f
]
