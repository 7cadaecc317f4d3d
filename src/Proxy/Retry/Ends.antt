-- ===== src/Proxy/Retry/Ends.antt =====
-- How often `executeWithRetry` of proxy.go tries.
use chproxy.Base.{
  Bool-cases, List, Option-cases, Text, [], arith, false, inl, inr, is_empty, length, magnitude,
  negsuc, none, pos, refl, true, ℕ, ℤ, ◌+◌, ◌<◌, ◌==◌, ◌∷◌, ◌≡◌, ◌≢◌, ◌≤◌,
}
use chproxy.Http.{Body, no_body, broken_body, content}
use chproxy.Topology.{Node}
use chproxy.Scope.Types.{node_at, HostRef, Cluster}
use chproxy.Scope.Pick.{get_host}
use chproxy.Proxy.Retry.{
  Attempt, unfinished, retry_loop, execute_with_retry, may_retry, mark_failed, move_connection,
  bad_gateway, Flight, code_of, after_attempt, proxied, written_by,
}

may_retry-lt :
    (k : ℕ) (max_retry : ℤ) (n : Node) (session : Text)
    → may_retry k max_retry n session ≡ true
    → k < magnitude max_retry
unfolding may_retry
may_retry-lt k (pos m) n session h = ground arith
may_retry-lt k (negsuc m) n session h = cc

-- The flight after an attempt whose response was not the last one.
abbrev pub moved : Attempt → HostRef → Cluster → Flight → Flight
moved a next c f = record {
  scope = record f.scope { host = next; cluster = move_connection f.scope.host next c };
  writers = after_attempt a f.writers;
}

loop-ends :
    (max_retry : ℤ) (attempts : List Attempt) (k : ℕ) (f : Flight)
    → k ≤ magnitude max_retry
    → magnitude max_retry < k + length attempts
    → (retry_loop max_retry attempts k f).1 ≢ unfinished
unfolding retry_loop
loop-ends max_retry [] k f le h = absurd (omega arith)
loop-ends max_retry (a ∷ attempts) k f le h =
    let c2 = mark_failed f.scope.host (a.others f.scope.cluster) in
    elim (Option-cases a.context_error) [
      | inr (e, ctx) ↦ rw (ctx, retry_loop) (λ x. cc)
      | inl live ↦ elim (Bool-cases (code_of a f.writers == bad_gateway)) [
        | inr fine ↦ rw (live, fine, retry_loop) (λ x. cc)
        | inl bad ↦ elim (Option-cases (get_host c2)) [
          | inl none_left ↦ rw (live, bad, none_left, retry_loop) (λ x. cc)
          | inr ((next, c3), got) ↦ elim (Option-cases (node_at c3 next)) [
            | inl missing ↦ rw (live, bad, got, missing, retry_loop) (λ x. cc)
            | inr (n, there) ↦ elim (Bool-cases (may_retry k max_retry n f.scope.session_id)) [
              | inr stop ↦ rw (live, bad, got, there, stop, retry_loop) (λ x. cc)
              | inl again ↦
                  let less = may_retry-lt k max_retry n f.scope.session_id again in
                  rw (live, bad, got, there, again, retry_loop)
                    (loop-ends max_retry attempts (k + 1) (moved a next c3 f) (omega arith)
                      (omega arith))
            ]
          ]
        ]
      ]
    ]

-- executeWithRetry ends after at most one attempt more than the number of retries, whatever the
-- attempts bring.
pub execute_with_retry-ends :
    (max_retry : ℤ) (body : Body) (attempts : List Attempt) (f : Flight)
    → magnitude max_retry < length attempts
    → (execute_with_retry max_retry body attempts f).1 ≢ unfinished
unfolding execute_with_retry
execute_with_retry-ends max_retry no_body attempts f h =
    loop-ends max_retry attempts 0 f (omega arith) (omega arith)
execute_with_retry-ends max_retry broken_body attempts f h = λ e. cc
execute_with_retry-ends max_retry (content t) attempts f h =
    loop-ends max_retry attempts 0 f (omega arith) (omega arith)

-- A request of a session is tried once: its scope keeps the host, and later attempts do not matter.
pub session_not_retried :
    (max_retry : ℤ) (a : Attempt) (attempts : List Attempt) (k : ℕ) (f : Flight)
    → is_empty f.scope.session_id ≡ false
    → (retry_loop max_retry (a ∷ attempts) k f ≡ retry_loop max_retry (a ∷ []) k f)
      × ((retry_loop max_retry (a ∷ attempts) k f).0.scope.host ≡ f.scope.host)
unfolding retry_loop may_retry
session_not_retried max_retry a attempts k f h = ground arith

-- A first attempt that is not a bad gateway is the only one.
pub execute_with_retry-proxied :
    (max_retry : ℤ) (body : Body) (a : Attempt) (attempts : List Attempt) (f : Flight)
    → body ≢ broken_body
    → a.context_error ≡ none
    → (code_of a f.writers == bad_gateway) ≡ false
    → execute_with_retry max_retry body (a ∷ attempts) f ≡ (
      record {
        scope = record f.scope { cluster = a.others f.scope.cluster };
        writers = after_attempt a f.writers;
      },
      proxied (code_of a f.writers),
    )
unfolding execute_with_retry retry_loop after_attempt code_of written_by
execute_with_retry-proxied max_retry no_body a attempts f readable live fine =
    rw (live, fine, retry_loop) refl
execute_with_retry-proxied max_retry broken_body a attempts f readable live fine =
    absurd (readable refl)
execute_with_retry-proxied max_retry (content t) a attempts f readable live fine =
    rw (live, fine, retry_loop) refl
