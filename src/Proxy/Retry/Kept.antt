-- ===== src/Proxy/Retry/Kept.antt =====
-- What the loop of `executeWithRetry` of proxy.go keeps of the writers.
use chproxy.Scope.Types.{node_at}
use chproxy.Http.{no_body, broken_body, content, Body}
use chproxy.Scope.Pick.{get_host}
use chproxy.Proxy.Writers.{Writers, srw_respond_with, stat_status_code}
use chproxy.Base.{
  Bool-cases, List, Option-cases, Text, [], inl, inr, refl, ℕ, ℤ, ◌+◌, ◌==◌, ◌∷◌, ◌≢◌,
}
use chproxy.Proxy.Retry.{
  Attempt, Flight, retry_loop, execute_with_retry, may_retry, mark_failed, bad_gateway, written_by,
  code_of, after_attempt,
}
use chproxy.Proxy.Retry.Ends.{moved}

module _ (Q : Writers → Type 0)
    (attempt : (a : Attempt) (w : Writers) → Q w → Q (written_by a w) × Q (after_attempt a w))
    (respond : (error : Text) (status : ℕ) (w : Writers)
      → Q w
      → Q (srw_respond_with error status w)) where
  -- What is asked of the first attempt, if there is one.
  abbrev pub First : List Attempt → Writers → Type 0
  First [] w = Q w
  First (a ∷ attempts) w = Q (written_by a w) × Q (after_attempt a w)

  pub to_first : (attempts : List Attempt) (w : Writers) → Q w → First attempts w
  to_first [] w q = q
  to_first (a ∷ attempts) w q = attempt a w q

  retry_loop-keeps :
      (max_retry : ℤ) (attempts : List Attempt) (k : ℕ) (f : Flight)
      → First attempts f.writers
      → Q (retry_loop max_retry attempts k f).0.writers
  unfolding retry_loop
  retry_loop-keeps max_retry [] k f q = q
  retry_loop-keeps max_retry (a ∷ attempts) k f (q1, q2) =
      let c2 = mark_failed f.scope.host (a.others f.scope.cluster) in
      let w2 = after_attempt a f.writers in
      elim (Option-cases a.context_error) [
        | inr (e, ctx) ↦ rw (ctx, retry_loop) q1
        | inl live ↦ elim (Bool-cases (code_of a f.writers == bad_gateway)) [
          | inr fine ↦ rw (live, fine, retry_loop) q2
          | inl bad ↦ elim (Option-cases (get_host c2)) [
            | inl none_left ↦ rw (live, bad, none_left, retry_loop) q2
            | inr ((next, c3), got) ↦ elim (Option-cases (node_at c3 next)) [
              | inl missing ↦ rw (live, bad, got, missing, retry_loop) q2
              | inr (n, there) ↦ elim (Bool-cases (may_retry k max_retry n f.scope.session_id)) [
                | inr stop ↦
                    rw (live, bad, got, there, stop, retry_loop)
                      (respond a.error (stat_status_code w2.stat) w2 q2)
                | inl again ↦
                    rw (live, bad, got, there, again, retry_loop)
                      (retry_loop-keeps max_retry attempts (k + 1) (moved a next c3 f)
                        (to_first attempts w2 q2))
              ]
            ]
          ]
        ]
      ]

  pub execute_with_retry-keeps :
      (max_retry : ℤ) (body : Body) (attempts : List Attempt) (f : Flight)
      → Q f.writers
      → Q (execute_with_retry max_retry body attempts f).0.writers
  unfolding execute_with_retry
  execute_with_retry-keeps max_retry no_body attempts f q =
      retry_loop-keeps max_retry attempts 0 f (to_first attempts f.writers q)
  execute_with_retry-keeps max_retry broken_body attempts f q = q
  execute_with_retry-keeps max_retry (content t) attempts f q =
      retry_loop-keeps max_retry attempts 0 f (to_first attempts f.writers q)

  pub execute_with_retry-first :
      (max_retry : ℤ) (body : Body) (attempts : List Attempt) (f : Flight)
      → body ≢ broken_body
      → First attempts f.writers
      → Q (execute_with_retry max_retry body attempts f).0.writers
  unfolding execute_with_retry
  execute_with_retry-first max_retry no_body attempts f readable q =
      retry_loop-keeps max_retry attempts 0 f q
  execute_with_retry-first max_retry broken_body attempts f readable q = absurd (readable refl)
  execute_with_retry-first max_retry (content t) attempts f readable q =
      retry_loop-keeps max_retry attempts 0 f q
