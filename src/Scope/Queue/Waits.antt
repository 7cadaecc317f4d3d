-- ===== src/Scope/Queue/Waits.antt =====
-- How long a request waits in the queue of scope.go's `waitUntilAllowStart`, and what ends it.
use chproxy.Base.{
  Bool, Bool-cases, List, Option-cases, Text, [], arith, if◌then◌else◌, inl, inr, leb, leb→le,
  length, ltb, ℕ, ◌*◌, ◌+◌, ◌-◌, ◌∷◌, ◌≤◌,
}
use chproxy.Scope.Types.{Limiter, Scope}
use chproxy.Scope.Limits.{inc}
use chproxy.Scope.Queue.{
  Nap, Outcome, wait_until_allow_start, choose_host, started, refused, asleep, panicked,
}

-- How a wait may end, and when: `asleep` is none of it.
abbrev pub IsSettled : (deadline : ℕ) → Outcome → ℕ → Type 0
IsSettled deadline started end = Unit
IsSettled deadline (refused e) end = deadline ≤ end
IsSettled deadline asleep end = ⊥
IsSettled deadline panicked end = Unit

module _ (hash : Text → ℕ) (allow_n : Limiter → ℕ → ℕ → Bool) (sleep deadline : ℕ) where
  -- The loop ends: with as many naps as sleeps fit before the deadline, the request is started or
  -- refused (or its cluster has no host), it is refused only at or after the deadline, and however
  -- the naps go.
  pub wait_until_allow_start-IsSettled :
      (naps : List Nap) (now : ℕ) (s : Scope)
      → deadline ≤ now + length naps * sleep
      → let r = wait_until_allow_start hash allow_n naps sleep deadline now s in
        IsSettled deadline r.1 r.2
  unfolding wait_until_allow_start
  wait_until_allow_start-IsSettled [] now s h = ground arith
  wait_until_allow_start-IsSettled (nap ∷ naps) now s h =
      let s2 = nap.others (inc allow_n now s).0 in
      let d_left = deadline - now in
      let woken = now + (if ltb d_left sleep then d_left else sleep) + nap.late in
      elim (Option-cases (inc allow_n now s).1) [
        | inl ok ↦ rw (ok, wait_until_allow_start) tt
        | inr (e, bad) ↦ elim (Bool-cases (leb deadline now)) [
          | inl over ↦ rw (bad, over, wait_until_allow_start) (leb→le deadline now over)
          | inr early ↦ elim (Option-cases (choose_host hash allow_n s2.session_id s2.cluster)) [
            | inl no_host ↦ rw (bad, early, no_host, wait_until_allow_start) tt
            | inr ((host, c), chosen) ↦
                rw (bad, early, chosen, wait_until_allow_start)
                  (wait_until_allow_start-IsSettled naps woken
                    (record s2 { host = host; cluster = c }) (ground arith))
          ]
        ]
      ]
