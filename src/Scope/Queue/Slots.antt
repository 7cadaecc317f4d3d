-- ===== src/Scope/Queue/Slots.antt =====
-- The slots of the request queues in scope.go's `incQueued`.
use chproxy.Base.{
  All, Bool, Bool-cases, List, Option, Option-cases, Text, [], arith, if◌then◌else◌, inl, inr, leb,
  ltb, none, refl, some, ℕ, ◌+◌, ◌-◌, ◌∙◌, ◌∷◌, ◌≡◌,
}
use chproxy.Scope.Types.{Limiter, Scope, Chan}
use chproxy.Scope.Limits.{inc}
use chproxy.Scope.Limits.Release.{inc_queues}
use chproxy.Scope.Timeouts.{calculate_queue_deadline_and_sleep}
use chproxy.Scope.Queue.{
  Nap, wait_until_allow_start, choose_host, inc_queued, wait_in_queues, try_at_once,
  enter_cluster_user_queue, enter_user_queue, set_user_queue, set_cluster_user_queue,
}

-- The same two queues, with the same slots taken.
abbrev pub SameQueues : Scope → Scope → Type 0
SameQueues s t =
    (t.user.queue_ch ≡ s.user.queue_ch) × (t.cluster_user.queue_ch ≡ s.cluster_user.queue_ch)

-- While the request sleeps, as many others leave the queues as enter them.
abbrev pub IsBalanced : List Nap → Type 0
IsBalanced naps = All (λ (nap : Nap). (s : Scope) → SameQueues s (nap.others s)) naps

module _ (hash : Text → ℕ) (allow_n : Limiter → ℕ → ℕ → Bool) where
  wait_queues :
      (naps : List Nap) (sleep deadline now : ℕ) (s : Scope)
      → IsBalanced naps
      → SameQueues s (wait_until_allow_start hash allow_n naps sleep deadline now s).0
  unfolding wait_until_allow_start
  wait_queues [] sleep deadline now s b = ground (arith, inc_queues allow_n now s)
  wait_queues (nap ∷ naps) sleep deadline now s (b, bs) =
      let s1 = (inc allow_n now s).0 in
      let s2 = nap.others s1 in
      let d_left = deadline - now in
      let woken = now + (if ltb d_left sleep then d_left else sleep) + nap.late in
      let same = inc_queues allow_n now s in
      let same2 = b s1 in
      elim (Option-cases (inc allow_n now s).1) [
        | inl ok ↦ rw (ok, wait_until_allow_start) same
        | inr (e, bad) ↦ elim (Bool-cases (leb deadline now)) [
          | inl over ↦ rw (bad, over, wait_until_allow_start) same
          | inr early ↦ elim (Option-cases (choose_host hash allow_n s2.session_id s2.cluster)) [
            | inl no_host ↦
                rw (bad, early, no_host, wait_until_allow_start)
                  (same2.0 ∙ same.0, same2.1 ∙ same.1)
            | inr ((host, c), chosen) ↦
                let rest =
                  wait_queues naps sleep deadline woken (record s2 { host = host; cluster = c })
                    bs in
                rw (bad, early, chosen, wait_until_allow_start)
                  (rest.0 ∙ same2.0 ∙ same.0, rest.1 ∙ same2.1 ∙ same.1)
          ]
        ]
      ]

  wait_in_queues-SameQueues :
      (naps : List Nap) (now : ℕ) (s : Scope)
      → IsBalanced naps
      → SameQueues s (wait_in_queues hash allow_n naps now s).0
  unfolding wait_in_queues
  wait_in_queues-SameQueues naps now s b =
      wait_queues naps (calculate_queue_deadline_and_sleep now s).0
        (calculate_queue_deadline_and_sleep now s).1 now s b

  try_at_once-SameQueues : (now : ℕ) (s : Scope) → SameQueues s (try_at_once hash allow_n now s).0
  unfolding try_at_once
  try_at_once-SameQueues now s = inc_queues allow_n now s

  abbrev more : Chan → Chan
  more ch = record ch { used = ch.used + 1 }

  cluster_user-SameQueues :
      (naps : List Nap) (now : ℕ) (q : Option Chan) (s : Scope)
      → s.cluster_user.queue_ch ≡ q
      → IsBalanced naps
      → SameQueues s (enter_cluster_user_queue hash allow_n naps now q s).0
  unfolding enter_cluster_user_queue
  cluster_user-SameQueues naps now none s e b = wait_in_queues-SameQueues naps now s b
  cluster_user-SameQueues naps now (some ch) s e b =
      let s' = set_cluster_user_queue (some (more ch)) s in
      ground (arith, wait_in_queues-SameQueues naps now s' b, try_at_once-SameQueues now s)

  user-SameQueues :
      (naps : List Nap) (now : ℕ) (q : Option Chan) (s : Scope)
      → s.user.queue_ch ≡ q
      → IsBalanced naps
      → SameQueues s (enter_user_queue hash allow_n naps now q s).0
  unfolding enter_user_queue
  user-SameQueues naps now none s e b =
      cluster_user-SameQueues naps now s.cluster_user.queue_ch s refl b
  user-SameQueues naps now (some ch) s e b =
      let s' = set_user_queue (some (more ch)) s in
      let inner = cluster_user-SameQueues naps now s.cluster_user.queue_ch s' refl b in
      ground (arith, inner, try_at_once-SameQueues now s)

  -- A request leaves the slots that it took: if the other requests leave the queues as full as they
  -- find them while it sleeps, incQueued ends with both queues as full as before, however it ends.
  pub inc_queued-SameQueues :
      (naps : List Nap) (now : ℕ) (s : Scope)
      → IsBalanced naps
      → SameQueues s (inc_queued hash allow_n naps now s).0
  unfolding inc_queued
  inc_queued-SameQueues naps now s b =
      ground
        (arith, user-SameQueues naps now s.user.queue_ch s refl b, try_at_once-SameQueues now s)
