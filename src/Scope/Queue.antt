-- ===== src/Scope/Queue.antt =====
-- scope.go: `incQueued` and `waitUntilAllowStart`. What happens around a request while it sleeps is
-- a list of naps, one for each sleep: by how much it ran late, and what the other requests did to
-- the shared objects meanwhile. Metrics are left out.
pub mod Waits
pub mod Slots
use chproxy.Base.{
  Bool, List, Option, Text, [], false, if◌then◌else◌, is_empty, is_none, leb, ltb, none, some, true,
  ℕ, ◌&&◌, ◌+◌, ◌-◌, ◌∷◌,
}
use chproxy.Scope.Types.{Limiter, Chan, Cluster, HostRef, Scope}
use chproxy.Scope.Limits.{LimitError, inc}
use chproxy.Scope.Pick.{get_host, get_host_sticky}
use chproxy.Scope.Timeouts.{calculate_queue_deadline_and_sleep}

pub record Nap : Type 0 where
  pub late : ℕ
  pub others : Scope → Scope

-- `asleep` is a request whose list of naps ended, `panicked` one whose cluster has no host to offer.
pub data Outcome : Type 0 where
  started : Outcome
  refused : LimitError → Outcome
  asleep panicked : Outcome

-- The two forms of `select` with a default: `none` is a full queue.
try_send : Chan → Option Chan
try_send ch = if ltb ch.used ch.capacity then some (record ch { used = ch.used + 1 }) else none

receive : Option Chan → Option Chan
receive none = none
receive (some ch) = some (record ch { used = ch.used - 1 })

set_user_queue : Option Chan → Scope → Scope
set_user_queue q s = record s { user = record s.user { queue_ch = q } }

set_cluster_user_queue : Option Chan → Scope → Scope
set_cluster_user_queue q s = record s { cluster_user = record s.cluster_user { queue_ch = q } }

leave_user_queue : Scope → Scope
unfolding set_user_queue receive
leave_user_queue s = set_user_queue (receive s.user.queue_ch) s

leave_cluster_user_queue : Scope → Scope
unfolding set_cluster_user_queue receive
leave_cluster_user_queue s = set_cluster_user_queue (receive s.cluster_user.queue_ch) s

abbrev pub outcome_of : Option LimitError → Outcome
outcome_of none = started
outcome_of (some e) = refused e

module _ (hash : Text → ℕ) (allow_n : Limiter → ℕ → ℕ → Bool) where
  -- The host for the next try: by the session, if there is one.
  choose_host : Text → Cluster → Option (HostRef × Cluster)
  choose_host session c = if is_empty session then get_host c else get_host_sticky hash session c

  -- The loop: the outcome, and the time at which it came.
  pub wait_until_allow_start : List Nap → (sleep deadline now : ℕ) → Scope → Scope × Outcome × ℕ
  unfolding choose_host
  wait_until_allow_start [] sleep deadline now s =
      let (s1, e) = inc allow_n now s in
      elim e [
        | none ↦ (s1, started, now)
        | some err ↦ if leb deadline now then (s1, refused err, now) else (s1, asleep, now)
      ]
  wait_until_allow_start (nap ∷ naps) sleep deadline now s =
      let (s1, e) = inc allow_n now s in
      elim e [
        | none ↦ (s1, started, now)
        | some err ↦ elim (leb deadline now) [
          | true ↦ (s1, refused err, now)
          | false ↦
              let d_left = deadline - now in
              let woken = now + (if ltb d_left sleep then d_left else sleep) + nap.late in
              let s2 = nap.others s1 in
              elim (choose_host s2.session_id s2.cluster) [
                | none ↦ (s2, panicked, woken)
                | some (h, c) ↦
                    wait_until_allow_start naps sleep deadline woken
                      (record s2 { host = h; cluster = c })
              ]
        ]
      ]

  -- After both queues: wait, then leave them in the order of the deferred calls.
  wait_in_queues : List Nap → ℕ → Scope → Scope × Outcome
  unfolding calculate_queue_deadline_and_sleep
  wait_in_queues naps now s =
      let (sleep, deadline) = calculate_queue_deadline_and_sleep now s in
      let (t, o, _) = wait_until_allow_start naps sleep deadline now s in (t, o)

  try_at_once : ℕ → Scope → Scope × Outcome
  try_at_once now s = let (t, e) = inc allow_n now s in (t, outcome_of e)

  enter_cluster_user_queue : List Nap → ℕ → Option Chan → Scope → Scope × Outcome
  unfolding try_send set_cluster_user_queue leave_cluster_user_queue
  enter_cluster_user_queue naps now none s = wait_in_queues naps now s
  enter_cluster_user_queue naps now (some ch) s = elim (try_send ch) [
    | none ↦ try_at_once now s
    | some ch' ↦
        let (t, o) = wait_in_queues naps now (set_cluster_user_queue (some ch') s) in
        (leave_cluster_user_queue t, o)
  ]

  enter_user_queue : List Nap → ℕ → Option Chan → Scope → Scope × Outcome
  unfolding try_send set_user_queue leave_user_queue
  enter_user_queue naps now none s = enter_cluster_user_queue naps now s.cluster_user.queue_ch s
  enter_user_queue naps now (some ch) s = elim (try_send ch) [
    | none ↦ try_at_once now s
    | some ch' ↦
        let s' = set_user_queue (some ch') s in
        let (t, o) = enter_cluster_user_queue naps now s'.cluster_user.queue_ch s' in
        (leave_user_queue t, o)
  ]

  pub inc_queued : List Nap → ℕ → Scope → Scope × Outcome
  inc_queued naps now s =
      if is_none s.user.queue_ch && is_none s.cluster_user.queue_ch
      then try_at_once now s
      else enter_user_queue naps now s.user.queue_ch s
