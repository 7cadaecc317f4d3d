-- ===== src/Scope/Limits/Race.antt =====
-- `inc` and `dec` of scope.go as other goroutines see them: the counter of one user is raised
-- atomically, judged by the value that the addition returned, and lowered later. The steps of all
-- goroutines come in any order.
use chproxy.Base.{
  Bool, List, [], arith, dec32, if◌then◌else◌, inc32, length, suc, ℕ, ◌+◌, ◌-◌, ◌<◌, ◌==◌, ◌^◌,
  ◌||◌, ◌∷◌, ◌≡◌, ◌≤◌,
}
use chproxy.Scope.Limits.{over_concurrency}

pub record Shared : Type 0 where
  pub counter : ℕ  -- uint32
  pub running : ℕ
  -- Requests that were refused and have not lowered the counter yet.
  pub backing_off : ℕ

pub data Action : Type 0 where
  -- Another of the limits refuses the request, or not.
  arrive : Bool → Action
  back_off finish : Action

abbrev pub idle : Shared
idle = record { counter = 0; running = 0; backing_off = 0 }

module _ (limit : ℕ) where
  pub act : Shared → Action → Shared
  unfolding over_concurrency
  act s (arrive other) =
      let v = inc32 s.counter in
      if over_concurrency limit v || other
      then record s { counter = v; backing_off = s.backing_off + 1 }
      else record s { counter = v; running = s.running + 1 }
  act s back_off =
      if s.backing_off == 0
      then s
      else record s { counter = dec32 s.counter; backing_off = s.backing_off - 1 }
  act s finish =
      if s.running == 0 then s else record s { counter = dec32 s.counter; running = s.running - 1 }

  pub act_all : Shared → List Action → Shared
  unfolding act
  act_all s [] = s
  act_all s (a ∷ as') = act_all (act s a) as'

  record Inv (s : Shared) (left : ℕ) : Type 0 where
    counted : s.counter ≡ s.running + s.backing_off
    room : s.counter + left < 2 ^ 32
    within : s.running ≤ limit

  act-Inv : (s : Shared) (a : Action) (left : ℕ) → 0 < limit → Inv s (suc left) → Inv (act s a) left
  unfolding act
  act-Inv s (arrive other) left h v = ground arith
  act-Inv s back_off left h v = ground arith
  act-Inv s finish left h v = ground arith

  act_all-Inv :
      (s : Shared) (as' : List Action) → 0 < limit → Inv s (length as') → Inv (act_all s as') 0
  unfolding act_all
  act_all-Inv s [] h v = v
  act_all-Inv s (a ∷ as') h v = act_all-Inv (act s a) as' h (act-Inv s a (length as') h v)

  -- Whatever the order in which fewer than 2^32 arrivals, refusals and ends of requests of one user
  -- come, no more requests than its positive limit run at once, and the counter is the number of
  -- those that run and those that still have to lower it.
  pub running-le-limit :
      (actions : List Action)
      → 0 < limit
      → length actions < 2 ^ 32
      → let s = act_all idle actions in
        (s.running ≤ limit) × (s.counter ≡ s.running + s.backing_off)
  running-le-limit actions h few =
      let v : Inv (act_all idle actions) 0 =
        act_all-Inv idle actions h
          (record { counted = omega arith; room = omega arith; within = omega arith }) in
      (v.within, v.counted)
