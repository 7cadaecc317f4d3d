-- ===== src/Topology/Load.antt =====
-- How penalties and connections move a node's load (internal/topology/node.go), with calls of
-- `Penalize` at the same time.
use chproxy.Topology.{penalize}
use chproxy.Base.{
  Bool, Bool-cases, List, [], arith, if◌then◌else◌, inl, inr, leb, refl, suc, zero, ℕ, ◌*◌, ◌+◌,
  ◌<◌, ◌^◌, ◌||◌, ◌∷◌, ◌≡◌, ◌≤◌,
}
use chproxy.Topology.Nodes.{
  Node, heartbeat, is_at_max_penalty, add_penalty, end_penalty, increment_connections,
  decrement_connections,
}

-- What can happen to a node: a call of `Penalize` loads and compares, one adds, a function that a
-- call scheduled runs, and the rest.
pub data Event : Type 0 where
  looked added penalty_over connected disconnected : Event
  checked : Bool → Event

-- `adding` counts the calls between their look and their addition, `owed` the scheduled functions
-- that have not run yet.
pub record Watched : Type 0 where
  pub node : Node
  pub adding : ℕ
  pub owed : ℕ

-- At most `callers` calls of `Penalize` stand between their two steps at a time.
module _ (callers : ℕ) where
  unfoldable pub step : Watched → Event → Watched
  unfolding end_penalty increment_connections decrement_connections heartbeat
  step w looked =
      if leb callers w.adding || is_at_max_penalty w.node
      then w
      else record w { adding = suc w.adding }
  step w added = elim w.adding [
    | zero ↦ w
    | suc k ↦ record { node = add_penalty w.node; adding = k; owed = suc w.owed }
  ]
  step w penalty_over = elim w.owed [
    | zero ↦ w
    | suc k ↦ record w { node = end_penalty w.node; owed = k }
  ]
  step w connected = record w { node = increment_connections w.node }
  step w disconnected = record w { node = decrement_connections w.node }
  step w (checked b) = record w { node = heartbeat b w.node }

  unfoldable pub steps : Watched → List Event → Watched
  unfolding step
  steps w [] = w
  steps w (e ∷ es) = steps (step w e) es

  -- The two steps of a call that nothing comes between are `penalize`.
  looked_added-penalize :
      (w : Watched)
      → w.adding ≡ 0
      → 0 < callers
      → (steps w (looked ∷ added ∷ [])).node ≡ (penalize w.node).0
  unfolding steps step penalize
  looked_added-penalize w e h = elim (Bool-cases (is_at_max_penalty w.node)) [
    | inl most ↦ ground (arith, most, e, h)
    | inr less ↦ ground (arith, less, e, h)
  ]

  -- The options are the defaults, the penalty is what the pending functions will take back, and with
  -- what the calls will still add it is at most five for each caller above 295.
  pub record IsOwed (w : Watched) : Type 0 where
    pub size : w.node.opts.penalty_size ≡ 5
    pub max_size : w.node.opts.penalty_max_size ≡ 300
    pub exact : w.node.penalty ≡ w.owed * 5
    pub bounded : w.node.penalty + w.adding * 5 ≤ 295 + callers * 5

  module _ (few : 295 + callers * 5 < 2 ^ 32) where
    over_IsOwed : (w : Watched) (k : ℕ) → w.owed ≡ k → IsOwed w → IsOwed (step w penalty_over)
    unfolding step
    over_IsOwed w zero e h = ground arith
    over_IsOwed w (suc k) e h = ground arith

    added_IsOwed : (w : Watched) (k : ℕ) → w.adding ≡ k → IsOwed w → IsOwed (step w added)
    unfolding step
    added_IsOwed w zero e h = ground arith
    added_IsOwed w (suc k) e h = ground arith

    step-IsOwed : (w : Watched) (e : Event) → IsOwed w → IsOwed (step w e)
    unfolding step
    step-IsOwed w looked h = ground arith
    step-IsOwed w added h = added_IsOwed w w.adding refl h
    step-IsOwed w penalty_over h = over_IsOwed w w.owed refl h
    step-IsOwed w connected h = ground arith
    step-IsOwed w disconnected h = ground arith
    step-IsOwed w (checked b) h = ground arith

    -- Let at most `callers` calls of `Penalize` stand between their load and their addition at a
    -- time, few enough for a uint32. Whatever happens to a node with the default options whose
    -- penalty is five for each pending function and, with five for each call that will still add, at
    -- most 295 and five for each caller: it stays so. With one caller the penalty is at most 300.
    pub steps-IsOwed : (w : Watched) (es : List Event) → IsOwed w → IsOwed (steps w es)
    unfolding steps
    steps-IsOwed w [] h = h
    steps-IsOwed w (e ∷ es) h = steps-IsOwed (step w e) es (step-IsOwed w e h)
