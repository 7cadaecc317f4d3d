-- ===== src/Tests/Topology.antt =====
-- internal/topology/node.go at concrete nodes.
use chproxy.Base.{List, [], arith, refl, true, ◌∷◌, ◌≡◌}
use chproxy.Topology.{penalize, current_load}
use chproxy.Topology.Load.{
  Watched, Event, IsOwed, looked, added, penalty_over, step, connected, steps, steps-IsOwed,
}
use chproxy.Tests.Fixtures.{node}

abbrev watched : Watched
watched = record { node = node true 3; adding = 0; owed = 0 }

penalized_load : current_load (penalize (node true 3)).0 ≡ 8
unfolding current_load penalize
penalized_load = refl

-- Two calls that both look before one adds.
abbrev racing : List Event
racing = looked ∷ looked ∷ added ∷ connected ∷ added ∷ penalty_over ∷ []

steps-IsOwed_example : IsOwed 2 (steps 2 watched racing)
steps-IsOwed_example =
    steps-IsOwed 2 (omega arith) watched racing
      (record { size = refl; max_size = refl; exact = omega arith; bounded = omega arith })

-- At 295 the two reach 305.
abbrev nearly : Watched
nearly = record watched { node = record (node true 3) { penalty = 295 }; owed = 59 }

racing_penalty : (steps 2 nearly (looked ∷ looked ∷ added ∷ added ∷ [])).node.penalty ≡ 305
unfolding steps step
racing_penalty = refl
