-- ===== src/Tests/Queue.antt =====
-- The request queues at a concrete scope.
use chproxy.Base.{[], arith, refl, ◌∷◌}
use chproxy.Scope.Queue.{Nap, wait_until_allow_start, inc_queued}
use chproxy.Scope.Queue.Waits.{IsSettled, wait_until_allow_start-IsSettled}
use chproxy.Scope.Queue.Slots.{SameQueues, inc_queued-SameQueues}
use chproxy.Tests.Fixtures.{scope}
use chproxy.Tests.Limits.{allow}

-- Nothing happens meanwhile, and the sleep is on time.
abbrev quiet : Nap
quiet = record { late = 0; others = λ s. s }

wait_until_allow_start-IsSettled_example :
    let r = wait_until_allow_start (λ _. 5) allow (quiet ∷ quiet ∷ []) 10 20 3 (scope 1) in
    IsSettled 20 r.1 r.2
wait_until_allow_start-IsSettled_example =
    wait_until_allow_start-IsSettled (λ _. 5) allow 10 20 (quiet ∷ quiet ∷ []) 3 (scope 1)
      (omega arith)

inc_queued-SameQueues_example :
    SameQueues (scope 1) (inc_queued (λ _. 5) allow (quiet ∷ []) 0 (scope 1)).0
inc_queued-SameQueues_example =
    inc_queued-SameQueues (λ _. 5) allow (quiet ∷ []) 0 (scope 1) ((λ s. (refl, refl)), tt)
