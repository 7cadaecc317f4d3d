-- ===== src/Cache/Await.antt =====
-- cache/async_cache.go: `AwaitForConcurrentTransaction`. The registry is what `Status` answers at
-- each time since the start of the call, and `lag` is by how much each round takes longer than its
-- sleep. Times are in nanoseconds.
pub mod Ends
use chproxy.Base.{Option, [], if◌then◌else◌, ltb, none, some, suc, zero, ℕ, ◌*◌, ◌+◌, ◌^◌}
use chproxy.Cache.Registry.{absent, TransactionStatus, is_pending}

-- `error_status` is the status that comes with an error; `unfinished` is a call for which no more
-- rounds were given.
pub data Awaited : Type 0 where
  settled error_status : TransactionStatus → Awaited
  unfinished : Awaited

-- 100 milliseconds.
abbrev pub poll_period : ℕ
poll_period = 100 * 10 ^ 6

-- The sleep of a round.
pub await_sleep : (grace : ℕ) → ℕ
await_sleep grace = if ltb grace poll_period then grace else poll_period

-- `seenState`, which the code never sets again.
abbrev pub seen : TransactionStatus
seen = record { state = absent; fail_reason = [] }

await_rounds :
    (grace : ℕ) (status_at : ℕ → Option TransactionStatus) (lag : ℕ → ℕ) (fuel elapsed : ℕ)
    → Awaited
await_rounds grace status_at lag zero elapsed = unfinished
await_rounds grace status_at lag (suc f) elapsed =
    let rest = await_rounds grace status_at lag f (elapsed + await_sleep grace + lag f) in
    if ltb grace elapsed then settled seen else elim (status_at elapsed) [
      | none ↦ error_status seen
      | some s ↦ if is_pending s.state then rest else settled s
    ]

pub await_for_concurrent_transaction :
    (grace : ℕ) (status_at : ℕ → Option TransactionStatus) (lag : ℕ → ℕ) (fuel : ℕ) → Awaited
unfolding await_rounds
await_for_concurrent_transaction grace status_at lag fuel = await_rounds grace status_at lag fuel 0
