-- ===== src/Cache/Await/Ends.antt =====
-- How `AwaitForConcurrentTransaction` of cache/async_cache.go ends, and when.
use chproxy.Base.{
  Bool-cases, Option, Option-cases, arith, false, inl, inr, ltb, none, some, suc, true, zero, ℕ,
  ◌*◌, ◌+◌, ◌/◌, ◌<◌, ◌≡◌, ◌≤◌,
}
use chproxy.Cache.Registry.{TransactionStatus, is_pending}
use chproxy.Cache.Await.{
  Awaited, settled, error_status, await_sleep, seen, await_rounds, poll_period,
  await_for_concurrent_transaction,
}

-- What the call may answer: an ended or absent transaction that the registry showed within the grace
-- time, an error of the registry within the grace time, or an absent one: then the registry showed a
-- pending transaction at a time from which one sleep and its lag lead beyond the grace time.
pub data IsAnswer (grace : ℕ) (status_at : ℕ → Option TransactionStatus) (lag : ℕ → ℕ)
    : Awaited → Type 0 where
  shown :
      (t : ℕ) (s : TransactionStatus)
      → t ≤ grace
      → status_at t ≡ some s
      → is_pending s.state ≡ false
      → IsAnswer grace status_at lag (settled s)
  broken :
      (t : ℕ) → t ≤ grace → status_at t ≡ none → IsAnswer grace status_at lag (error_status seen)
  given_up :
      (t k : ℕ)
      → t ≤ grace
      → grace < t + await_sleep grace + lag k
      → (s : TransactionStatus) → status_at t ≡ some s
      → is_pending s.state ≡ true
      → IsAnswer grace status_at lag (settled seen)

module _ (grace : ℕ) (status_at : ℕ → Option TransactionStatus) (lag : ℕ → ℕ) where
  await_rounds-IsAnswer :
      (f elapsed : ℕ)
      → elapsed ≤ grace
      → grace < elapsed + f * await_sleep grace
      → IsAnswer grace status_at lag (await_rounds grace status_at lag (suc f) elapsed)
  unfolding await_rounds
  await_rounds-IsAnswer zero elapsed h g = absurd (omega arith)
  await_rounds-IsAnswer (suc f) elapsed h g =
      let in_time : ltb grace elapsed ≡ false = ground arith in
      let next = elapsed + await_sleep grace + lag (suc f) in
      elim (Option-cases (status_at elapsed)) [
        | inl e ↦ rw (in_time, e, await_rounds) (broken elapsed h e)
        | inr (s, e) ↦ elim (Bool-cases (is_pending s.state)) [
          | inr p ↦ rw (in_time, e, p, await_rounds) (shown elapsed s h e p)
          | inl p ↦
              rw (in_time, e, p, await_rounds)
                (elim (Bool-cases (ltb grace next)) [
                  | inl over ↦
                      rw (over, await_rounds) (given_up elapsed (suc f) h (ground arith) s e p)
                  | inr early ↦ await_rounds-IsAnswer f next (ground arith) (omega arith)
                ])
        ]
      ]

twice : (q g : ℕ) → 0 < g → g < (q + 2) * g
twice q g h = omega arith

enough_rounds : (grace : ℕ) → 0 < grace → grace < (grace / poll_period + 2) * await_sleep grace
unfolding await_sleep
enough_rounds grace h = elim (Bool-cases (ltb grace poll_period)) [
  | inl e ↦ rw e (twice (grace / poll_period) grace h)
  | inr e ↦ rw e (ground arith)
]

-- With a grace time, whatever the registry answers at each time and however late each sleep returns,
-- the call ends within grace / 100 ms + 3 rounds: with the status of a transaction that is not
-- pending as the registry showed it within the grace time, with an error of the registry within that
-- time, or with an absent transaction; the last only where the registry showed a pending one within
-- the grace time, and the sleep behind that look, with its lag, led beyond the grace time.
pub await_for_concurrent_transaction-IsAnswer :
    (grace : ℕ) (status_at : ℕ → Option TransactionStatus) (lag : ℕ → ℕ)
    → 0 < grace
    → IsAnswer grace status_at lag
        (await_for_concurrent_transaction grace status_at lag (suc (grace / poll_period + 2)))
unfolding await_for_concurrent_transaction
await_for_concurrent_transaction-IsAnswer grace status_at lag h =
    let b = enough_rounds grace h in
    await_rounds-IsAnswer grace status_at lag (grace / poll_period + 2) 0 (omega arith)
      (omega arith)
