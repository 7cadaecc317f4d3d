-- ===== src/Scope/Limits/Bound.antt =====
-- The limits that hold of every request that `inc` of scope.go let in.
use chproxy.Base.{Bool, arith, inc32, none, true, ℕ, ◌<◌, ◌^◌, ◌≡◌, ◌≤◌, ◌⊎◌}
use chproxy.Scope.Types.{Limiter, Scope}
use chproxy.Scope.Limits.{
  inc, over_concurrency, over_rate, concurrency_error, check_token_free_rate_limiters,
}

-- A limit on the number of running queries, 0 for none, and a count that it allows.
abbrev pub Allows : ℕ → ℕ → Type 0
Allows limit n = (limit ≡ 0) ⊎ (n ≤ limit)

-- A rate limit, an int32 of which 0 means none, and a count of this minute: the limit is no negative
-- number, and the count is within it or is one that was decremented below zero.
abbrev pub RateAllows : ℕ → ℕ → Type 0
RateAllows limit n = (limit ≡ 0) ⊎ ((limit < 2 ^ 31) × ((n ≤ limit) ⊎ (2 ^ 31 ≤ n)))

module _ (allow_n : Limiter → ℕ → ℕ → Bool) (now : ℕ) where
  -- The packet's tokens, where the user has a burst.
  abbrev pub HasTokens : ℕ → Limiter → ℕ → Type 0
  HasTokens burst l size = (burst ≡ 0) ⊎ (allow_n l now size ≡ true)

  concurrency_lem :
      (s : Scope)
      → concurrency_error s ≡ none
      → Allows s.user.max_concurrent_queries s.user.query_counter
        × Allows s.cluster_user.max_concurrent_queries s.cluster_user.query_counter
  unfolding concurrency_error over_concurrency
  concurrency_lem s h = ground arith

  -- A request that inc let in is within the two limits on running queries, itself counted, within
  -- both rates, and had its packet's tokens from both limiters.
  pub inc_accepted :
      (s : Scope)
      → (inc allow_n now s).1 ≡ none
      → Allows s.user.max_concurrent_queries (inc32 s.user.query_counter)
        × Allows s.cluster_user.max_concurrent_queries (inc32 s.cluster_user.query_counter)
        × RateAllows s.user.req_per_min (inc32 s.user.rate_limiter)
        × RateAllows s.cluster_user.req_per_min (inc32 s.cluster_user.rate_limiter)
        × HasTokens s.user.tokens_burst s.user.token_limiter s.request_packet_size
        × HasTokens s.cluster_user.tokens_burst s.cluster_user.token_limiter s.request_packet_size
  unfolding inc check_token_free_rate_limiters over_rate
  inc_accepted s h = ground arith
