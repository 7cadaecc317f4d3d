-- ===== src/Tests/Limits.antt =====
-- The limits of a scope at concrete users.
use chproxy.Base.{
  Bool, [], arith, false, leb, none, refl, some, subst, true, ℕ, ◌+◌, ◌<◌, ◌^◌, ◌∷◌, ◌≡◌, ◌≤◌,
}
use chproxy.Scope.Types.{Limiter, node_at}
use chproxy.Scope.Limits.{inc, dec, check_token_free_rate_limiters, user_concurrency}
use chproxy.Scope.Limits.Release.{IsWords, SameQueries, dec-inc}
use chproxy.Scope.Limits.Bound.{Allows, RateAllows, HasTokens, inc_accepted}
use chproxy.Scope.Limits.Race.{arrive, back_off, finish, idle, act_all, running-le-limit}
use chproxy.Tests.Fixtures.{node, scope}

-- A limiter that hands out its burst.
abbrev pub allow : Limiter → ℕ → ℕ → Bool
allow l now n = leb n l.burst

pub scope-IsWords : (limit : ℕ) → IsWords (scope limit)
unfolding node_at
scope-IsWords limit = record {
  user_queries = omega arith;
  user_rate = omega arith;
  cluster_user_queries = omega arith;
  cluster_user_rate = omega arith;
  connections = λ n e.
      let same : node true 2 ≡ n = ground arith in
      subst (λ m. m.connections.value < 2 ^ 32) same (omega arith);
}

refused_runs : (inc allow 0 (scope 1)).1 ≡ some user_concurrency
unfolding inc check_token_free_rate_limiters
refused_runs = refl

pub accepted_runs : (inc allow 0 (scope 2)).1 ≡ none
unfolding inc check_token_free_rate_limiters
accepted_runs = refl

dec-inc_example : SameQueries (scope 2) (dec (inc allow 0 (scope 2)).0)
dec-inc_example = dec-inc allow 0 (scope 2) (scope-IsWords 2) accepted_runs

inc_accepted_example :
    Allows 2 2
    × Allows 4 2
    × RateAllows 60 6
    × RateAllows 0 4
    × HasTokens allow 0 0 (scope 2).user.token_limiter 8
    × HasTokens allow 0 100 (scope 2).cluster_user.token_limiter 8
inc_accepted_example = inc_accepted allow 0 (scope 2) accepted_runs

running-le-limit_example :
    let s = act_all 1 idle (arrive false ∷ arrive false ∷ back_off ∷ finish ∷ arrive false ∷ []) in
    (s.running ≤ 1) × (s.counter ≡ s.running + s.backing_off)
running-le-limit_example =
    running-le-limit 1 (arrive false ∷ arrive false ∷ back_off ∷ finish ∷ arrive false ∷ [])
      (omega arith) (omega arith)
