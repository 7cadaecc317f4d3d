-- ===== src/Scope/Limits.antt =====
-- scope.go: `inc`, `dec` and the checks of `checkTokenFreeRateLimiters` and
-- `checkTokenFreePacketSizeRateLimiters`. `AllowN` of golang.org/x/time/rate is a parameter, a
-- function of the limiter with its past calls, the time and the number of tokens. An error is the
-- limit that was exceeded, without its text.
pub mod Release
pub mod Bound
pub mod Race
use chproxy.Base.{
  Bool, Option, dec32, if◌then◌else◌, inc32, is_neg32, is_pos32, ltb, none, some, ℕ, ◌&&◌, ◌||◌,
  ◌∷◌,
}
use chproxy.Topology.{increment_connections, decrement_connections}
use chproxy.Scope.Types.{Limiter, Scope, update_node}

pub data LimitError : Type 0 where
  user_concurrency cluster_user_concurrency : LimitError
  user_rate cluster_user_rate : LimitError
  user_packet_size cluster_user_packet_size : LimitError

-- A later error of `inc` replaces an earlier one.
abbrev pub or_earlier : Option LimitError → Option LimitError → Option LimitError
or_earlier (some e) earlier = some e
or_earlier none earlier = earlier

-- `limit > 0 && queries > limit`.
over_concurrency : (limit queries : ℕ) → Bool
over_concurrency limit queries = ltb 0 limit && ltb limit queries

-- The test of a rate: a negative limit refuses all. `int32(rate) > 0` excludes a counter that was
-- decremented below zero.
over_rate : (limit rate : ℕ) → Bool
over_rate limit rate = (is_pos32 limit && is_pos32 rate && ltb limit rate) || is_neg32 limit

-- Both counters up, before the checks.
count_in : Scope → Scope
count_in s = record s {
  user = record s.user { query_counter = inc32 s.user.query_counter };
  cluster_user = record s.cluster_user { query_counter = inc32 s.cluster_user.query_counter };
}

concurrency_error : Scope → Option LimitError
unfolding over_concurrency
concurrency_error s =
    let e1 =
      if over_concurrency s.user.max_concurrent_queries s.user.query_counter
      then some user_concurrency
      else none in
    if over_concurrency s.cluster_user.max_concurrent_queries s.cluster_user.query_counter
    then some cluster_user_concurrency
    else e1

-- All four counters down again.
count_out : Scope → Scope
count_out s = record s {
  user = record s.user {
    query_counter = dec32 s.user.query_counter;
    rate_limiter = dec32 s.user.rate_limiter;
  };
  cluster_user = record s.cluster_user {
    query_counter = dec32 s.cluster_user.query_counter;
    rate_limiter = dec32 s.cluster_user.rate_limiter;
  };
}

module _ (allow_n : Limiter → ℕ → ℕ → Bool) where
  check_user_packet : ℕ → Scope → Scope × Option LimitError
  check_user_packet now s =
      if ltb 0 s.user.tokens_burst
      then (
        record s {
          user = record user {
            token_limiter = record token_limiter { calls = (now, request_packet_size) ∷ calls };
          };
        },
        if allow_n s.user.token_limiter now s.request_packet_size
            then none
            else some user_packet_size,
      )
      else (s, none)
    where
      open s use {user, request_packet_size}
      open user use {token_limiter}
      open token_limiter use {calls}

  check_cluster_user_packet : ℕ → Scope → Scope × Option LimitError
  check_cluster_user_packet now s =
      if ltb 0 s.cluster_user.tokens_burst
      then (
        record s {
          cluster_user = record cluster_user {
            token_limiter = record token_limiter { calls = (now, request_packet_size) ∷ calls };
          };
        },
        if allow_n s.cluster_user.token_limiter now s.request_packet_size
            then none
            else some cluster_user_packet_size,
      )
      else (s, none)
    where
      open s use {cluster_user, request_packet_size}
      open cluster_user use {token_limiter}
      open token_limiter use {calls}

  check_token_free_packet_size_rate_limiters : ℕ → Scope → Scope × Option LimitError
  unfolding check_user_packet check_cluster_user_packet
  check_token_free_packet_size_rate_limiters now s =
      let (s1, e1) = check_user_packet now s in
      let (s2, e2) = check_cluster_user_packet now s1 in (s2, or_earlier e2 e1)

  unfoldable pub check_token_free_rate_limiters : ℕ → Scope → Scope × Option LimitError
  unfolding over_rate check_token_free_packet_size_rate_limiters
  check_token_free_rate_limiters now s =
      let u_rpm = inc32 s.user.rate_limiter in
      let c_rpm = inc32 s.cluster_user.rate_limiter in
      let s1 = record s {
        user = record s.user { rate_limiter = u_rpm };
        cluster_user = record s.cluster_user { rate_limiter = c_rpm };
      } in
      let e1 = if over_rate s.user.req_per_min u_rpm then some user_rate else none in
      let e2 = if over_rate s.cluster_user.req_per_min c_rpm then some cluster_user_rate else e1 in
      let (s2, e3) = check_token_free_packet_size_rate_limiters now s1 in (s2, or_earlier e3 e2)

  unfoldable pub inc : ℕ → Scope → Scope × Option LimitError
  unfolding count_in concurrency_error count_out
  inc now s =
      let s1 = count_in s in
      let (s2, e) = check_token_free_rate_limiters now s1 in
      elim (or_earlier e (concurrency_error s1)) [
        | some e ↦ (count_out s2, some e)
        | none ↦
            (record s2 { cluster = update_node s2.host increment_connections s2.cluster }, none)
      ]

unfoldable pub dec : Scope → Scope
dec s = record s {
  user = record s.user { query_counter = dec32 s.user.query_counter };
  cluster_user = record s.cluster_user { query_counter = dec32 s.cluster_user.query_counter };
  cluster = update_node s.host decrement_connections s.cluster;
}
