-- ===== src/Tests/Cache.antt =====
-- Examples for the theorems on the cache and its transactions.
use chproxy.Base.{
  Dict, List, Option, Text, [], ap, arith, bytes, if◌then◌else◌, insert, lookup, lookup-insert_self,
  ltb, none, pos, refl, some, suc, true, zero, ℕ, ◌*◌, ◌++◌, ◌+◌, ◌/◌, ◌^◌, ◌∷◌, ◌≡◌,
}
use chproxy.Cache.RedisRegistry.{RedisClient, IsRedis}
use chproxy.Cache.Registry.{
  Registry, TransactionStatus, created, completed, Operation, creates, completes, cleans,
  apply_operations,
}
use chproxy.Cache.Registry.States.{run_machine, apply_operations-machine}
use chproxy.Cache.Key.{Key}
use chproxy.Cache.Key.Format.Distinct.{IsQuoting, InRange, key_text-distinct}
use chproxy.Cache.Await.{await_for_concurrent_transaction, poll_period}
use chproxy.Cache.Await.Ends.{IsAnswer, await_for_concurrent_transaction-IsAnswer}
use chproxy.Cache.Codec.{ContentMetadata, write_header, read_header}
use chproxy.Cache.Codec.RoundTrip.{read_header-write_header}

abbrev pub registry : Registry
registry = record {
  pending_entries =
      (bytes "k", record { deadline = 100; state = created; failed_reason = [] }) ∷ [];
  deadline = 60;
  transaction_ended_deadline = 5;
}

abbrev operations : List Operation
operations = completes (bytes "j") 50 ∷ cleans 99 ∷ creates (bytes "k") 99 ∷ []

apply_operations-machine_example :
    lookup (bytes "k") (apply_operations operations registry).pending_entries
    ≡ run_machine 60 5 (bytes "k") operations (lookup (bytes "k") registry.pending_entries)
apply_operations-machine_example = apply_operations-machine (bytes "k") operations registry

-- Pending for 150 milliseconds, then completed.
abbrev seen_at : ℕ → Option TransactionStatus
seen_at t = some (
    if ltb t (150 * 10 ^ 6)
    then record { state = created; fail_reason = [] }
    else record { state = completed; fail_reason = [] })

await_for_concurrent_transaction-IsAnswer_example :
    IsAnswer
      (10 ^ 9)
      seen_at
      (λ _. 3)
      (await_for_concurrent_transaction (10 ^ 9) seen_at (λ _. 3) (suc (10 ^ 9 / poll_period + 2)))
await_for_concurrent_transaction-IsAnswer_example =
    await_for_concurrent_transaction-IsAnswer (10 ^ 9) seen_at (λ _. 3) (omega arith)

abbrev metadata : ContentMetadata
metadata = record { content_length = pos 12; type = bytes "text/plain"; encoding = bytes "gzip" }

read_header-write_header_example :
    read_header (write_header (bytes "gzip") ++ bytes "rest") ≡ some (bytes "gzip", bytes "rest")
read_header-write_header_example =
    read_header-write_header (bytes "gzip") (bytes "rest") (omega arith)

abbrev live : (now : ℕ) → Option (Text × ℕ) → Option Text
live now none = none
live now (some (value, until)) = if ltb now until then some value else none

-- A Redis that forgets nothing, and drops a key when it is read too late.
abbrev redis : RedisClient
redis = record {
  State = Dict (Text × ℕ);
  set = λ key value ttl now s. (insert key (value, now + ttl) s, true);
  get = λ key now s. some (live now (lookup key s));
}

redis-IsRedis : IsRedis redis
redis-IsRedis = record {
  get-set = λ key value ttl now later s stored le soon.
      rw (lookup-insert_self key (value, now + ttl) s) (ground arith);
}

-- A quotation that can be read back: each byte behind a 1, and a 0 at the end.
abbrev quote : Text → Text
quote [] = 0 ∷ []
quote (c ∷ t) = 1 ∷ (c ∷ quote t)

abbrev read_on : ℕ → Option (Text × Text) → Option (Text × Text)
read_on c none = none
read_on c (some (t, r)) = some (c ∷ t, r)

abbrev unquote : Text → Option (Text × Text)
unquote [] = none
unquote (zero ∷ r) = some ([], r)
unquote (suc n ∷ []) = none
unquote (suc n ∷ c ∷ r) = read_on c (unquote r)

unquote-quote : IsQuoting quote unquote
unquote-quote [] r = refl
unquote-quote (c ∷ t) r = ap (read_on c) (unquote-quote t r)

abbrev key : Key
key = record {
  query = bytes "select 1";
  accept_encoding = bytes "gzip";
  default_format = [];
  database = bytes "db";
  compress = [];
  enable_http_compression = bytes "1";
  namespace = [];
  max_result_rows = [];
  extremes = [];
  result_overflow_mode = [];
  user_params_hash = 7;
  version = 5;
  query_params_hash = 0;
  user_credential_hash = 4000000000;
}

key-InRange : InRange key
key-InRange = record {
  version = omega arith;
  user_params_hash = omega arith;
  query_params_hash = omega arith;
  user_credential_hash = omega arith;
}

key_text-distinct_example : key ≡ record key { database = bytes "db" }
key_text-distinct_example =
    key_text-distinct quote unquote unquote-quote key (record key { database = bytes "db" })
      key-InRange key-InRange refl
