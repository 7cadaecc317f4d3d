-- ===== src/Cache/RedisRegistry/Answers.antt =====
-- What the registry of cache/transaction_registry_redis.go answers behind its operations.
use chproxy.Base.{Text, [], refl, true, ℕ, ◌+◌, ◌<◌, ◌∷◌, ◌≡◌, ◌≤◌}
use chproxy.Cache.Registry.{created, completed, failed, is_failed}
use chproxy.Cache.RedisRegistry.{
  RedisClient, IsRedis, byte_of, state_of, decode_status, redis_create, redis_complete, redis_fail,
  redis_status, redis_update_transaction_state, to_transaction_key,
}

module _ (R : RedisClient) (law : IsRedis R) (deadline ended : ℕ) where
  status-set :
      (key value : Text) (ttl now later : ℕ) (s : R.State)
      → (R.set (to_transaction_key key) value ttl now s).1 ≡ true
      → now ≤ later
      → later < now + ttl
      → redis_status R deadline ended key later (R.set (to_transaction_key key) value ttl now s).0
        ≡ (decode_status value, true)
  unfolding redis_status
  status-set key value ttl now later s stored le soon =
      rw (law.get-set (to_transaction_key key) value ttl now later s stored le soon, redis_status)
        refl

  -- Until it expires, a transaction that was created is answered as created, a completed one as
  -- completed, and a failed one as failed with its whole reason, whatever was stored before, where
  -- the operations reach Redis.
  redis_status-answers :
      (key reason : Text) (now later : ℕ) (s : R.State)
      → (redis_create R deadline ended key now s).1 ≡ true
      → (redis_complete R deadline ended key now s).1 ≡ true
      → (redis_fail R deadline ended key reason now s).1 ≡ true
      → now ≤ later
      → later < now + deadline
      → later < now + ended
      → (redis_status R deadline ended key later (redis_create R deadline ended key now s).0
          ≡ (record { state = created; fail_reason = [] }, true))
        × (redis_status R deadline ended key later (redis_complete R deadline ended key now s).0
            ≡ (record { state = completed; fail_reason = [] }, true))
        × (redis_status R deadline ended key later (redis_fail R deadline ended key reason now s).0
            ≡ (record { state = failed; fail_reason = reason }, true))
  unfolding redis_create redis_complete redis_fail redis_update_transaction_state byte_of state_of
      decode_status is_failed
  redis_status-answers key reason now later s create_ok complete_ok fail_ok le soon soon_ended = (
    status-set key (byte_of created ∷ []) deadline now later s create_ok le soon,
    status-set key (byte_of completed ∷ []) ended now later s complete_ok le soon_ended,
    status-set key (byte_of failed ∷ reason) ended now later s fail_ok le soon_ended,
  )
