-- ===== src/Cache/RedisRegistry.antt =====
-- cache/transaction_registry_redis.go: the registry of transactions in Redis. The client of go-redis
-- is an interface: its state, `SET` with a time to live, and `GET`; a failing command is `none`.
pub mod Answers
use chproxy.Base.{
  Bool, Option, Text, [], bytes, false, if◌then◌else◌, none, some, true, ℕ, ◌++◌, ◌+◌, ◌<◌, ◌==◌,
  ◌∷◌, ◌≡◌, ◌≤◌,
}
use chproxy.Cache.Registry.{
  TransactionState, created, completed, failed, absent, TransactionStatus, is_failed,
}

pub record RedisClient : Type 1 where
  pub State : Type 0
  pub set : (key value : Text) (ttl now : ℕ) → State → State × Bool
  pub get : (key : Text) (now : ℕ) → State → Option (Option Text)

-- What is documented of the two commands: `GET` finds what a successful `SET` wrote until it expires.
pub record IsRedis (R : RedisClient) : Type 0 where
  pub get-set :
      (key value : Text) (ttl now later : ℕ) (s : R.State)
      → (R.set key value ttl now s).1 ≡ true
      → now ≤ later
      → later < now + ttl
      → R.get key later (R.set key value ttl now s).0 ≡ some (some value)

-- The state's byte. Other bytes than these four are of no state that the proxy tells from `absent`.
unfoldable pub byte_of : TransactionState → ℕ
byte_of created = 0
byte_of completed = 1
byte_of failed = 2
byte_of absent = 3

unfoldable pub state_of : ℕ → TransactionState
state_of b =
    if b == 0 then created else if b == 1 then completed else if b == 2 then failed else absent

abbrev pub to_transaction_key : Text → Text
to_transaction_key key = key ++ bytes "-transaction"

abbrev absent_status : TransactionStatus
absent_status = record { state = absent; fail_reason = [] }

-- The status of a raw value.
unfoldable pub decode_status : Text → TransactionStatus
decode_status [] = absent_status
decode_status (b ∷ reason) =
    let state = state_of b in
    record { state = state; fail_reason = if is_failed state then reason else [] }

module _ (R : RedisClient) (deadline transaction_ended_deadline : ℕ) where
  unfoldable pub redis_create : (key : Text) (now : ℕ) → R.State → R.State × Bool
  redis_create key now s = R.set (to_transaction_key key) (byte_of created ∷ []) deadline now s

  unfoldable pub redis_update_transaction_state :
      (key value : Text) (now : ℕ) → R.State → R.State × Bool
  redis_update_transaction_state key value now s =
      R.set (to_transaction_key key) value transaction_ended_deadline now s

  unfoldable pub redis_complete : (key : Text) (now : ℕ) → R.State → R.State × Bool
  redis_complete key now s = redis_update_transaction_state key (byte_of completed ∷ []) now s

  unfoldable pub redis_fail : (key reason : Text) (now : ℕ) → R.State → R.State × Bool
  redis_fail key reason now s = redis_update_transaction_state key (byte_of failed ∷ reason) now s

  -- The status, and whether it is without an error. A value without a byte is no error.
  unfoldable pub redis_status : (key : Text) (now : ℕ) → R.State → TransactionStatus × Bool
  redis_status key now s = elim (R.get (to_transaction_key key) now s) [
    | none ↦ (absent_status, false)
    | some none ↦ (absent_status, true)
    | some (some raw) ↦ (decode_status raw, true)
  ]
