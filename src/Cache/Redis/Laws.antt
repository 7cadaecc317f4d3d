-- ===== src/Cache/Redis/Laws.antt =====
-- What cache/redis_cache.go relies on in Redis: what a key holds at a time, and what the commands do
-- to it.
use chproxy.Base.{Option, Text, some, true, ℕ, ℤ, ◌++◌, ◌+◌, ◌≡◌, ◌≢◌, ◌≤◌}
use chproxy.Cache.Redis.{Client}
use chproxy.Cache.RedisStream.Moves.{slice}

-- `value k t s`: what the key `k` holds at the time `t`, if nobody changes the state `s`.
pub record IsRedis (C : Client) (value : Text → ℕ → C.State → Option Text) : Type 0 where
  pub set-value :
      (k v : Text) (expire now later : ℕ) (s : C.State)
      → (C.set k v expire now s).1 ≡ true
      → now ≤ later
      → later ≤ now + expire
      → value k later (C.set k v expire now s).0 ≡ some v
  pub append-value :
      (k t v : Text) (now later : ℕ) (s : C.State) {n : ℕ}
      → (C.append k t now s).1 ≡ some n
      → now ≤ later
      → value k now s ≡ some v
      → value k later s ≡ some v
      → value k later (C.append k t now s).0 ≡ some (v ++ t)
  pub rename-value :
      (k new_key v : Text) (now later : ℕ) (s : C.State)
      → (C.rename k new_key now s).1 ≡ true
      → now ≤ later
      → value k now s ≡ some v
      → value k later s ≡ some v
      → value new_key later (C.rename k new_key now s).0 ≡ some v
  pub get_range-value :
      (k v : Text) (first last now : ℕ) (s : C.State)
      → value k now s ≡ some v
      → C.get_range k first last now s ≡ some (slice first last v)
  pub ttl-value :
      (k v : Text) (now : ℕ) (s : C.State)
      → value k now s ≡ some v
      → (t : ℤ) × (C.ttl k now s ≡ some t)
  pub set-other :
      (k v other : Text) (expire now later : ℕ) (s : C.State)
      → other ≢ k
      → value other later (C.set k v expire now s).0 ≡ value other later s
  pub append-other :
      (k t other : Text) (now later : ℕ) (s : C.State)
      → other ≢ k
      → value other later (C.append k t now s).0 ≡ value other later s
  pub rename-other :
      (k new_key other : Text) (now later : ℕ) (s : C.State)
      → other ≢ k
      → other ≢ new_key
      → value other later (C.rename k new_key now s).0 ≡ value other later s
  pub del-other :
      (k other : Text) (now later : ℕ) (s : C.State)
      → other ≢ k
      → value other later (C.del k now s) ≡ value other later s

-- No RENAME of the client fails.
abbrev pub Renames : (C : Client) → Type 0
Renames C = (k new_key : Text) (now : ℕ) (s : C.State) → (C.rename k new_key now s).1 ≡ true
