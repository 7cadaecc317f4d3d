-- ===== src/Cache/Store.antt =====
-- The interface `Cache` of cache/cache.go over an unknown state, and what its clients rely on. A
-- reader is the bytes that it gives. Errors of `Get` and a missing entry are one: no client tells
-- them apart.
use chproxy.Cache.Codec.{ContentMetadata}
use chproxy.Base.{Option, Text, some, ℕ, ℤ, ◌+◌, ◌≡◌, ◌≤◌}

pub record CachedData : Type 0 where
  pub metadata : ContentMetadata
  pub payload : Text
  pub ttl : ℤ

-- `put` gives the time to live of the entry, or an error.
pub record Store : Type 1 where
  pub State : Type 0
  pub get : (key : Text) → (now : ℕ) → State → Option CachedData
  pub put : (payload : Text) → ContentMetadata → (key : Text) → (now : ℕ) → State → State × Option ℕ

-- What was put is found until it expires, if the store can hold it.
pub record IsLawful (S : Store) (Fits : ContentMetadata → Text → Type 0) : Type 0 where
  pub get-put :
      (payload : Text) (m : ContentMetadata) (key : Text) (now later : ℕ) (s : S.State) {ttl : ℕ}
      → Fits m payload
      → (S.put payload m key now s).1 ≡ some ttl
      → now ≤ later
      → later ≤ now + ttl
      → (d : CachedData) × (S.get key later (S.put payload m key now s).0 ≡ some d)
        × (d.metadata ≡ m)
        × (d.payload ≡ payload)
