-- ===== src/Cache/Redis.antt =====
-- `redisCache` of cache/redis_cache.go: `Get`, `Put` and `clean` over a Redis client. The commands of
-- one call stand at one time. What the code does with a reader's bytes is a list of what the
-- reader's calls give, which ends where the reader has nothing more.
pub mod Laws
pub mod Puts
pub mod Gets
use chproxy.Cache.RedisStream.{RedisStreamReader, GetRange, read_stream, new_redis_stream_reader}
use chproxy.Base.{
  Bool, List, Option, Stop, Text, [], at_end, bytes, drop, false, if◌then◌else◌, inl, inr, int_le,
  is_empty, leb, length, ltb, magnitude, negsuc, none, pos, read_calls, read_failed, replicate,
  some, true, ℕ, ℤ, ◌*◌, ◌++◌, ◌+◌, ◌==◌, ◌>>=◌, ◌^◌, ◌||◌, ◌∷◌, ◌⊎◌,
}
use chproxy.Cache.Codec.{
  ContentMetadata, encode_metadata, decode_metadata, decoded, corrupted, out_of_range,
}
use chproxy.Cache.Store.{Store, CachedData}

-- The commands of the client. `set`, `append`, `get_range`, `ttl` and `rename` may fail, and the code
-- ignores the errors of `rename` and `del`. `get_range` gives nothing where there is no value.
pub record Client : Type 1 where
  pub State : Type 0
  pub set : (key value : Text) (expire now : ℕ) → State → State × Bool
  pub append : (key value : Text) (now : ℕ) → State → State × Option ℕ
  pub get_range : (key : Text) (first last now : ℕ) → State → Option Text
  pub ttl : (key : Text) (now : ℕ) → State → Option ℤ  -- a `time.Duration`
  pub rename : (key new_key : Text) (now : ℕ) → State → State × Bool
  pub del : (key : Text) (now : ℕ) → State → State

-- The error beside the bytes of a call of `Read`.
pub data ReadError : Type 0 where
  no_error end_of_file other_error : ReadError

abbrev pub is_other_error : ReadError → Bool
is_other_error no_error = false
is_other_error end_of_file = false
is_other_error other_error = true

-- The sizes in bytes that the code has as constants.
pub record Sizes : Type 0 where
  pub first_range : ℕ  -- `nbBytesToFetch`
  pub buffer : ℕ  -- of `redisStreamReader`
  pub copy : ℕ  -- of `io.Copy`

abbrev pub sizes : Sizes
sizes = record { first_range = 100 * 1024; buffer = 2 * 1024 * 1024; copy = 32 * 1024 }

-- `minTTLForRedisStreamingReader`, in nanoseconds like every `time.Duration`.
abbrev pub min_ttl_for_redis_streaming_reader : ℕ
min_ttl_for_redis_streaming_reader = 15 * 10 ^ 9

abbrev pub tmp_key : (key random : Text) → Text
tmp_key key random = bytes "{" ++ (key ++ (bytes "}" ++ (random ++ bytes "_tmp")))

-- The reader of a cached response.
pub data Data : Type 0 where
  bytes_reader file_reader : Text → Data
  stream_reader : RedisStreamReader → Data

pub record Found : Type 0 where
  pub metadata : ContentMetadata
  pub body : Data  -- `Data`
  pub ttl : ℤ

-- Why `Get` gives nothing.
pub data GetError : Type 0 where
  missing ttl_failed corrupted_value panicked not_copied : GetError

-- `int64(offset) + metadata.Length < nbBytesToFetch`; the sum wraps around.
unfoldable pub is_fetched : (offset : ℕ) → ℤ → (limit : ℕ) → Bool
is_fetched offset (pos n) limit = ltb (n + offset) limit || leb (2 ^ 63) (n + offset)
is_fetched offset (negsuc n) limit = ltb offset (limit + n + 1)

-- What was read, where it stopped at the end.
unfoldable pub if_whole : Text × Option Stop → Option Text
if_whole (t, some at_end) = some t
if_whole (t, some read_failed) = none
if_whole (t, none) = none

-- A reader that is read to its end, with calls for as many bytes as it expects and two more.
unfoldable pub read_all : (copy : ℕ) → GetRange → RedisStreamReader → Option Text
unfolding if_whole
read_all copy get_range r =
    if_whole (
      read_calls read_stream (replicate (magnitude r.expected_payload_size + 2) (copy, get_range))
        r)

module _ (C : Client) where
  -- The loop of `Put`. `append` takes the variable `err` of the reader, so that the test for the end
  -- of the file at the end of the loop's body never holds.
  unfoldable pub put_reads :
      (key : Text) (now expected : ℕ) → List (Text × ReadError) → C.State → C.State × Bool
  put_reads key now expected [] s = (s, true)
  put_reads key now expected ((t, err) ∷ reads) s =
      let (s', written) = C.append key t now s in
      let rest = put_reads key now (expected + length t) reads s' in
      if is_empty t
      then (s, true)
      else if is_other_error err
      then (s, false)
      else if is_written (expected + length t) written
      then rest
      else (C.del key now s', false)
    where
      is_written : ℕ → Option ℕ → Bool
      is_written n none = false
      is_written n (some m) = m == n

  -- `Put`: the time to live, or an error.
  unfoldable pub redis_put :
      (expire : ℕ) (random : Text) (reads : List (Text × ReadError))
      → ContentMetadata
      → (key : Text) (now : ℕ) → C.State
      → C.State × Option ℕ
  unfolding put_reads
  redis_put expire random reads m key now s =
      let tmp = tmp_key key random in
      let (s1, is_set) = C.set tmp (encode_metadata m) expire now s in
      let (s2, done) = put_reads tmp now (length (encode_metadata m)) reads s1 in
      if is_set
      then if done then ((C.rename tmp key now s2).0, some expire) else (s2, none)
      else (s1, none)

  -- A value that the first range does not hold: through a temporary file if it lives only a short
  -- time. `file_works`: the file can be created and written.
  unfoldable pub read_results_above_limit :
      Sizes
      → (file_works : Bool) → ContentMetadata
      → (offset : ℕ) (ttl : ℤ) → GetRange
      → GetError ⊎ Found
  unfolding read_all
  read_results_above_limit z file_works m offset ttl get_range =
      let r = new_redis_stream_reader z.buffer offset m.content_length in
      let found : Data → Found = λ d. record { metadata = m; body = d; ttl = ttl } in
      if int_le ttl (pos min_ttl_for_redis_streaming_reader)
      then if file_works
        then elim (read_all z.copy get_range r) [
          | none ↦ inl not_copied
          | some t ↦ inr (found (file_reader t))
        ]
        else inl not_copied
      else inr (found (stream_reader r))

  unfoldable pub redis_get :
      Sizes → (file_works : Bool) (key : Text) (now : ℕ) → C.State → GetError ⊎ Found
  unfolding read_results_above_limit is_fetched
  redis_get z file_works key now s = elim (C.get_range key 0 z.first_range now s) [
    | none ↦ inl missing
    | some [] ↦ inl missing
    | some (b ∷ val) ↦ elim (C.ttl key now s) [
      | none ↦ inl ttl_failed
      | some ttl ↦ elim (decode_metadata (b ∷ val)) [
        | corrupted ↦ inl corrupted_value
        | out_of_range ↦ inl panicked
        | decoded m offset ↦
            if is_fetched offset m.content_length z.first_range
            then inr
                (record { metadata = m; body = bytes_reader (drop offset (b ∷ val)); ttl = ttl })
            else read_results_above_limit z file_works m offset ttl
                (λ first last. C.get_range key first last now s)
      ]
    ]
  ]

  -- What the reader of a response gives, read at once.
  unfoldable pub read_body : (copy : ℕ) → GetRange → Data → Option Text
  unfolding read_all
  read_body copy get_range (bytes_reader t) = some t
  read_body copy get_range (file_reader t) = some t
  read_body copy get_range (stream_reader r) = read_all copy get_range r

  unfoldable pub get_data :
      Sizes → (file_works : Bool) (key : Text) (now : ℕ) → C.State → Option CachedData
  unfolding redis_get read_body
  get_data z file_works key now s = elim (redis_get z file_works key now s) [
    | inl e ↦ none
    | inr d ↦ do
      t ← read_body z.copy (λ first last. C.get_range key first last now s) d.body
      some (record { metadata = d.metadata; payload = t; ttl = d.ttl })
  ]

  -- The cache as a store: `random` draws the temporary key's name, `reads` cuts a response into what
  -- the calls of its reader give.
  abbrev pub redis_store :
      Sizes
      → (file_works : Bool) (expire : ℕ) (random : ℕ → Text)
        (reads : Text → List (Text × ReadError))
      → Store
  redis_store z file_works expire random reads = record {
    State = C.State;
    get = get_data z file_works;
    put = λ payload m key now s. redis_put expire (random now) (reads payload) m key now s;
  }
