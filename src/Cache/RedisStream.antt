-- ===== src/Cache/RedisStream.antt =====
-- `redisStreamReader` of cache/redis_cache.go: a reader of a value that is fetched from Redis in
-- ranges. A command GETRANGE on the key is what it answers for a first and a last byte, `none` for
-- an error; each call of `Read` has its own, since the value may expire or change between two calls.
pub mod Moves
pub mod Whole
pub mod Steady
pub mod Progress
use chproxy.Base.{
  Bool, Option, Stop, Text, [], at_end, drop, false, if◌then◌else◌, inl, inr, is_empty, leb, length,
  ltb, negsuc, none, pos, read_failed, some, suc, take, zero, ℕ, ℤ, ◌&&◌, ◌+◌, ◌==◌, ◌>>=◌, ◌||◌,
  ◌∷◌, ◌⊎◌,
}

abbrev pub GetRange : Type 0
GetRange = (first last : ℕ) → Option Text

pub record RedisStreamReader : Type 0 where
  pub is_redis_eof : Bool
  pub redis_offset : ℕ
  pub buffer : Text
  pub buffer_offset : ℕ
  pub expected_payload_size : ℤ
  pub read_payload_size : ℕ

abbrev pub zeros : ℕ → Text
zeros zero = []
zeros (suc n) = 0 ∷ zeros n

-- With a buffer of `buffer_size` bytes, 2 MiB in the code, that counts as read.
unfoldable pub new_redis_stream_reader :
    (buffer_size offset : ℕ) → (payload_size : ℤ) → RedisStreamReader
new_redis_stream_reader buffer_size offset payload_size = record {
  is_redis_eof = false;
  redis_offset = offset;
  buffer = zeros buffer_size;
  buffer_offset = buffer_size;
  expected_payload_size = payload_size;
  read_payload_size = 0;
}

-- The reader with what a range gave.
abbrev pub refill : (new_buf : Text) (buf_size : ℕ) → RedisStreamReader → RedisStreamReader
refill new_buf buf_size r = record r {
  is_redis_eof = r.is_redis_eof || (is_empty new_buf || ltb (length new_buf) buf_size);
  redis_offset = r.redis_offset + length new_buf;
  buffer = new_buf;
  buffer_offset = 0;
}

-- GETRANGE counts its last byte in, so one byte more than `buf_size` is asked for. Nobody reads on
-- after an error.
unfoldable pub read_range_from_redis :
    GetRange → (buf_size : ℕ) → RedisStreamReader → Option RedisStreamReader
read_range_from_redis get_range buf_size r = do
  new_buf ← get_range r.redis_offset (r.redis_offset + buf_size)
  some (refill new_buf buf_size r)

-- What is left of the buffer goes into a destination of `size` bytes. `buf_size` is the size of the
-- buffer before it was fetched anew.
unfoldable pub write_buffer : (size buf_size : ℕ) → RedisStreamReader → Text × RedisStreamReader
write_buffer size buf_size r =
    let written = take size (drop r.buffer_offset r.buffer) in
    if ltb r.buffer_offset buf_size
    then (
      written,
      record r {
        buffer_offset = r.buffer_offset + length written;
        read_payload_size = r.read_payload_size + length written;
      },
    )
    else ([], r)

abbrev pub same_size : ℕ → ℤ → Bool
same_size n (pos m) = n == m
same_size n (negsuc m) = false

-- A call of `Read`: its destination's size and the server's answers.
unfoldable pub read_stream : ℕ × GetRange → RedisStreamReader → Stop ⊎ (Text × RedisStreamReader)
read_stream (size, get_range) r =
    let buf_size = length r.buffer in
    let consumed = leb buf_size r.buffer_offset in
    if consumed && r.is_redis_eof
    then inl (if same_size r.read_payload_size r.expected_payload_size then at_end else read_failed)
    else if consumed
    then elim (read_range_from_redis get_range buf_size r) [
      | none ↦ inl read_failed
      | some r' ↦ inr (write_buffer size buf_size r')
    ]
    else inr (write_buffer size buf_size r)
