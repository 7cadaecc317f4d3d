-- ===== src/Cache/RedisStream/Moves.antt =====
-- What the steps of `redisStreamReader` (cache/redis_cache.go) leave to be read.
use chproxy.Base.{
  Bool-cases, Text, [], ap, append-[], arith, drop, drop-drop, drop-length-take, drop-past, inl,
  inr, leb, length, ltb, none, pos, refl, some, sym, take, take-drop, true, ℕ, ◌++◌, ◌+◌, ◌-◌, ◌∙◌,
  ◌≡◌, ◌⊎◌,
}
use chproxy.Cache.RedisStream.{GetRange, RedisStreamReader, write_buffer, refill}

-- The bytes from `first` to `last`, the last one included.
abbrev pub slice : (first last : ℕ) → Text → Text
slice first last v = take (last + 1 - first) (drop first v)

-- What the reader has not given yet of the value `v`.
abbrev pub left : (v : Text) → RedisStreamReader → Text
left v r = drop r.buffer_offset r.buffer ++ drop r.redis_offset v

-- The size that it expects is the size of what it gave and of what is left.
abbrev pub Expects : (v : Text) → RedisStreamReader → Type 0
Expects v r = r.expected_payload_size ≡ pos (r.read_payload_size + length (left v r))

-- An answer about the value, about a value that has expired, or an error.
abbrev pub IsAnswer : (v : Text) → GetRange → Type 0
IsAnswer v get_range =
    (first last : ℕ)
    → (get_range first last ≡ some (slice first last v))
      ⊎ ((get_range first last ≡ some []) ⊎ (get_range first last ≡ none))

-- What writing the buffer changes.
pub record Moves (v : Text) (r : RedisStreamReader) (t : Text) (r' : RedisStreamReader)
    : Type 0 where
  pub left_over : t ++ left v r' ≡ left v r
  pub counts : r'.read_payload_size ≡ r.read_payload_size + length t
  pub expects : r'.expected_payload_size ≡ r.expected_payload_size

pub write_buffer-Moves :
    (v : Text) (size buf_size : ℕ) (r : RedisStreamReader)
    → Moves v r (write_buffer size buf_size r).0 (write_buffer size buf_size r).1
unfolding write_buffer
write_buffer-Moves v size buf_size r = elim (Bool-cases (ltb r.buffer_offset buf_size)) [
  | inl h ↦
      let p = drop r.buffer_offset r.buffer in
      let onward : drop (r.buffer_offset + length (take size p)) r.buffer ≡ drop size p =
        sym (drop-drop (length (take size p)) r.buffer_offset r.buffer) ∙ drop-length-take size p in
      rw (h, write_buffer)
        (record {
          left_over = rw onward (take-drop size p (drop r.redis_offset v));
          counts = refl;
          expects = refl;
        })
  | inr h ↦ rw (h, write_buffer) (record { left_over = refl; counts = omega arith; expects = refl })
]

-- Fetching a range does not change what is left.
slice-left :
    (v t : Text) (offset buf_size : ℕ)
    → (t ≡ slice offset (offset + buf_size) v) ⊎ (t ≡ [])
    → t ++ drop (offset + length t) v ≡ drop offset v
slice-left v t offset buf_size (inl e) =
    let d = drop offset v in
    let n = offset + buf_size + 1 - offset in
    rw e (
      ap (λ x. take n d ++ x)
        (sym (drop-drop (length (take n d)) offset v)
          ∙ drop-length-take n d
          ∙ sym (append-[] (drop n d)))
      ∙ take-drop n d []
      ∙ append-[] d)
slice-left v t offset buf_size (inr e) = rw e (ap (λ k. drop k v) (omega arith))

-- A refill of a buffer that was consumed.
pub left-refill :
    (v t : Text) (r : RedisStreamReader)
    → leb (length r.buffer) r.buffer_offset ≡ true
    → (t ≡ slice r.redis_offset (r.redis_offset + length r.buffer) v) ⊎ (t ≡ [])
    → left v (refill t (length r.buffer) r) ≡ left v r
left-refill v t r h e =
    let consumed : drop r.buffer_offset r.buffer ≡ [] =
      drop-past r.buffer_offset r.buffer (ground (arith, h)) in
    slice-left v t r.redis_offset (length r.buffer) e
    ∙ ap (λ x. x ++ drop r.redis_offset v) (sym consumed)

pub refill-Moves :
    (v t : Text) (size : ℕ) (r : RedisStreamReader)
    → leb (length r.buffer) r.buffer_offset ≡ true
    → (t ≡ slice r.redis_offset (r.redis_offset + length r.buffer) v) ⊎ (t ≡ [])
    → let w = write_buffer size (length r.buffer) (refill t (length r.buffer) r) in
      Moves v r w.0 w.1
refill-Moves v t size r h e =
    let m = write_buffer-Moves v size (length r.buffer) (refill t (length r.buffer) r) in
    record {
      left_over = m.left_over ∙ left-refill v t r h e;
      counts = m.counts;
      expects = m.expects;
    }
