-- ===== src/Cache/RedisStream/Steady.antt =====
-- A reader of a value of Redis that stays as it is (`redisStreamReader` of cache/redis_cache.go): what
-- holds of it between two calls.
use chproxy.Base.{
  Bool-cases, Text, [], ap, arith, drop, drop-drop, drop-length-take, drop-take_short, false, inl,
  inr, is_empty, leb, length, ltb, pos, refl, some, suc, sym, take, true, zero, ℕ, ◌+◌, ◌-◌, ◌<◌,
  ◌||◌, ◌∙◌, ◌∷◌, ◌≡◌, ◌⊎◌,
}
use chproxy.Cache.RedisStream.{GetRange, RedisStreamReader, write_buffer, refill}
use chproxy.Cache.RedisStream.Moves.{slice, Expects, write_buffer-Moves, left-refill}
use chproxy.Cache.RedisStream.Whole.{Expects-Moves}

-- Every command is answered.
abbrev pub IsServed : (v : Text) → GetRange → Type 0
IsServed v get_range = (first last : ℕ) → get_range first last ≡ some (slice first last v)

pub record Reading (v : Text) (r : RedisStreamReader) : Type 0 where
  pub expected : Expects v r
  pub no_more : r.is_redis_eof ≡ true → drop r.redis_offset v ≡ []
  pub filled : (r.is_redis_eof ≡ true) ⊎ (0 < length r.buffer)

length-take_pos : (n : ℕ) (t : Text) → 0 < n → 0 < length t → 0 < length (take n t)
length-take_pos zero t p h = ground arith
length-take_pos (suc n) [] p h = ground arith
length-take_pos (suc n) (x ∷ t) p h = omega arith

-- A buffer with something to give.
pub write_buffer-gives :
    (size buf_size : ℕ) (r : RedisStreamReader)
    → 0 < size
    → ltb r.buffer_offset buf_size ≡ true
    → 0 < length (drop r.buffer_offset r.buffer)
    → 0 < length (write_buffer size buf_size r).0
unfolding write_buffer
write_buffer-gives size buf_size r p h some_left =
    rw (h, write_buffer) (length-take_pos size (drop r.buffer_offset r.buffer) p some_left)

pub write_buffer-keeps :
    (size buf_size : ℕ) (r : RedisStreamReader)
    → let r' = (write_buffer size buf_size r).1 in
      (r'.is_redis_eof ≡ r.is_redis_eof)
      × (r'.redis_offset ≡ r.redis_offset)
      × (r'.buffer ≡ r.buffer)
unfolding write_buffer
write_buffer-keeps size buf_size r = elim (Bool-cases (ltb r.buffer_offset buf_size)) [
  | inl h ↦ rw (h, write_buffer) (refl, refl, refl)
  | inr h ↦ rw (h, write_buffer) (refl, refl, refl)
]

-- Writing the buffer of a reader that is as it should be.
pub write_buffer-Reading :
    (v : Text) (size buf_size : ℕ) (r : RedisStreamReader)
    → Reading v r
    → Reading v (write_buffer size buf_size r).1
write_buffer-Reading v size buf_size r h =
    let (eof, offset, buffer) = write_buffer-keeps size buf_size r in
    record {
      expected = Expects-Moves v _ r _ h.expected (write_buffer-Moves v size buf_size r);
      no_more = rw (eof, offset) h.no_more;
      filled = rw (eof, buffer) h.filled;
    }

-- A refill that marks the end has everything.
refill-no_more :
    (v : Text) (offset buf_size : ℕ)
    → let t = slice offset (offset + buf_size) v in
      (is_empty t || ltb (length t) buf_size) ≡ true → drop (offset + length t) v ≡ []
refill-no_more v offset buf_size h =
    let d = drop offset v in
    let n = offset + buf_size + 1 - offset in
    sym (drop-drop (length (take n d)) offset v)
    ∙ drop-length-take n d
    ∙ drop-take_short n d (short (take n d) n buf_size (omega arith) h)
  where
    short :
        (t : Text) (n b : ℕ) → n ≡ b + 1 → (is_empty t || ltb (length t) b) ≡ true → length t < n
    short [] n b e h = omega (arith, e)
    short (x ∷ t) n b e h = ground (arith, e, h)

refill-filled : (t : Text) (b : ℕ) → ((is_empty t || ltb (length t) b) ≡ true) ⊎ (0 < length t)
refill-filled [] b = inl refl
refill-filled (x ∷ t) b = inr (omega arith)

pub refill-Reading :
    (v : Text) (r : RedisStreamReader)
    → Reading v r
    → leb (length r.buffer) r.buffer_offset ≡ true
    → r.is_redis_eof ≡ false
    → let t = slice r.redis_offset (r.redis_offset + length r.buffer) v in
      Reading v (refill t (length r.buffer) r)
refill-Reading v r h consumed e =
    let t = slice r.redis_offset (r.redis_offset + length r.buffer) v in
    record {
      expected =
          h.expected
          ∙ ap (λ x. pos (r.read_payload_size + length x))
              (sym (left-refill v t r consumed (inl refl)));
      no_more = rw e (refill-no_more v r.redis_offset (length r.buffer));
      filled = rw e (refill-filled t (length r.buffer));
    }
