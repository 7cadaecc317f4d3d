-- ===== src/Cache/RedisStream/Progress.antt =====
-- A value of Redis that stays as it is is read to its end (`redisStreamReader` of
-- cache/redis_cache.go).
use chproxy.Base.{
  All, Bool, Bool-cases, List, Text, [], ap, append-[], arith, at_end, drop, drop-past, false,
  if◌then◌else◌, inl, inr, is_empty, leb, length, length-append, length-drop, pos, read_calls,
  read_calls-more, read_calls-stop, refl, some, suc, sym, true, zero, ℕ, ◌+◌, ◌<◌, ◌∙◌, ◌∷◌, ◌≡◌,
  ◌≤◌, ◌⊎◌,
}
use chproxy.Cache.RedisStream.{
  GetRange, RedisStreamReader, new_redis_stream_reader, read_range_from_redis, write_buffer,
  same_size, read_stream, refill, zeros,
}
use chproxy.Cache.RedisStream.Moves.{slice, left, Moves, write_buffer-Moves, refill-Moves}
use chproxy.Cache.RedisStream.Whole.{left-new, Expects-new}
use chproxy.Cache.RedisStream.Steady.{
  IsServed, Reading, write_buffer-gives, write_buffer-keeps, write_buffer-Reading, refill-Reading,
}

-- The calls that the reader needs at most before it reports the end.
abbrev effort : (v : Text) → RedisStreamReader → ℕ
effort v r = length (left v r) + (if r.is_redis_eof then 0 else 1)

-- A call that is not the last one, or the last one.
data Step (v : Text) (call : ℕ × GetRange) (r : RedisStreamReader) : Type 0 where
  last_one : read_stream call r ≡ inl at_end → left v r ≡ [] → Step v call r
  before_last :
      (t : Text) (r' : RedisStreamReader)
      → read_stream call r ≡ inr (t, r')
      → Moves v r t r'
      → Reading v r'
      → effort v r' < effort v r
      → Step v call r

left-length :
    (v t : Text) (r r' : RedisStreamReader)
    → Moves v r t r'
    → length t + length (left v r') ≡ length (left v r)
left-length v t r r' m = sym (length-append t (left v r')) ∙ ap length m.left_over

effort-gives :
    (v t : Text) (r r' : RedisStreamReader)
    → Moves v r t r'
    → 0 < length t
    → (r'.is_redis_eof ≡ r.is_redis_eof) ⊎ (r.is_redis_eof ≡ false)
    → effort v r' < effort v r
effort-gives v t r r' m p (inl e) = rw e (omega (arith, left-length v t r r' m))
effort-gives v t r r' m p (inr e) = ground (arith, e, p, left-length v t r r' m)

effort-ends :
    (v t : Text) (r r' : RedisStreamReader)
    → Moves v r t r'
    → r.is_redis_eof ≡ false
    → r'.is_redis_eof ≡ true
    → effort v r' < effort v r
effort-ends v t r r' m e e' = rw (e, e') (omega (arith, left-length v t r r' m))

step-refill :
    (v : Text) (size : ℕ) (get_range : GetRange) (r : RedisStreamReader)
    → 0 < size
    → IsServed v get_range
    → Reading v r
    → leb (length r.buffer) r.buffer_offset ≡ true
    → r.is_redis_eof ≡ false
    → Step v (size, get_range) r
unfolding read_stream read_range_from_redis
step-refill v size g r p answers h consumed e =
    let b = length r.buffer in
    let t = slice r.redis_offset (r.redis_offset + b) v in
    let r1 = refill t b r in
    let w = write_buffer size b r1 in
    let m = refill-Moves v t size r consumed (inl refl) in
    let (eof, offset, buffer) = write_buffer-keeps size b r1 in
    let answer = answers r.redis_offset (r.redis_offset + b) in
    before_last w.0 w.1 (rw (consumed, e, answer, read_stream, read_range_from_redis) refl) m
      (write_buffer-Reading v size b r1 (refill-Reading v r h consumed e))
      (elim (Bool-cases (is_empty t)) [
        | inl nothing ↦ effort-ends v w.0 r w.1 m e (eof ∙ rw (e, nothing) refl)
        | inr something ↦
            effort-gives v w.0 r w.1 m
              (write_buffer-gives size b r1 p (ground (arith, has_bytes e h.filled))
                (length-pos t something))
              (inr e)
      ])
  where
    length-pos : (t : Text) → is_empty t ≡ false → 0 < length t
    length-pos [] h = ground arith
    length-pos (x ∷ t) h = omega arith

    has_bytes : {e : Bool} {n : ℕ} → e ≡ false → (e ≡ true) ⊎ (0 < n) → 0 < n
    has_bytes h (inl g) = ground (arith, h, g)
    has_bytes h (inr g) = g

step :
    (v : Text) (size : ℕ) (get_range : GetRange) (r : RedisStreamReader)
    → 0 < size
    → IsServed v get_range
    → Reading v r
    → Step v (size, get_range) r
unfolding read_stream
step v size g r p answers h = elim (Bool-cases (leb (length r.buffer) r.buffer_offset)) [
  | inr more ↦
      let w = write_buffer size (length r.buffer) r in
      let m = write_buffer-Moves v size (length r.buffer) r in
      let (eof, offset, buffer) = write_buffer-keeps size (length r.buffer) r in
      before_last w.0 w.1 (rw (more, read_stream) refl) m
        (write_buffer-Reading v size (length r.buffer) r h)
        (effort-gives v w.0 r w.1 m
          (write_buffer-gives size (length r.buffer) r p (ground (arith, more))
            (ground (arith, more, length-drop r.buffer_offset r.buffer)))
          (inl eof))
  | inl consumed ↦ elim (Bool-cases r.is_redis_eof) [
    | inr e ↦ step-refill v size g r p answers h consumed e
    | inl eof ↦
        let nothing : left v r ≡ [] =
          rw (h.no_more eof)
            (append-[] _ ∙ drop-past r.buffer_offset r.buffer (ground (arith, consumed))) in
        let same : same_size r.read_payload_size r.expected_payload_size ≡ true =
          rw (h.expected, nothing) (ground arith) in
        last_one (rw (consumed, eof, same, read_stream) refl) nothing
  ]
]

-- Enough calls, each with its destination and an answer of the server.
read_calls-Reading :
    (v : Text) (calls : List (ℕ × GetRange)) (r : RedisStreamReader)
    → All (λ call. (0 < call.0) × IsServed v call.1) calls
    → Reading v r
    → effort v r < length calls
    → read_calls read_stream calls r ≡ (left v r, some at_end)
unfolding read_calls
read_calls-Reading v [] r a h e = ground (arith, e)
read_calls-Reading v ((size, g) ∷ calls) r a h e = elim (step v size g r a.0.0 a.0.1 h) [
  | last_one f nothing ↦
      read_calls-stop read_stream (size, g) calls r f ∙ ap (λ x. (x, some at_end)) (sym nothing)
  | before_last t r' f m h' less ↦
      read_calls-more read_stream (size, g) calls r r' f
        (read_calls-Reading v calls r' a.1 h' (omega (arith, e, less)))
      ∙ ap (λ x. (x, some at_end)) m.left_over
]

-- A value that stays as it is, and a server that answers: as many calls as there are bytes behind
-- the offset and two more give all of these bytes and the end, whatever the sizes of the
-- destinations and of the buffer, but 0.
pub read_calls-served :
    (v : Text) (buffer_size offset : ℕ) (calls : List (ℕ × GetRange))
    → 0 < buffer_size
    → All (λ call. (0 < call.0) × IsServed v call.1) calls
    → length (drop offset v) + 2 ≤ length calls
    → read_calls read_stream calls
        (new_redis_stream_reader buffer_size offset (pos (length (drop offset v))))
      ≡ (drop offset v, some at_end)
unfolding new_redis_stream_reader
read_calls-served v buffer_size offset calls p a h =
    let z = pos (length (drop offset v)) in
    let r = new_redis_stream_reader buffer_size offset z in
    let same = left-new v buffer_size offset z in
    let start : Reading v r = record {
      expected = Expects-new v buffer_size offset;
      no_more = λ e. ground (arith, e);
      filled = inr (ground (arith, length-zeros buffer_size, p));
    } in
    read_calls-Reading v calls r a start (omega (arith, h, ap length same))
    ∙ ap (λ x. (x, some at_end)) same
  where
    length-zeros : (n : ℕ) → length (zeros n) ≡ n
    length-zeros zero = refl
    length-zeros (suc n) = ap suc (length-zeros n)
