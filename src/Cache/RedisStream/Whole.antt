-- ===== src/Cache/RedisStream/Whole.antt =====
-- Reading a value of Redis in ranges (`redisStreamReader` of cache/redis_cache.go): it ends well only
-- behind the whole value.
use chproxy.Base.{
  All, Bool-cases, List, Text, [], ap, arith, at_end, drop, inl, inr, leb, length, length-append,
  negsuc, none, pos, read_calls, read_calls-more, read_calls-stop, read_failed, refl, some, suc,
  sym, true, zero, ℕ, ℤ, ◌++◌, ◌+◌, ◌∙◌, ◌∷◌, ◌≡◌, ◌⊎◌,
}
use chproxy.Cache.RedisStream.{
  GetRange, RedisStreamReader, new_redis_stream_reader, read_range_from_redis, write_buffer,
  same_size, read_stream, refill, zeros,
}
use chproxy.Cache.RedisStream.Moves.{
  slice, left, Expects, IsAnswer, Moves, write_buffer-Moves, refill-Moves,
}

-- What a call of `Read` comes to.
data Outcome (v : Text) (call : ℕ × GetRange) (r : RedisStreamReader) : Type 0 where
  fails : read_stream call r ≡ inl read_failed → Outcome v call r
  ends :
      read_stream call r ≡ inl at_end
      → r.expected_payload_size ≡ pos r.read_payload_size
      → Outcome v call r
  goes_on :
      (t : Text) (r' : RedisStreamReader)
      → read_stream call r ≡ inr (t, r')
      → Moves v r t r'
      → Outcome v call r

same_size-pos : (n : ℕ) (z : ℤ) → same_size n z ≡ true → z ≡ pos n
same_size-pos n (pos m) h = ground arith
same_size-pos n (negsuc m) h = ground arith

answer-cases :
    (v : Text) (get_range : GetRange) (first last : ℕ)
    → IsAnswer v get_range
    → (get_range first last ≡ none)
      ⊎ ((t : Text) × (get_range first last ≡ some t) × ((t ≡ slice first last v) ⊎ (t ≡ [])))
answer-cases v get_range first last h = elim (h first last) [
  | inl e ↦ inr (slice first last v, e, inl refl)
  | inr (inl e) ↦ inr ([], e, inr refl)
  | inr (inr e) ↦ inl e
]

outcome :
    (v : Text) (size : ℕ) (get_range : GetRange) (r : RedisStreamReader)
    → IsAnswer v get_range
    → Outcome v (size, get_range) r
unfolding read_stream read_range_from_redis
outcome v size get_range r h =
    let b = length r.buffer in
    elim (Bool-cases (leb b r.buffer_offset)) [
      | inr more ↦
          let w = write_buffer size b r in
          goes_on w.0 w.1 (rw (more, read_stream) refl) (write_buffer-Moves v size b r)
      | inl consumed ↦ elim (Bool-cases r.is_redis_eof) [
        | inl eof ↦ elim (Bool-cases (same_size r.read_payload_size r.expected_payload_size)) [
          | inl same ↦ ends (rw (consumed, eof, same, read_stream) refl) (same_size-pos _ _ same)
          | inr short ↦ fails (rw (consumed, eof, short, read_stream) refl)
        ]
        | inr e ↦ elim (answer-cases v get_range r.redis_offset (r.redis_offset + b) h) [
          | inl failed ↦ fails (rw (consumed, e, failed, read_stream, read_range_from_redis) refl)
          | inr (t, answer, good) ↦
              let w = write_buffer size b (refill t b r) in
              goes_on w.0 w.1 (rw (consumed, e, answer, read_stream, read_range_from_redis) refl)
                (refill-Moves v t size r consumed good)
        ]
      ]
    ]

pub Expects-Moves :
    (v t : Text) (r r' : RedisStreamReader) → Expects v r → Moves v r t r' → Expects v r'
Expects-Moves v t r r' e m =
    m.expects
    ∙ e
    ∙ ap pos (omega (arith, m.counts, length-append t (left v r'), ap length m.left_over))

length-[] : (t : Text) → length t ≡ 0 → t ≡ []
length-[] [] h = refl
length-[] (x ∷ t) h = ground arith

Expects-nothing :
    (v : Text) (r : RedisStreamReader)
    → Expects v r
    → r.expected_payload_size ≡ pos r.read_payload_size
    → left v r ≡ []
Expects-nothing v r e h = length-[] (left v r) (ground (arith, e, h))

read_calls-Expects :
    (v : Text) (calls : List (ℕ × GetRange)) (r : RedisStreamReader) {t : Text}
    → All (λ call. IsAnswer v call.1) calls
    → Expects v r
    → read_calls read_stream calls r ≡ (t, some at_end)
    → t ≡ left v r
unfolding read_calls
read_calls-Expects v [] r a e h = ground (arith, h)
read_calls-Expects v ((size, g) ∷ calls) r a e h = elim (outcome v size g r a.0) [
  | fails f ↦ ground (arith, sym (read_calls-stop read_stream (size, g) calls r f) ∙ h)
  | ends f same ↦
      ap (λ x. x.0) (sym h ∙ read_calls-stop read_stream (size, g) calls r f)
      ∙ sym (Expects-nothing v r e same)
  | goes_on t r' f m ↦
      let more = read_calls read_stream calls r' in
      let whole = sym h ∙ read_calls-more read_stream (size, g) calls r r' f refl in
      let behind : more ≡ (more.0, some at_end) =
        ap (λ x. (more.0, x)) (sym (ap (λ x. x.1) whole)) in
      ap (λ x. x.0) whole
      ∙ ap (λ x. t ++ x) (read_calls-Expects v calls r' a.1 (Expects-Moves v t r r' e m) behind)
      ∙ m.left_over
]

drop-zeros : (n : ℕ) → drop n (zeros n) ≡ []
drop-zeros zero = refl
drop-zeros (suc n) = drop-zeros n

pub left-new :
    (v : Text) (buffer_size offset : ℕ) (z : ℤ)
    → left v (new_redis_stream_reader buffer_size offset z) ≡ drop offset v
unfolding new_redis_stream_reader
left-new v buffer_size offset z = ap (λ x. x ++ drop offset v) (drop-zeros buffer_size)

pub Expects-new :
    (v : Text) (buffer_size offset : ℕ)
    → Expects v (new_redis_stream_reader buffer_size offset (pos (length (drop offset v))))
unfolding new_redis_stream_reader
Expects-new v buffer_size offset =
    let same = left-new v buffer_size offset (pos (length (drop offset v))) in
    ap pos (omega (arith, ap length (sym same)))

-- A reader of the value from `offset` on that expects what stands there, whose commands are answered
-- with ranges of the value, with nothing because the value has expired, or with errors: it reports
-- the end only behind the whole of it, whatever its calls and its buffer.
pub read_calls-whole :
    (v : Text) (buffer_size offset : ℕ) (calls : List (ℕ × GetRange)) {t : Text}
    → All (λ call. IsAnswer v call.1) calls
    → read_calls read_stream calls
        (new_redis_stream_reader buffer_size offset (pos (length (drop offset v))))
      ≡ (t, some at_end)
    → t ≡ drop offset v
read_calls-whole v buffer_size offset calls a h =
    read_calls-Expects v calls _ a (Expects-new v buffer_size offset) h
    ∙ left-new v buffer_size offset (pos (length (drop offset v)))
