-- ===== src/Cache/Redis/Gets.antt =====
-- What `Get` of cache/redis_cache.go finds in Redis, and the Redis cache as a store.
use chproxy.Base.{
  All, Bool, Bool-cases, List, Option, Text, [], ap, arith, at_end, drop, drop-length-append,
  if◌then◌else◌, inl, inr, int_le, length, length-append, magnitude, pos, read_calls, refl,
  replicate, some, subst, suc, sym, take, take-append, take-past, true, zero, ℕ, ℤ, ◌++◌, ◌+◌, ◌-◌,
  ◌<◌, ◌^◌, ◌∙◌, ◌∷◌, ◌≡◌, ◌≤◌,
}
use chproxy.Cache.Redis.{
  Client, ReadError, Sizes, Found, bytes_reader, file_reader, stream_reader, read_all, if_whole,
  is_fetched, read_results_above_limit, redis_get, redis_put, read_body, redis_store, get_data,
  min_ttl_for_redis_streaming_reader,
}
use chproxy.Cache.Redis.Laws.{IsRedis, Renames}
use chproxy.Cache.Redis.Puts.{joined, IsReadOn, redis_put-stored}
use chproxy.Cache.RedisStream.{GetRange, RedisStreamReader, new_redis_stream_reader, read_stream}
use chproxy.Cache.RedisStream.Moves.{slice}
use chproxy.Cache.RedisStream.Steady.{IsServed}
use chproxy.Cache.RedisStream.Progress.{read_calls-served}
use chproxy.Cache.Codec.{ContentMetadata, encode_metadata, decode_metadata, decoded}
use chproxy.Cache.Codec.RoundTrip.{decode_metadata-encode_metadata, decode_metadata-[]}
use chproxy.Cache.Codec.Decimal.{IsInt64}
use chproxy.Cache.Store.{IsLawful}

-- Metadata that have the length of the response, and that the first range holds whole.
pub record Fits (z : Sizes) (m : ContentMetadata) (payload : Text) : Type 0 where
  pub short_type : length m.type + 4 < 2 ^ 32
  pub short_encoding : length m.encoding + 4 < 2 ^ 32
  pub whole : m.content_length ≡ pos (length payload)
  pub in_first_range : length (encode_metadata m) ≤ z.first_range
  pub int64 : length (encode_metadata m) + length payload < 2 ^ 63

length-replicate {ℓ} : {A : Type ℓ} (n : ℕ) (x : A) → length (replicate n x) ≡ n
length-replicate zero x = refl
length-replicate (suc n) x = ap suc (length-replicate n x)

All-replicate {ℓ κ} : {A : Type ℓ} (P : A → Type κ) (n : ℕ) (x : A) → P x → All P (replicate n x)
All-replicate P zero x h = tt
All-replicate P (suc n) x h = (h, All-replicate P n x h)

read_all-calls :
    (copy n : ℕ) (get_range : GetRange) (r : RedisStreamReader) (t : Text)
    → magnitude r.expected_payload_size ≡ n
    → read_calls read_stream (replicate (n + 2) (copy, get_range)) r ≡ (t, some at_end)
    → read_all copy get_range r ≡ some t
unfolding read_all if_whole
read_all-calls copy n get_range r t e h =
    ap (λ k. if_whole (read_calls read_stream (replicate (k + 2) (copy, get_range)) r)) e
    ∙ ap if_whole h

fetched-short : (n k limit : ℕ) → n + k < 2 ^ 63 → is_fetched k (pos n) limit ≡ true → n + k < limit
unfolding is_fetched
fetched-short n k limit h f = ground (arith, h, f)

-- Behind some metadata the rest is read.
read_all-behind :
    (e payload : Text) (b copy : ℕ) (get_range : GetRange)
    → 0 < b
    → 0 < copy
    → IsServed (e ++ payload) get_range
    → read_all copy get_range (new_redis_stream_reader b (length e) (pos (length payload)))
      ≡ some payload
unfolding new_redis_stream_reader
read_all-behind e payload b copy g p q h =
    let call : ℕ × GetRange = (copy, g) in
    let calls = replicate (length payload + 2) call in
    let rest : drop (length e) (e ++ payload) ≡ payload = drop-length-append e payload in
    let all =
      All-replicate (λ c. (0 < c.0) × IsServed (e ++ payload) c.1) (length payload + 2) call
        (q, h) in
    let done : read_calls read_stream calls
          (new_redis_stream_reader b (length e) (pos (length payload)))
        ≡ (payload, some at_end) =
      subst
        (λ x.
          length x + 2 ≤ length calls
          → read_calls read_stream calls (new_redis_stream_reader b (length e) (pos (length x)))
            ≡ (x, some at_end))
        rest (read_calls-served (e ++ payload) b (length e) calls p all)
        (omega (arith, length-replicate (length payload + 2) call)) in
    read_all-calls copy (length payload) g
      (new_redis_stream_reader b (length e) (pos (length payload))) payload refl done

-- The metadata are read from the first range.
decode_metadata-first :
    (z : Sizes) (m : ContentMetadata) (payload : Text)
    → Fits z m payload
    → decode_metadata (slice 0 z.first_range (encode_metadata m ++ payload))
      ≡ decoded m (length (encode_metadata m))
decode_metadata-first z m payload h =
    let e = encode_metadata m in
    let n = z.first_range + 1 - 0 in
    rw (take-append n e payload (omega (arith, h.in_first_range))) (
      decode_metadata-encode_metadata m (take (n - length e) payload) h.short_type h.short_encoding
        (subst IsInt64 (sym h.whole) (omega (arith, h.int64))))

module _ (C : Client) where
  redis_get-decoded :
      (z : Sizes) (file_works : Bool) (key val : Text) (now offset : ℕ) (s : C.State)
      → (m : ContentMetadata) (t : ℤ) → C.get_range key 0 z.first_range now s ≡ some val
      → C.ttl key now s ≡ some t
      → decode_metadata val ≡ decoded m offset
      → redis_get C z file_works key now s ≡ (
          if is_fetched offset m.content_length z.first_range
          then inr (record { metadata = m; body = bytes_reader (drop offset val); ttl = t })
          else read_results_above_limit C z file_works m offset t
              (λ first last. C.get_range key first last now s))
  unfolding redis_get
  redis_get-decoded z file_works key [] now offset s m t g l d =
      ground (arith, d, decode_metadata-[])
  redis_get-decoded z file_works key (b ∷ val) now offset s m t g l d = rw (g, l, d, redis_get) refl

  above_limit-behind :
      (z : Sizes) (m : ContentMetadata) (e payload : Text) (t : ℤ) (get_range : GetRange)
      → 0 < z.buffer
      → 0 < z.copy
      → m.content_length ≡ pos (length payload)
      → IsServed (e ++ payload) get_range
      → (d : Found) × (read_results_above_limit C z true m (length e) t get_range ≡ inr d)
        × (d.metadata ≡ m)
        × (read_body C z.copy get_range d.body ≡ some payload)
  unfolding read_results_above_limit read_body
  above_limit-behind z m e payload t g p q whole served =
      let r = new_redis_stream_reader z.buffer (length e) m.content_length in
      let all : read_all z.copy g r ≡ some payload =
        rw whole (read_all-behind e payload z.buffer z.copy g p q served) in
      elim (Bool-cases (int_le t (pos min_ttl_for_redis_streaming_reader))) [
        | inl short ↦ (
          record { metadata = m; body = file_reader payload; ttl = t },
          rw (short, all, read_results_above_limit) refl,
          refl,
          refl,
        )
        | inr long ↦ (
          record { metadata = m; body = stream_reader r; ttl = t },
          rw (long, read_results_above_limit) refl,
          refl,
          all,
        )
      ]

  get_data-found :
      (z : Sizes) (key : Text) (now : ℕ) (s : C.State) (d : Found) (t : Text)
      → redis_get C z true key now s ≡ inr d
      → read_body C z.copy (λ first last. C.get_range key first last now s) d.body ≡ some t
      → get_data C z true key now s
        ≡ some (record { metadata = d.metadata; payload = t; ttl = d.ttl })
  unfolding get_data
  get_data-found z key now s d t h g = rw (h, g, get_data) refl

  module _ (value : Text → ℕ → C.State → Option Text) (law : IsRedis C value) where
    -- An entry that is as `Put` leaves it is found with its metadata, and its reader gives the whole
    -- response, whether the first range holds it, it is fetched in ranges, or through a file.
    redis_get-stored :
        (z : Sizes) (m : ContentMetadata) (payload key : Text) (now : ℕ) (s : C.State)
        → 0 < z.buffer
        → 0 < z.copy
        → Fits z m payload
        → value key now s ≡ some (encode_metadata m ++ payload)
        → (d : Found) × (redis_get C z true key now s ≡ inr d)
          × (d.metadata ≡ m)
          × (read_body C z.copy (λ first last. C.get_range key first last now s) d.body
              ≡ some payload)
    unfolding read_body
    redis_get-stored z m payload key now s p q h stored =
        let e = encode_metadata m in
        let v = e ++ payload in
        let val = slice 0 z.first_range v in
        let (t, ttl) = law.ttl-value key v now s stored in
        let served = λ (first last : ℕ). law.get_range-value key v first last now s stored in
        let found =
          redis_get-decoded z true key val now (length e) s m t (served 0 z.first_range) ttl
            (decode_metadata-first z m payload h) in
        elim (Bool-cases (is_fetched (length e) m.content_length z.first_range)) [
          | inl fetched ↦
              let all : drop (length e) val ≡ payload =
                let short =
                  fetched-short (length payload) (length e) z.first_range (omega (arith, h.int64))
                    (subst (λ c. is_fetched (length e) c z.first_range ≡ true) h.whole fetched) in
                let enough : length v ≤ z.first_range + 1 - 0 =
                  omega (arith, short, length-append e payload) in
                rw (take-past (z.first_range + 1 - 0) v enough) (drop-length-append e payload) in
              (
                record { metadata = m; body = bytes_reader (drop (length e) val); ttl = t },
                found ∙ rw fetched refl,
                refl,
                ap some all,
              )
          | inr more ↦
              let (d, got, meta, body) = above_limit-behind z m e payload t _ p q h.whole served in
              (d, found ∙ rw more got, meta, body)
        ]

    -- The Redis cache is a lawful store for responses that fit, over every client that behaves as
    -- Redis does, with buffers that are not empty, if the reader of a response gives its bytes and no
    -- call without bytes, temporary files can be written, and no RENAME fails: what was put is found whole until it
    -- expires, with its metadata.
    pub redis_store-IsLawful :
        (z : Sizes) (expire : ℕ) (random : ℕ → Text) (reads : Text → List (Text × ReadError))
        → 0 < z.buffer
        → 0 < z.copy
        → Renames C
        → ((payload : Text) → (joined (reads payload) ≡ payload) × IsReadOn (reads payload))
        → IsLawful (redis_store C z true expire random reads) (Fits z)
    redis_store-IsLawful z expire random reads p q renames h = record {
      get-put = λ payload m key now later s {ttl} fits stored le soon.
          let there =
            redis_put-stored C value law expire (random now) (reads payload) m key now later s
              renames (h payload).1 stored le soon in
          let s' = (redis_put C expire (random now) (reads payload) m key now s).0 in
          let there' = there ∙ ap (λ x. some (encode_metadata m ++ x)) (h payload).0 in
          let (d, got, meta, body) = redis_get-stored z m payload key later s' p q fits there' in
          (
            record { metadata = d.metadata; payload = payload; ttl = d.ttl },
            get_data-found z key later s' d payload got body,
            meta,
            refl,
          );
    }
