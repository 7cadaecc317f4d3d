-- ===== src/Cache/Redis/Puts.antt =====
-- What `Put` of cache/redis_cache.go leaves in Redis.
use chproxy.Base.{
  All, Bool-cases, List, Option, Option-cases, Text, [], ap, append-[], append_assoc, arith, bytes,
  false, inl, inr, is_empty, le_refl, length, length-append, none, refl, some, true, ℕ, ◌++◌, ◌+◌,
  ◌∙◌, ◌∷◌, ◌≡◌, ◌≢◌, ◌≤◌, ◌⊎◌,
}
use chproxy.Cache.Redis.{Client, ReadError, other_error, tmp_key, put_reads, redis_put}
use chproxy.Cache.Redis.Laws.{IsRedis, Renames}
use chproxy.Cache.Codec.{ContentMetadata, encode_metadata}

-- The bytes of all calls.
abbrev pub joined : List (Text × ReadError) → Text
joined [] = []
joined ((t, err) ∷ reads) = t ++ joined reads

-- A call without bytes is the end.
abbrev pub IsReadOn : List (Text × ReadError) → Type 0
IsReadOn reads = All (λ r. is_empty r.0 ≡ false) reads

module _ (C : Client) where
  put_reads-silent :
      (key : Text) (now expected : ℕ) (reads more : List (Text × ReadError)) (err : ReadError)
      (s : C.State)
      → put_reads C key now expected (reads ++ (([], err) ∷ more)) s
        ≡ put_reads C key now expected reads s
  unfolding put_reads
  put_reads-silent key now expected [] more err s = refl
  put_reads-silent key now expected ((t, e) ∷ reads) more err s =
      rw (put_reads-silent key now (expected + length t) reads more err (C.append key t now s).0)
        refl

  -- A reader that breaks off with an error and without bytes is taken for one that has come to its
  -- end: `Put` does the same as for the calls before.
  redis_put-silent :
      (expire : ℕ) (random : Text) (reads more : List (Text × ReadError)) (m : ContentMetadata)
      → (key : Text) (now : ℕ) (s : C.State)
      → redis_put C expire random (reads ++ (([], other_error) ∷ more)) m key now s
        ≡ redis_put C expire random reads m key now s
  unfolding redis_put
  redis_put-silent expire random reads more m key now s =
      rw
        (put_reads-silent (tmp_key key random) now (length (encode_metadata m)) reads more
          other_error (C.set (tmp_key key random) (encode_metadata m) expire now s).0)
        refl

module _ (C : Client) (value : Text → ℕ → C.State → Option Text) (law : IsRedis C value) where
  put_reads-others :
      (key : Text) (now expected later : ℕ) (other : Text) (reads : List (Text × ReadError))
      (s : C.State)
      → other ≢ key
      → value other later (put_reads C key now expected reads s).0 ≡ value other later s
  unfolding put_reads
  put_reads-others key now expected later other [] s ne = refl
  put_reads-others key now expected later other ((t, err) ∷ reads) s ne =
      let a = law.append-other key t other now later s ne in
      let d = law.del-other key other now later (C.append key t now s).0 ne in
      let r =
        put_reads-others key now (expected + length t) later other reads (C.append key t now s).0
          ne in
      ground (arith, a, d, r)

  -- What a key holds that is neither the temporary one of `Put` nor, if `Put` succeeds, the key
  -- itself: the same as before, at every time. So a `Put` that fails leaves the entry that was there.
  pub redis_put-others :
      (expire : ℕ) (random : Text) (reads : List (Text × ReadError)) (m : ContentMetadata)
      → (key : Text) (now later : ℕ) (other : Text) (s : C.State) → other ≢ tmp_key key random
      → ((redis_put C expire random reads m key now s).1 ≡ none) ⊎ (other ≢ key)
      → value other later (redis_put C expire random reads m key now s).0 ≡ value other later s
  unfolding redis_put
  redis_put-others expire random reads m key now later other s ne h =
      let tmp = tmp_key key random in
      let s1 = C.set tmp (encode_metadata m) expire now s in
      let s2 = put_reads C tmp now (length (encode_metadata m)) reads s1.0 in
      let a = law.set-other tmp (encode_metadata m) other expire now later s ne in
      let b = put_reads-others tmp now (length (encode_metadata m)) later other reads s1.0 ne in
      elim (Bool-cases s1.1) [
        | inr e ↦ rw (e, redis_put) a
        | inl e ↦ elim (Bool-cases s2.1) [
          | inr e' ↦ rw (e, e', redis_put) (b ∙ a)
          | inl e' ↦ elim h [
            | inl failed ↦ ground (arith, failed, e, e')
            | inr differs ↦
                rw (e, e', redis_put)
                  (law.rename-other tmp key other now later s2.0 ne differs ∙ b ∙ a)
          ]
        ]
      ]

  put_reads-written :
      (key : Text) (now expected later : ℕ) (reads : List (Text × ReadError)) (s : C.State)
      (v : Text)
      → IsReadOn reads
      → now ≤ later
      → (put_reads C key now expected reads s).1 ≡ true
      → value key now s ≡ some v
      → value key later s ≡ some v
      → value key later (put_reads C key now expected reads s).0 ≡ some (v ++ joined reads)
  unfolding put_reads joined
  put_reads-written key now expected later [] s v a le h here there = rw (append-[] v) there
  put_reads-written key now expected later ((t, err) ∷ reads) s v a le h here there =
      let s1 = C.append key t now s in
      elim (Option-cases s1.1) [
        | inl e ↦ ground (arith, e, a.0, h)
        | inr (n, e) ↦
            let here1 = law.append-value key t v now now s e (le_refl now) here here in
            let there1 = law.append-value key t v now later s e le here there in
            let rest =
              put_reads-written key now (expected + length t) later reads s1.0 (v ++ t) a.1 le
                (ground (arith, e, a.0, h)) here1 there1 in
            ground (arith, e, a.0, h, rest, append_assoc v t (joined reads))
      ]

  -- A `Put` that succeeds leaves the metadata and the bytes of all calls of the reader, until the
  -- time to live is over, if no RENAME fails.
  pub redis_put-stored :
      (expire : ℕ) (random : Text) (reads : List (Text × ReadError)) (m : ContentMetadata)
      → (key : Text) (now later : ℕ) (s : C.State) {ttl : ℕ} → Renames C
      → IsReadOn reads
      → (redis_put C expire random reads m key now s).1 ≡ some ttl
      → now ≤ later
      → later ≤ now + ttl
      → value key later (redis_put C expire random reads m key now s).0
        ≡ some (encode_metadata m ++ joined reads)
  unfolding redis_put
  redis_put-stored expire random reads m key now later s renames a h le soon =
      let tmp = tmp_key key random in
      let e = encode_metadata m in
      let s1 = C.set tmp e expire now s in
      let s2 = put_reads C tmp now (length e) reads s1.0 in
      elim (Bool-cases s1.1) [
        | inr f ↦ ground (arith, f, h)
        | inl f ↦ elim (Bool-cases s2.1) [
          | inr g ↦ ground (arith, f, g, h)
          | inl g ↦
              let in_time : later ≤ now + expire = ground (arith, f, g, h) in
              let here = law.set-value tmp e expire now now s f (le_refl now) (omega arith) in
              let there = law.set-value tmp e expire now later s f le in_time in
              let here' =
                put_reads-written tmp now (length e) now reads s1.0 e a (le_refl now) g here here in
              let there' =
                put_reads-written tmp now (length e) later reads s1.0 e a le g here there in
              rw (f, g, redis_put)
                (law.rename-value tmp key (e ++ joined reads) now later s2.0
                  (renames tmp key now s2.0) le here' there')
        ]
      ]

  key-tmp_key : (key random : Text) → key ≢ tmp_key key random
  key-tmp_key key random e = omega (
    arith,
    ap length e,
    length-append (bytes "{") (key ++ (bytes "}" ++ (random ++ bytes "_tmp"))),
    length-append key (bytes "}" ++ (random ++ bytes "_tmp")),
    length-append (bytes "}") (random ++ bytes "_tmp"),
    length-append random (bytes "_tmp"),
  )

  -- A `Put` whose SET and whose appending succeed reports the time to live, whatever RENAME answers.
  -- If RENAME is refused and changes nothing, the key holds at every time what it held before the
  -- `Put`, so that the response is not found.
  pub redis_put-unrenamed :
      (expire : ℕ) (random : Text) (reads : List (Text × ReadError)) (m : ContentMetadata)
      → (key : Text) (now later : ℕ) (s : C.State)
      → (C.set (tmp_key key random) (encode_metadata m) expire now s).1 ≡ true
      → (put_reads C
          (tmp_key key random)
          now
          (length (encode_metadata m))
          reads
          (C.set (tmp_key key random) (encode_metadata m) expire now s).0).1
        ≡ true
      → ((s' : C.State) → C.rename (tmp_key key random) key now s' ≡ (s', false))
      → let r = redis_put C expire random reads m key now s in
        (r.1 ≡ some expire) × (value key later r.0 ≡ value key later s)
  unfolding redis_put
  redis_put-unrenamed expire random reads m key now later s f g refused =
      let tmp = tmp_key key random in
      let e = encode_metadata m in
      let s1 = C.set tmp e expire now s in
      let s2 = put_reads C tmp now (length e) reads s1.0 in
      let a = law.set-other tmp e key expire now later s (key-tmp_key key random) in
      let b = put_reads-others tmp now (length e) later key reads s1.0 (key-tmp_key key random) in
      (rw (f, g, redis_put) refl, rw (f, g, refused s2.0, redis_put) (b ∙ a))
