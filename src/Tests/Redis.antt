-- ===== src/Tests/Redis.antt =====
-- A Redis, as a map of values with deadlines, and the theorems on the cache in it.
use chproxy.Base.{
  All, List, Option, Text, [], ap, append-[], arith, bytes, drop, false, if◌then◌else◌, inl, leb,
  length, none, pos, read_calls, refl, replicate, some, suc, sym, text_eq, text_eq_ne, text_eq_refl,
  true, zero, ℕ, ◌*◌, ◌++◌, ◌+◌, ◌^◌, ◌∙◌, ◌∷◌, ◌≡◌, ◌≢◌,
}
use chproxy.Cache.Redis.{Client, Sizes, ReadError, no_error, other_error, redis_store, redis_put}
use chproxy.Cache.Redis.Laws.{IsRedis}
use chproxy.Cache.Redis.Puts.{joined, IsReadOn, redis_put-others, redis_put-unrenamed}
use chproxy.Cache.Redis.Gets.{Fits, redis_store-IsLawful}
use chproxy.Cache.RedisStream.{GetRange, new_redis_stream_reader, read_stream}
use chproxy.Cache.RedisStream.Moves.{slice, IsAnswer}
use chproxy.Cache.RedisStream.Whole.{read_calls-whole}
use chproxy.Cache.Store.{IsLawful}
use chproxy.Cache.Codec.{ContentMetadata}

abbrev State : Type 0
State = Text → Option (Text × ℕ)

abbrev alive : ℕ → Option (Text × ℕ) → Option Text
alive t none = none
alive t (some (v, d)) = if leb t d then some v else none

abbrev value : Text → ℕ → State → Option Text
value k t s = alive t (s k)

abbrev put_at : Text → Option (Text × ℕ) → State → State
put_at k x s = λ j. if text_eq k j then x else s j

abbrev append_at : Text → Text → ℕ → Option (Text × ℕ) → State → State × Option ℕ
append_at k t now none s = (s, none)
append_at k t now (some (v, d)) s = (put_at k (some (v ++ t, d)) s, some (length (v ++ t)))

abbrev range_of : (first last : ℕ) → Option Text → Option Text
range_of first last none = some []
range_of first last (some v) = some (slice first last v)

abbrev redis : Client
redis = record {
  State = State;
  set = λ k v expire now s. (put_at k (some (v, now + expire)) s, true);
  append = λ k t now s. append_at k t now (s k) s;
  get_range = λ k first last now s. range_of first last (value k now s);
  ttl = λ k now s. some (pos (100 * 10 ^ 9));
  rename = λ k new_key now s. (put_at new_key (s k) s, true);
  del = λ k now s. put_at k none s;
}

value-put_at_self :
    (k : Text) (x : Option (Text × ℕ)) (t : ℕ) (s : State) → value k t (put_at k x s) ≡ alive t x
value-put_at_self k x t s = ap (λ b. alive t (if b then x else s k)) (text_eq_refl k)

value-put_at_other :
    (k other : Text) (x : Option (Text × ℕ)) (t : ℕ) (s : State)
    → other ≢ k
    → value other t (put_at k x s) ≡ value other t s
value-put_at_other k other x t s ne =
    ap (λ b. alive t (if b then x else s other)) (text_eq_ne k other (λ e. ne (sym e)))

value-append_at :
    (k t v : Text) (now later : ℕ) (x : Option (Text × ℕ)) (s : State)
    → alive later x ≡ some v
    → value k later (append_at k t now x s).0 ≡ some (v ++ t)
value-append_at k t v now later none s h = ground (arith, h)
value-append_at k t v now later (some (w, d)) s h =
    value-put_at_self k (some (w ++ t, d)) later s ∙ ground (arith, h)

append_at-other :
    (k t other : Text) (now later : ℕ) (x : Option (Text × ℕ)) (s : State)
    → other ≢ k
    → value other later (append_at k t now x s).0 ≡ value other later s
append_at-other k t other now later none s ne = refl
append_at-other k t other now later (some (w, d)) s ne =
    value-put_at_other k other (some (w ++ t, d)) later s ne

redis-IsRedis : IsRedis redis value
redis-IsRedis = record {
  set-value = λ k v expire now later s ok le soon.
      value-put_at_self k (some (v, now + expire)) later s ∙ ground (arith, soon);
  append-value =
      λ k t v now later s {n} done le here there. value-append_at k t v now later (s k) s there;
  rename-value =
      λ k new_key v now later s done le here there. value-put_at_self new_key (s k) later s ∙ there;
  get_range-value = λ k v first last now s h. ap (range_of first last) h;
  ttl-value = λ k v now s h. (pos (100 * 10 ^ 9), refl);
  set-other = λ k v other expire now later s ne.
      value-put_at_other k other (some (v, now + expire)) later s ne;
  append-other = λ k t other now later s ne. append_at-other k t other now later (s k) s ne;
  rename-other =
      λ k new_key other now later s ne ne'. value-put_at_other new_key other (s k) later s ne';
  del-other = λ k other now later s ne. value-put_at_other k other none later s ne;
}

-- A first range that holds the metadata only, so that responses are fetched in ranges.
abbrev small_sizes : Sizes
small_sizes = record { first_range = 20; buffer = 3; copy = 2 }

abbrev in_one_call : Text → List (Text × ReadError)
in_one_call [] = []
in_one_call (b ∷ t) = (b ∷ t, no_error) ∷ []

in_one_call-whole : (t : Text) → (joined (in_one_call t) ≡ t) × IsReadOn (in_one_call t)
in_one_call-whole [] = (refl, tt)
in_one_call-whole (b ∷ t) = (append-[] (b ∷ t), (refl, tt))

redis_store-IsLawful_example :
    IsLawful
      (redis_store redis small_sizes true 60 (λ now. bytes "7") in_one_call)
      (Fits small_sizes)
redis_store-IsLawful_example =
    redis_store-IsLawful redis value redis-IsRedis small_sizes 60 (λ now. bytes "7") in_one_call
      (omega arith) (omega arith) (λ k new_key now s. refl) in_one_call-whole

abbrev metadata : ContentMetadata
metadata = record { content_length = pos 5; type = []; encoding = [] }

-- An older entry under the key, and a reader that breaks off with an error.
abbrev older : State
older = put_at (bytes "k") (some (bytes "old", 90)) (λ j. none)

abbrev broken_off : List (Text × ReadError)
broken_off = (bytes "he", other_error) ∷ []

redis_put-others_example :
    value (bytes "k") 50 (redis_put redis 60 (bytes "7") broken_off metadata (bytes "k") 40 older).0
    ≡ value (bytes "k") 50 older
unfolding redis_put chproxy.Cache.Redis.put_reads
redis_put-others_example =
    redis_put-others redis value redis-IsRedis 60 (bytes "7") broken_off metadata (bytes "k") 40 50
      (bytes "k") older (λ e. ground (arith, e)) (inl refl)

-- A Redis that refuses every RENAME.
abbrev refusing : Client
refusing = record redis { rename = λ k new_key now s. (s, false) }

refusing-IsRedis : IsRedis refusing value
refusing-IsRedis = record {
  set-value = redis-IsRedis.set-value;
  append-value = redis-IsRedis.append-value;
  rename-value = λ k new_key v now later s done le here there. cc;
  get_range-value = redis-IsRedis.get_range-value;
  ttl-value = redis-IsRedis.ttl-value;
  set-other = redis-IsRedis.set-other;
  append-other = redis-IsRedis.append-other;
  rename-other = λ k new_key other now later s ne ne'. refl;
  del-other = redis-IsRedis.del-other;
}

redis_put-unrenamed_example :
    let r =
      redis_put refusing 60
        (bytes "7")
        (in_one_call (bytes "hello"))
        metadata
        (bytes "k")
        40
        older in
    (r.1 ≡ some 60) × (value (bytes "k") 50 r.0 ≡ some (bytes "old"))
unfolding chproxy.Cache.Redis.put_reads chproxy.Cache.Codec.encode_metadata
    chproxy.Cache.Codec.to_u64 chproxy.Cache.Codec.bytes_of_u32 chproxy.Cache.Codec.encode_string
    text_eq
redis_put-unrenamed_example =
    redis_put-unrenamed refusing value refusing-IsRedis 60 (bytes "7") (in_one_call (bytes "hello"))
      metadata (bytes "k") 40 50 older refl refl (λ s'. refl)

abbrev digits_read : ℕ × GetRange
digits_read = (2, λ first last. some (slice first last (bytes "0123456789")))

answers : (n : ℕ) → All (λ call. IsAnswer (bytes "0123456789") call.1) (replicate n digits_read)
answers zero = tt
answers (suc n) = (λ first last. inl refl, answers n)

read_calls-whole_example : bytes "3456789" ≡ drop 3 (bytes "0123456789")
unfolding read_calls read_stream new_redis_stream_reader
    chproxy.Cache.RedisStream.read_range_from_redis chproxy.Cache.RedisStream.write_buffer
read_calls-whole_example =
    read_calls-whole (bytes "0123456789") 3 3 (replicate 9 digits_read) (answers 9) refl
