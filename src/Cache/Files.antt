-- ===== src/Cache/Files.antt =====
-- cache/filesystem_cache.go and `walkDir` of cache/utils.go: a directory with a file for each key.
-- What the file system does is an argument: `damage` says at which byte writing fails at a time, if
-- it does, `trouble` whether `Get` can open, stat and read its file, `removes` which files can be
-- removed, `breaks` behind how many files the reading of the directory fails in a walk, if it does.
-- `draws` are the random numbers of a walk and `percent` the share in percent that the code computes
-- with floats. Nothing else changes the directory during a call.
pub mod Laws
pub mod Clean
use chproxy.Cache.Codec.{ContentMetadata, encode_file, decode_header}
use chproxy.Base.{
  Bool, Dict, Option, Text, [], any, drop, false, if◌then◌else◌, insert, leb, length, lookup, ltb,
  negsuc, none, not, pos, some, suc, take, true, zero, ℕ, ℤ, ◌%◌, ◌&&◌, ◌*◌, ◌++◌, ◌+◌, ◌-◌, ◌/◌,
  ◌==◌, ◌>>=◌, ◌^◌, ◌||◌, ◌∷◌,
}
use chproxy.Cache.Store.{Store, CachedData}

pub record StoredFile : Type 0 where
  pub bytes : Text
  pub mod_time : ℕ

pub record FileCache : Type 0 where
  pub files : Dict StoredFile
  pub max_size : ℕ
  pub expire : ℕ
  pub grace : ℕ
  pub size : ℕ  -- uint64
  pub items : ℕ  -- uint64

abbrev pub u64 : ℕ → ℕ
u64 n = n % 2 ^ 64

-- `expire - age`.
abbrev pub time_left : (expire age : ℕ) → ℤ
time_left expire age = if leb age expire then pos (expire - age) else negsuc (age - expire - 1)

unfoldable pub read_entry : (expire age : ℕ) → StoredFile → Option CachedData
read_entry expire age f = do
  (metadata, payload) ← decode_header f.bytes
  some (record { metadata = metadata; payload = payload; ttl = time_left expire age })

-- An expired file is served within the grace time, until it is replaced.
unfoldable pub serve_entry : (expire grace age : ℕ) → StoredFile → Option CachedData
unfolding read_entry
serve_entry expire grace age f =
    if ltb expire age && ltb (expire + grace) age then none else read_entry expire age f

-- What can fail in `Get`: `os.Open`, `Stat`, or the reading behind some bytes. An error behind the
-- headers is not one of `Get` but of the reader that it gives, whose bytes end there.
pub data ReadTrouble : Type 0 where
  not_opened not_stated : ReadTrouble
  unreadable_behind : ℕ → ReadTrouble

unfoldable pub file_get :
    Option ReadTrouble → (key : Text) (now : ℕ) → FileCache → Option CachedData
unfolding serve_entry
file_get trouble key now c = do
  f ← lookup key c.files
  elim trouble [
    | some not_opened ↦ none
    | some not_stated ↦ none
    | some (unreadable_behind n) ↦
        serve_entry c.expire c.grace (now - f.mod_time) (record f { bytes = take n f.bytes })
    | none ↦ serve_entry c.expire c.grace (now - f.mod_time) f
  ]

-- Creating the file fails, or writing it fails behind some bytes.
pub data Damage : Type 0 where
  not_created : Damage
  broken_at : ℕ → Damage

unfoldable pub file_put :
    (damage : ℕ → Option Damage) (payload : Text)
    → ContentMetadata
    → (key : Text) (now : ℕ) → FileCache
    → FileCache × Option ℕ
file_put damage payload m key now c =
    let written = λ (b : Text). record c {
      files = insert key (record { bytes = b; mod_time = now }) c.files;
    } in
    let whole = encode_file m payload in
    elim (damage now) [
      | some not_created ↦ (c, none)
      | some (broken_at n) ↦ (written (take n whole), none)
      | none ↦ (
        record (written whole) { size = u64 (c.size + length payload); items = u64 (c.items + 1) },
        some c.expire,
      )
    ]

abbrev pub file_store : (damage : ℕ → Option Damage) (trouble : ℕ → Option ReadTrouble) → Store
file_store damage trouble = record {
  State = FileCache;
  get = λ key now. file_get (trouble now) key now;
  put = file_put damage;
}

unfoldable pub is_hex : ℕ → Bool
is_hex b = (leb b'0' b && leb b b'9') || (leb b'a' b && leb b b'f')

-- `cachefileRegexp`; `walkDir` passes all other files over.
unfoldable pub is_cache_file : Text → Bool
is_cache_file name = length name == 32 && not (any (λ b. not (is_hex b)) name)

-- The files that a walk has left so far, with the two totals of the code.
pub record Walk : Type 0 where
  pub kept : Dict StoredFile
  pub total_size : ℕ  -- uint64
  pub total_items : ℕ  -- uint64

abbrev pub file_size : StoredFile → ℕ
file_size f = u64 (length f.bytes)

abbrev pub keep : Text → StoredFile → Walk → Walk
keep name f w = record w { kept = w.kept ++ ((name, f) ∷ []) }

-- The files that a walk did not come to.
abbrev pub leave : Dict StoredFile → Walk → Walk
leave fs w = record w { kept = w.kept ++ fs }

-- The end of `clean`.
unfoldable pub store_counts : FileCache → Walk × Bool → FileCache
store_counts c (w, true) = record c { files = w.kept; size = w.total_size; items = w.total_items }
store_counts c (w, false) = record c { files = w.kept }

module _ (removes : Text → Bool) where
  -- The first walk: expired files are removed, and the rest is counted.
  unfoldable pub sweep_file : (now expire : ℕ) → Text → StoredFile → Walk → Walk
  sweep_file now expire name f w =
      if not (is_cache_file name)
      then keep name f w
      else if ltb expire (now - f.mod_time) && removes name
      then w
      else record (keep name f w) {
        total_size = u64 (w.total_size + file_size f);
        total_items = u64 (w.total_items + 1);
      }

  unfoldable pub sweep : (now expire : ℕ) → Dict StoredFile → Walk → Walk
  sweep now expire [] w = w
  sweep now expire ((name, f) ∷ fs) w = sweep now expire fs (sweep_file now expire name f w)

  -- A walk that removes about `p` files of a hundred.
  unfoldable pub evict_file : (draw : Text → ℕ) (p : ℕ) → Text → StoredFile → Walk → Walk
  evict_file draw p name f w =
      if not (is_cache_file name) || (ltb p (draw name) || not (removes name))
      then keep name f w
      else record w {
        total_size = u64 (w.total_size + 2 ^ 64 - file_size f);
        total_items = u64 (w.total_items + 2 ^ 64 - 1);
      }

  unfoldable pub evict : (draw : Text → ℕ) (p : ℕ) → Dict StoredFile → Walk → Walk
  evict draw p [] w = w
  evict draw p ((name, f) ∷ fs) w = evict draw p fs (evict_file draw p name f w)

  -- The loop: at most `rounds` walks, while the files are too large together; and whether it came to
  -- its end, where a walk that fails breaks it off.
  unfoldable pub evict_rounds :
      (percent : ℕ → ℕ → ℕ) (draws : ℕ → Text → ℕ) (breaks : ℕ → Option ℕ) (max_size rounds : ℕ)
      → Walk
      → Walk × Bool
  evict_rounds percent draws breaks max_size zero w = (w, true)
  evict_rounds percent draws breaks max_size (suc k) w =
      let p = percent (w.total_size - max_size) w.total_size + 10 in
      let none_kept : Walk = record w { kept = [] } in
      let rest : Walk × Bool = elim (breaks k) [
        | some n ↦ (leave (drop n w.kept) (evict (draws k) p (take n w.kept) none_kept), false)
        | none ↦ evict_rounds percent draws breaks max_size k (evict (draws k) p w.kept none_kept)
      ] in
      if ltb max_size w.total_size then rest else (w, true)

  -- `clean`: the walk of the expired files has the number 3, those of the loop 2, 1 and 0. A walk that
  -- fails leaves the counts as they were.
  unfoldable pub clean :
      (percent : ℕ → ℕ → ℕ) (draws : ℕ → Text → ℕ) (breaks : ℕ → Option ℕ) (now : ℕ)
      → FileCache
      → FileCache
  clean percent draws breaks now c =
      let start : Walk = record { kept = []; total_size = 0; total_items = 0 } in
      let limit = c.expire + c.grace in
      elim (breaks 3) [
        | some n ↦ record c {
          files = (leave (drop n c.files) (sweep now limit (take n c.files) start)).kept;
        }
        | none ↦
            store_counts c
              (evict_rounds percent draws breaks c.max_size 3 (sweep now limit c.files start))
      ]

-- How long `cleaner` waits between two cleanings, and whether it cleans at a tick in between.
unfoldable pub clean_period : (expire : ℕ) → ℕ
clean_period expire =
    let minute = 60 * 10 ^ 9 in
    let d = if ltb (expire / 2) minute then minute else expire / 2 in
    if ltb (60 * minute) d then 60 * minute else d

unfoldable pub is_too_large : FileCache → Bool
is_too_large c = ltb c.max_size c.size
