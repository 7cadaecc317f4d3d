-- ===== src/Cache/Files/Clean.antt =====
-- `clean` of cache/filesystem_cache.go: what it removes, and that its counts are right.
use chproxy.Base.{
  All, Bool, Bool-cases, Dict, Option, Option-cases, Text, [], arith, false, if◌then◌else◌, inl,
  inr, ltb, refl, some, suc, true, zero, ℕ, ◌++◌, ◌+◌, ◌-◌, ◌∙◌, ◌∷◌, ◌≡◌, ◌≤◌, ◌⊎◌,
}
use chproxy.Cache.Files.{
  FileCache, StoredFile, Walk, sweep, sweep_file, evict, evict_file, evict_rounds, clean,
  is_cache_file, file_size, u64, store_counts,
}

-- The sizes and the number of the files that the cache counts.
unfoldable pub size_of : Dict StoredFile → ℕ
size_of [] = 0
size_of ((name, f) ∷ fs) = if is_cache_file name then file_size f + size_of fs else size_of fs

unfoldable pub items_of : Dict StoredFile → ℕ
items_of [] = 0
items_of ((name, f) ∷ fs) = if is_cache_file name then 1 + items_of fs else items_of fs

size_of-append : (xs ys : Dict StoredFile) → size_of (xs ++ ys) ≡ size_of xs + size_of ys
unfolding size_of
size_of-append [] ys = omega arith
size_of-append ((name, f) ∷ xs) ys = ground (arith, size_of-append xs ys)

items_of-append : (xs ys : Dict StoredFile) → items_of (xs ++ ys) ≡ items_of xs + items_of ys
unfolding items_of
items_of-append [] ys = omega arith
items_of-append ((name, f) ∷ xs) ys = ground (arith, items_of-append xs ys)

-- The totals of a walk are those of what it kept and of what it has before it.
record IsCounted (w : Walk) (ahead : Dict StoredFile) : Type 0 where
  size : w.total_size ≡ u64 (size_of w.kept + size_of ahead)
  items : w.total_items ≡ u64 (items_of w.kept + items_of ahead)

-- A cache file is younger than the limit, or it cannot be removed.
abbrev pub Fresh : (removes : Text → Bool) (now limit : ℕ) → Text × StoredFile → Type 0
Fresh removes now limit (name, f) =
    is_cache_file name ≡ true → (now - f.mod_time ≤ limit) ⊎ (removes name ≡ false)

abbrev pub AllFresh : (removes : Text → Bool) (now limit : ℕ) → Dict StoredFile → Type 0
AllFresh removes now limit fs = All (Fresh removes now limit) fs

keep-All :
    (P : Text × StoredFile → Type 0) (fs : Dict StoredFile) (e : Text × StoredFile)
    → All P fs
    → P e
    → All P (fs ++ (e ∷ []))
keep-All P [] e hs h = (h, tt)
keep-All P (x ∷ fs) e hs h = (hs.0, keep-All P fs e hs.1 h)

counts_stored :
    (P : Text × StoredFile → Type 0) (B : Type 0) (c : FileCache) (r : Walk × Bool)
    → ((r.1 ≡ true) × IsCounted r.0 [] × All P r.0.kept) ⊎ ((r.1 ≡ false) × B)
    → let c' = store_counts c r in
      ((c'.size ≡ u64 (size_of c'.files)) × (c'.items ≡ u64 (items_of c'.files)) × All P c'.files)
      ⊎ ((c'.size ≡ c.size) × (c'.items ≡ c.items) × B)
unfolding store_counts size_of items_of
counts_stored P B c (w, true) (inl (e, counted, h)) =
    inl (counted.size ∙ omega arith, counted.items ∙ omega arith, h)
counts_stored P B c (w, true) (inr (e, b)) = cc
counts_stored P B c (w, false) (inl (e, counted, h)) = cc
counts_stored P B c (w, false) (inr (e, b)) = inr (refl, refl, b)

module _ (removes : Text → Bool) where
  sweep_file-IsCounted :
      (now expire : ℕ) (name : Text) (f : StoredFile) (w : Walk)
      → IsCounted w []
      → IsCounted (sweep_file removes now expire name f w) []
  unfolding sweep_file size_of items_of
  sweep_file-IsCounted now expire name f w c =
      ground
        (arith, size_of-append w.kept ((name, f) ∷ []), items_of-append w.kept ((name, f) ∷ []))

  sweep-IsCounted :
      (now expire : ℕ) (fs : Dict StoredFile) (w : Walk)
      → IsCounted w []
      → IsCounted (sweep removes now expire fs w) []
  unfolding sweep
  sweep-IsCounted now expire [] w c = c
  sweep-IsCounted now expire ((name, f) ∷ fs) w c =
      sweep-IsCounted now expire fs (sweep_file removes now expire name f w)
        (sweep_file-IsCounted now expire name f w c)

  evict_file-IsCounted :
      (draw : Text → ℕ) (p : ℕ) (name : Text) (f : StoredFile) (fs : Dict StoredFile) (w : Walk)
      → IsCounted w ((name, f) ∷ fs)
      → IsCounted (evict_file removes draw p name f w) fs
  unfolding evict_file size_of items_of
  evict_file-IsCounted draw p name f fs w c =
      ground
        (arith, size_of-append w.kept ((name, f) ∷ []), items_of-append w.kept ((name, f) ∷ []))

  evict-IsCounted :
      (draw : Text → ℕ) (p : ℕ) (fs : Dict StoredFile) (w : Walk)
      → IsCounted w fs
      → IsCounted (evict removes draw p fs w) []
  unfolding evict
  evict-IsCounted draw p [] w c = c
  evict-IsCounted draw p ((name, f) ∷ fs) w c =
      evict-IsCounted draw p fs (evict_file removes draw p name f w)
        (evict_file-IsCounted draw p name f fs w c)

  sweep_file-AllFresh :
      (now limit : ℕ) (name : Text) (f : StoredFile) (w : Walk)
      → AllFresh removes now limit w.kept
      → AllFresh removes now limit (sweep_file removes now limit name f w).kept
  unfolding sweep_file
  sweep_file-AllFresh now limit name f w h =
      ground (arith, keep-All (Fresh removes now limit) w.kept (name, f) h)

  sweep-AllFresh :
      (now limit : ℕ) (fs : Dict StoredFile) (w : Walk)
      → AllFresh removes now limit w.kept
      → AllFresh removes now limit (sweep removes now limit fs w).kept
  unfolding sweep
  sweep-AllFresh now limit [] w h = h
  sweep-AllFresh now limit ((name, f) ∷ fs) w h =
      sweep-AllFresh now limit fs (sweep_file removes now limit name f w)
        (sweep_file-AllFresh now limit name f w h)

  -- What a walk keeps has what its files had.
  evict-All :
      (P : Text × StoredFile → Type 0) (draw : Text → ℕ) (p : ℕ) (fs : Dict StoredFile) (w : Walk)
      → All P fs
      → All P w.kept
      → All P (evict removes draw p fs w).kept
  unfolding evict evict_file
  evict-All P draw p [] w hs h = h
  evict-All P draw p ((name, f) ∷ fs) w hs h =
      evict-All P draw p fs (evict_file removes draw p name f w) hs.1
        (ground (arith, keep-All P w.kept (name, f) h hs.0))

  -- The loop came to its end, or a walk broke it off.
  rounds-outcome :
      (P : Text × StoredFile → Type 0) (percent : ℕ → ℕ → ℕ) (draws : ℕ → Text → ℕ)
      (breaks : ℕ → Option ℕ) (max_size k : ℕ) (w : Walk)
      → IsCounted w []
      → All P w.kept
      → let r = evict_rounds removes percent draws breaks max_size k w in
        ((r.1 ≡ true) × IsCounted r.0 [] × All P r.0.kept)
        ⊎ ((r.1 ≡ false) × ((j : ℕ) × (n : ℕ) × (breaks j ≡ some n)))
  unfolding evict_rounds size_of items_of
  rounds-outcome P percent draws breaks max_size zero w c h = inl (refl, c, h)
  rounds-outcome P percent draws breaks max_size (suc k) w c h =
      let p = percent (w.total_size - max_size) w.total_size + 10 in
      let start : IsCounted (record w { kept = [] }) w.kept = omega arith in
      let w' = evict removes (draws k) p w.kept (record w { kept = [] }) in
      elim (Bool-cases (ltb max_size w.total_size)) [
        | inr small ↦ rw (small, evict_rounds) (inl (refl, c, h))
        | inl large ↦ elim (Option-cases (breaks k)) [
          | inr (n, broken) ↦ rw (large, broken, evict_rounds) (inr (refl, (k, n, broken)))
          | inl whole ↦
              rw (large, whole, evict_rounds)
                (rounds-outcome P percent draws breaks max_size k w'
                  (evict-IsCounted (draws k) p w.kept (record w { kept = [] }) start)
                  (evict-All P (draws k) p w.kept (record w { kept = [] }) h tt))
        ]
      ]

  -- Behind a cleaning that nothing else changes the directory in, one of two things holds. The cache
  -- counts just the files that it holds, their number and their sizes together, both as uint64; and
  -- each of them is within the time to live and the grace time, or cannot be removed. Or the reading
  -- of the directory failed in a walk, and the counts are those from before, whatever was removed.
  pub clean_counts :
      (percent : ℕ → ℕ → ℕ) (draws : ℕ → Text → ℕ) (breaks : ℕ → Option ℕ) (now : ℕ) (c : FileCache)
      → let c' = clean removes percent draws breaks now c in
        ((c'.size ≡ u64 (size_of c'.files))
          × (c'.items ≡ u64 (items_of c'.files))
          × AllFresh removes now (c.expire + c.grace) c'.files)
        ⊎ ((c'.size ≡ c.size) × (c'.items ≡ c.items) × ((k : ℕ) × (n : ℕ) × (breaks k ≡ some n)))
  unfolding clean size_of items_of store_counts
  clean_counts percent draws breaks now c =
      let limit = c.expire + c.grace in
      let start : Walk = record { kept = []; total_size = 0; total_items = 0 } in
      let swept = sweep removes now limit c.files start in
      let r = evict_rounds removes percent draws breaks c.max_size 3 swept in
      elim (Option-cases (breaks 3)) [
        | inr (n, broken) ↦ rw (broken, clean) (inr (refl, refl, (3, n, broken)))
        | inl whole ↦
            rw (whole, clean)
              (counts_stored (Fresh removes now limit) ((k : ℕ) × (n : ℕ) × (breaks k ≡ some n)) c r
                (rounds-outcome (Fresh removes now limit) percent draws breaks c.max_size 3 swept
                  (sweep-IsCounted now limit c.files start (record { size = refl; items = refl }))
                  (sweep-AllFresh now limit c.files start tt)))
      ]
