-- ===== src/Tests/Files.antt =====
-- Examples for the theorems on the file system's cache.
use chproxy.Cache.Codec.{ContentMetadata, encode_file}
use chproxy.Base.{
  Option, Text, [], any, arith, bytes, length, none, pos, refl, some, take, true, ℕ, ◌*◌, ◌+◌, ◌/◌,
  ◌∷◌, ◌≡◌, ◌⊎◌,
}
use chproxy.Cache.Files.{
  FileCache, Damage, broken_at, file_put, file_get, clean, u64, file_store, sweep, sweep_file,
  is_cache_file, is_hex,
}
use chproxy.Cache.Files.Laws.{Fits, broken_put-served, file_store-IsLawful}
use chproxy.Cache.Store.{IsLawful, CachedData}
use chproxy.Cache.Files.Clean.{clean_counts, size_of, items_of, AllFresh}

abbrev name_a : Text
name_a = bytes "0123456789abcdef0123456789abcdef"

abbrev pub files : FileCache
files = record {
  files =
      (name_a, record { bytes = bytes "abc"; mod_time = 5 })
      ∷ (bytes "other", record { bytes = bytes "x"; mod_time = 0 })
      ∷ [];
  max_size = 2;
  expire = 60;
  grace = 5;
  size = 0;
  items = 0;
}

abbrev pub metadata : ContentMetadata
metadata = record { content_length = pos 3; type = bytes "text/csv"; encoding = [] }

metadata-Fits : Fits metadata
metadata-Fits = record {
  short_type = omega arith;
  short_encoding = omega arith;
  int64 = omega arith;
}

abbrev full_disk : ℕ → Option Damage
full_disk now = some (broken_at (length (encode_file metadata []) + 1))

broken_put-served_example :
    let r = file_put full_disk (bytes "abc") metadata (bytes "k") 7 files in
    (r.1 ≡ none)
    × ((d : CachedData) × (file_get none (bytes "k") 7 r.0 ≡ some d)
        × (d.metadata ≡ metadata)
        × (d.payload ≡ take 1 (bytes "abc")))
broken_put-served_example =
    broken_put-served full_disk (bytes "abc") metadata (bytes "k") 7 files 1 metadata-Fits refl

file_store-IsLawful_example : IsLawful (file_store (λ _. none) (λ _. none)) (λ m payload. Fits m)
file_store-IsLawful_example = file_store-IsLawful (λ _. none) (λ _. none) (λ now. refl)

-- Every walk reads the whole directory.
abbrev unbroken : ℕ → Option ℕ
unbroken k = none

abbrev cleaned : FileCache
cleaned = clean (λ _. true) (λ a b. a * 100 / b) (λ k t. 50) unbroken 60 files

clean_counts_example :
    ((cleaned.size ≡ u64 (size_of cleaned.files))
      × (cleaned.items ≡ u64 (items_of cleaned.files))
      × AllFresh (λ _. true) 60 65 cleaned.files)
    ⊎ ((cleaned.size ≡ 0) × (cleaned.items ≡ 0) × ((k : ℕ) × (n : ℕ) × (unbroken k ≡ some n)))
clean_counts_example = clean_counts (λ _. true) (λ a b. a * 100 / b) (λ k t. 50) unbroken 60 files

-- A directory that cannot be read behind its first file: an expired file is gone and still counted.
broken_walk :
    let c = record files { size = 3; items = 1 } in
    let c' = clean (λ _. true) (λ a b. a * 100 / b) (λ k t. 50) (λ k. some 1) 600 c in
    (length c'.files ≡ 1) × (c'.items ≡ 1)
unfolding clean sweep sweep_file is_cache_file is_hex any
broken_walk = (refl, refl)
