-- ===== src/Utils/Hashes.antt =====
-- utils.go: `hash`, `calcMapHash` and `calcCredentialHash`, with FNV-1a of 32 bits.
use chproxy.Base.{
  Bool, Dict, List, Option, Text, [], false, fnv_offset, fnv_write, if◌then◌else◌, lookup, ltb, map,
  none, some, true, ℕ, ◌&&◌, ◌++◌, ◌==◌, ◌||◌, ◌∷◌,
}

unfoldable pub hash : Text → ℕ
unfolding fnv_write
hash s = fnv_write fnv_offset s

-- Is `s` before `t` in the order of `sort.Strings`, or the same?
text_le : Text → Text → Bool
text_le [] t = true
text_le (a ∷ s) [] = false
text_le (a ∷ s) (b ∷ t) = ltb a b || (a == b && text_le s t)

insert_sorted : Text → List Text → List Text
unfolding text_le
insert_sorted k [] = k ∷ []
insert_sorted k (j ∷ js) = if text_le k j then k ∷ j ∷ js else j ∷ insert_sorted k js

-- `sort.Strings`.
unfoldable pub sort_strings : List Text → List Text
unfolding insert_sorted
sort_strings [] = []
sort_strings (k ∷ ks) = insert_sorted k (sort_strings ks)

abbrev value_of : Option Text → Text
value_of none = []
value_of (some v) = v

write_params : Dict Text → ℕ → List Text → ℕ
unfolding fnv_write
write_params m h [] = h
write_params m h (k ∷ ks) =
    write_params m (fnv_write h (k ++ (b'=' ∷ (value_of (lookup k m) ++ (b'&' ∷ []))))) ks

unfoldable pub calc_map_hash : Dict Text → ℕ
unfolding write_params sort_strings
calc_map_hash [] = 0
calc_map_hash (e ∷ m) = write_params (e ∷ m) fnv_offset (sort_strings (map (λ p. p.0) (e ∷ m)))

unfoldable pub calc_credential_hash : Text → Text → ℕ
unfolding fnv_write
calc_credential_hash user pwd = fnv_write fnv_offset (user ++ pwd)
