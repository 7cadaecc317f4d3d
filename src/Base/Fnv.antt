-- ===== src/Base/Fnv.antt =====
-- `fnv.New32a` of hash/fnv, over a whole text.
use Prim.Native.Nat.{ℕ, ◌*◌, bit_xor}
use mathlib.Core.Path.{◌≡◌, refl}
use mathlib.Core.List.{[], ◌∷◌, ◌++◌}
use chproxy.Base.Strings.{Text}
use chproxy.Base.Words.{u32}

unfoldable pub fnv_write : ℕ → Text → ℕ
fnv_write h [] = h
fnv_write h (c ∷ t) = fnv_write (u32 (bit_xor h c * 16777619)) t

abbrev pub fnv_offset : ℕ
fnv_offset = 2166136261

pub fnv_write-append : (h : ℕ) (s t : Text) → fnv_write h (s ++ t) ≡ fnv_write (fnv_write h s) t
unfolding fnv_write
fnv_write-append h [] t = refl
fnv_write-append h (c ∷ s) t = fnv_write-append (u32 (bit_xor h c * 16777619)) s t
