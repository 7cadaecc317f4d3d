-- ===== src/Base/Words.antt =====
-- Machine words as native numbers. A signed word is its bit pattern.
use Prim.Native.Nat.{ℕ, ◌+◌, ◌-◌, ◌%◌, ◌^◌, ◌<◌}
use mathlib.Core.Path.{◌≡◌}
use mathlib.Core.Bool.{Bool, ◌&&◌}
use native.Mathlib.Omega.{arith}
use chproxy.Base.Tests.{ltb, leb}

-- The wrap-around of uint32.
abbrev pub u32 : ℕ → ℕ
u32 n = n % 2 ^ 32

-- `^uint32(0)`.
abbrev pub max_u32 : ℕ
max_u32 = 2 ^ 32 - 1

-- `atomic.AddUint32(&x, 1)` and `atomic.AddUint32(&x, ^uint32(0))`.
abbrev pub inc32 : ℕ → ℕ
inc32 n = u32 (n + 1)

abbrev pub dec32 : ℕ → ℕ
dec32 n = u32 (n + max_u32)

-- `int32(w) > 0` and `int32(w) < 0` of a word.
abbrev pub is_pos32 : ℕ → Bool
is_pos32 w = ltb 0 w && ltb w (2 ^ 31)

abbrev pub is_neg32 : ℕ → Bool
is_neg32 w = leb (2 ^ 31) w

pub dec32-inc32 : (n : ℕ) → n < 2 ^ 32 → dec32 (inc32 n) ≡ n
dec32-inc32 n h = omega arith
