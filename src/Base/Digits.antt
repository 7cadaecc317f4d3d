-- ===== src/Base/Digits.antt =====
-- Numbers as text: `strconv.Itoa` and `%08X` of a number, and `strconv.Atoi`.
use Prim.Native.Nat.{ℕ, zero, suc, ◌+◌, ◌-◌, ◌*◌, ◌/◌, ◌%◌, ◌^◌}
use mathlib.Core.Bool.{◌&&◌}
use mathlib.Core.Option.{Option, none, some}
use mathlib.Core.List.{[], ◌∷◌}
use chproxy.Base.Tests.{ltb, leb, if◌then◌else◌, ◌==◌}
use chproxy.Base.Lists.{length}
use chproxy.Base.Strings.{Text}
use chproxy.Base.Int.{ℤ}
use chproxy.Base.Int

abbrev pub digit : ℕ → ℕ
digit d = if ltb d 10 then b'0' + d else b'A' + (d - 10)

-- The digits of `n` before `acc`; `fuel` digits at most. 64 are enough for every 64-bit number.
unfoldable pub digits : (base fuel n : ℕ) → Text → Text
digits base zero n acc = acc
digits base (suc f) n acc =
    let rest = digits base f (n / base) (digit (n % base) ∷ acc) in
    if ltb n base then digit n ∷ acc else rest

unfoldable pub itoa : ℕ → Text
unfolding digits
itoa n = digits 10 64 n []

unfoldable pub pad : ℕ → Text → Text
pad zero t = t
pad (suc k) t = b'0' ∷ pad k t

-- `fmt.Sprintf("%08X", n)`.
unfoldable pub hex08 : ℕ → Text
unfolding digits pad
hex08 n = let t = digits 16 64 n [] in pad (8 - length t) t

unfoldable pub parse_digits : ℕ → Text → Option ℕ
parse_digits acc [] = some acc
parse_digits acc (c ∷ t) =
    let rest = parse_digits (acc * 10 + (c - b'0')) t in
    if leb b'0' c && leb c b'9' then rest else none

abbrev pub at_least_one : Text → Option ℕ
unfolding parse_digits
at_least_one [] = none
at_least_one (c ∷ t) = parse_digits 0 (c ∷ t)

abbrev pub negate : ℕ → ℤ
negate zero = Int.ℤ.pos 0
negate (suc n) = Int.ℤ.negsuc n

-- A number in the range of int64, with its sign.
abbrev pub positive : Option ℕ → Option ℤ
positive none = none
positive (some n) = if ltb n (2 ^ 63) then some (Int.ℤ.pos n) else none

abbrev pub negative : Option ℕ → Option ℤ
negative none = none
negative (some n) = if leb n (2 ^ 63) then some (negate n) else none

unfoldable pub atoi : Text → Option ℤ
unfolding parse_digits
atoi [] = none
atoi (c ∷ t) =
    if c == b'-'
    then negative (at_least_one t)
    else if c == b'+'
    then positive (at_least_one t)
    else positive (at_least_one (c ∷ t))
