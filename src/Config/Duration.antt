-- ===== src/Config/Duration.antt =====
-- `Duration` of config/types.go: its text and the reading of a text. The regular expression of the
-- code takes the digits at the beginning, and the rest is the unit.
pub mod RoundTrip
use chproxy.Base.{
  Bool, Option, Text, [], atoi, bytes, if◌then◌else◌, leb, magnitude, negsuc, none, pos, some,
  text_eq, ℕ, ℤ, ◌%◌, ◌&&◌, ◌*◌, ◌++◌, ◌+◌, ◌-◌, ◌/◌, ◌==◌, ◌>>=◌, ◌^◌, ◌∷◌,
}
use chproxy.Cache.Codec.{itoa_int}
use chproxy.Config.Load.{of_bits}

-- The letter µ has two bytes.
abbrev pub micro : Text
micro = 194 ∷ 181 ∷ b's' ∷ []

abbrev pub milli : ℕ
milli = 10 ^ 6

abbrev pub second : ℕ
second = 10 ^ 9

abbrev pub minute : ℕ
minute = 60 * 10 ^ 9

abbrev pub hour : ℕ
hour = 3600 * 10 ^ 9

abbrev pub day : ℕ
day = 24 * 3600 * 10 ^ 9

abbrev pub week : ℕ
week = 7 * 24 * 3600 * 10 ^ 9

-- The units, with the nanoseconds that each stands for.
unfoldable pub factor_of : Text → Option ℕ
factor_of unit =
    if text_eq unit (bytes "w")
    then some week
    else if text_eq unit (bytes "d")
    then some day
    else if text_eq unit (bytes "h")
    then some hour
    else if text_eq unit (bytes "m")
    then some minute
    else if text_eq unit (bytes "s")
    then some second
    else if text_eq unit (bytes "ms")
    then some milli
    else if text_eq unit micro
    then some (1000)
    else if text_eq unit (bytes "ns")
    then some 1
    else none

abbrev pub is_multiple : ℕ → ℤ → Bool
is_multiple f (pos n) = n % f == 0
is_multiple f (negsuc n) = (n + 1) % f == 0

-- Exact for multiples.
abbrev pub quotient : ℤ → ℕ → ℤ
quotient (pos n) f = pos (n / f)
quotient (negsuc n) f = negsuc ((n + 1) / f - 1)

-- The greatest unit of which the duration is a multiple.
unfoldable pub unit_of : ℤ → Text × ℕ
unit_of t =
    if is_multiple week t
    then (bytes "w", week)
    else if is_multiple day t
    then (bytes "d", day)
    else if is_multiple hour t
    then (bytes "h", hour)
    else if is_multiple minute t
    then (bytes "m", minute)
    else if is_multiple second t
    then (bytes "s", second)
    else if is_multiple milli t
    then (bytes "ms", milli)
    else if is_multiple (1000) t
    then (micro, 1000)
    else (bytes "ns", 1)

unfoldable pub duration_text : ℤ → Text
unfolding unit_of
duration_text t = let (unit, f) = unit_of t in itoa_int (quotient t f) ++ unit

abbrev pub is_figure : ℕ → Bool
is_figure c = leb b'0' c && leb c b'9'

unfoldable pub split_figures : Text → Text × Text
split_figures [] = ([], [])
split_figures (c ∷ t) =
    let (figures, rest) = split_figures t in
    if is_figure c then (c ∷ figures, rest) else ([], c ∷ t)

-- The product of the number and the unit, an int64, wraps around.
unfoldable pub calculate_duration : (n : ℤ) → (unit : Text) → Option ℤ
unfolding factor_of
calculate_duration n unit = do f ← factor_of unit; some (of_bits (magnitude n * f % 2 ^ 64))

unfoldable pub string_to_duration : Text → Option ℤ
string_to_duration s =
    let (figures, unit) = split_figures s in do n ← atoi figures; calculate_duration n unit
