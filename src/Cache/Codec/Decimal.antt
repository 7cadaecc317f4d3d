-- ===== src/Cache/Codec/Decimal.antt =====
-- The decimal text of a number, as `fmt.Sprintf` prints it and `strconv.Atoi` reads it.
use chproxy.Base.{
  Bool-cases, Text, [], ap, arith, atoi, digit, digits, false, inl, inr, itoa, leb, length, ltb,
  negate, negsuc, parse_digits, pos, refl, some, subst, suc, true, zero, ℕ, ℤ, ◌%◌, ◌*◌, ◌+◌, ◌-◌,
  ◌/◌, ◌<◌, ◌==◌, ◌^◌, ◌∙◌, ◌∷◌, ◌≡◌, ◌≤◌,
}
use chproxy.Cache.Codec.{itoa_int}

abbrev ten_to : ℕ → ℕ
ten_to zero = 1
ten_to (suc f) = 10 * ten_to f

parse_digits-figure :
    (n d : ℕ) (acc : Text)
    → d < 10
    → parse_digits n ((b'0' + d) ∷ acc) ≡ parse_digits (n * 10 + d) acc
unfolding parse_digits
parse_digits-figure n d acc h =
    let low : leb b'0' (b'0' + d) ≡ true = ground arith in
    let high : leb (b'0' + d) b'9' ≡ true = ground arith in
    let back : b'0' + d - b'0' ≡ d = omega arith in rw (low, high, back) refl

parse_digits-first :
    (n : ℕ) (acc : Text) → n < 10 → parse_digits 0 ((b'0' + n) ∷ acc) ≡ parse_digits n acc
parse_digits-first n acc h =
    parse_digits-figure 0 n acc h ∙ ap (λ k. parse_digits k acc) (omega arith)

parse_digits-digit :
    (n d : ℕ) (acc : Text) → d < 10 → parse_digits n (digit d ∷ acc) ≡ parse_digits (n * 10 + d) acc
parse_digits-digit n d acc h =
    let small : ltb d 10 ≡ true = ground arith in rw small (parse_digits-figure n d acc h)

parse_digits-digits :
    (f n : ℕ) (acc : Text)
    → n < ten_to (suc f)
    → parse_digits 0 (digits 10 (suc f) n acc) ≡ parse_digits n acc
unfolding digits
parse_digits-digits zero n acc h =
    let small : ltb n 10 ≡ true = ground arith in
    rw (small, digits) (parse_digits-first n acc (omega arith))
parse_digits-digits (suc f) n acc h = elim (Bool-cases (ltb n 10)) [
  | inl e ↦ rw (e, digits) (parse_digits-first n acc (ground arith))
  | inr e ↦
      let small : n / 10 < ten_to (suc f) = omega arith in
      let join : n / 10 * 10 + n % 10 ≡ n = omega arith in
      rw (e, digits)
        (parse_digits-digits f (n / 10) (digit (n % 10) ∷ acc) small
          ∙ parse_digits-digit (n / 10) (n % 10) acc (omega arith)
          ∙ ap (λ k. parse_digits k acc) join)
]

-- The text of a number begins with a digit.
digits-begin :
    (f n : ℕ) (acc : Text)
    → n < ten_to (suc f)
    → (c : ℕ) × (t : Text) × (digits 10 (suc f) n acc ≡ c ∷ t) × (b'0' ≤ c)
unfolding digits
digits-begin zero n acc h =
    let small : ltb n 10 ≡ true = ground arith in
    rw (small, digits) (b'0' + n, acc, refl, omega arith)
digits-begin (suc f) n acc h = elim (Bool-cases (ltb n 10)) [
  | inl e ↦ rw (e, digits) (b'0' + n, acc, refl, omega arith)
  | inr e ↦
      let small : n / 10 < ten_to (suc f) = omega arith in
      rw (e, digits) (digits-begin f (n / 10) (digit (n % 10) ∷ acc) small)
]

small_enough : (n : ℕ) → n ≤ 2 ^ 63 → n < ten_to 64
small_enough n h = omega arith

pub parse_digits-itoa : (n : ℕ) → n ≤ 2 ^ 63 → parse_digits 0 (itoa n) ≡ some n
unfolding itoa parse_digits
parse_digits-itoa n h = parse_digits-digits 63 n [] (small_enough n h)

itoa-begin : (n : ℕ) → n ≤ 2 ^ 63 → (c : ℕ) × (t : Text) × (itoa n ≡ c ∷ t) × (b'0' ≤ c)
unfolding itoa
itoa-begin n h = digits-begin 63 n [] (small_enough n h)

-- The range of int64.
abbrev pub IsInt64 : ℤ → Type 0
IsInt64 (pos n) = n < 2 ^ 63
IsInt64 (negsuc n) = n < 2 ^ 63

pub atoi-itoa_int : (n : ℤ) → IsInt64 n → atoi (itoa_int n) ≡ some n
unfolding atoi itoa_int
atoi-itoa_int (pos n) h =
    let (c, t, e, g) = itoa-begin n (omega arith) in
    let p = subst (λ x. parse_digits 0 x ≡ some n) e (parse_digits-itoa n (omega arith)) in
    let no_minus : c == b'-' ≡ false = ground arith in
    let no_plus : c == b'+' ≡ false = ground arith in
    let in_range : ltb n (2 ^ 63) ≡ true = ground arith in
    rw (e, atoi, no_minus, no_plus, p, in_range) refl
atoi-itoa_int (negsuc n) h =
    let (c, t, e, g) = itoa-begin (n + 1) (omega arith) in
    let p =
      subst (λ x. parse_digits 0 x ≡ some (n + 1)) e (parse_digits-itoa (n + 1) (omega arith)) in
    let in_range : leb (n + 1) (2 ^ 63) ≡ true = ground arith in
    let next : n + 1 ≡ suc n = omega arith in rw (e, p, in_range) (ap (λ k. some (negate k)) next)

length-digits : (f n : ℕ) (acc : Text) → length (digits 10 f n acc) ≤ f + length acc
unfolding digits
length-digits zero n acc = omega arith
length-digits (suc f) n acc = ground (arith, length-digits f (n / 10) (digit (n % 10) ∷ acc))

pub itoa_int_short : (n : ℤ) → length (itoa_int n) < 2 ^ 32
unfolding itoa_int itoa
itoa_int_short (pos n) = let b = length-digits 64 n [] in omega arith
itoa_int_short (negsuc n) = let b = length-digits 64 (n + 1) [] in omega arith
