-- ===== src/Config/Duration/RoundTrip.antt =====
-- A duration of config/types.go is read back from its text.
use chproxy.Base.{
  All, Bool-cases, Text, [], ap, arith, bytes, digit, digits, inl, inr, itoa, ltb, pos, refl, some,
  suc, text_eq, true, zero, ℕ, ◌%◌, ◌*◌, ◌++◌, ◌/◌, ◌<◌, ◌^◌, ◌∙◌, ◌∷◌, ◌≡◌, ◌≤◌,
}
use chproxy.Cache.Codec.{itoa_int}
use chproxy.Cache.Codec.Decimal.{atoi-itoa_int}
use chproxy.Config.Duration.{
  second, factor_of, micro, unit_of, duration_text, is_figure, split_figures, calculate_duration,
  string_to_duration, is_multiple, week, day, hour, minute, milli,
}
use chproxy.Config.Load.{of_bits}

abbrev AllFigures : Text → Type 0
AllFigures t = All (λ c. is_figure c ≡ true) t

digit-figure : (d : ℕ) → d < 10 → is_figure (digit d) ≡ true
digit-figure d h = ground arith

digits-figures : (f n : ℕ) (acc : Text) → AllFigures acc → AllFigures (digits 10 f n acc)
unfolding digits
digits-figures zero n acc hs = hs
digits-figures (suc f) n acc hs = elim (Bool-cases (ltb n 10)) [
  | inl e ↦ rw (e, digits) (ground arith, hs)
  | inr e ↦
      rw (e, digits)
        (digits-figures f (n / 10) (digit (n % 10) ∷ acc) (digit-figure (n % 10) (omega arith), hs))
]

itoa-figures : (n : ℕ) → AllFigures (itoa n)
unfolding itoa
itoa-figures n = digits-figures 64 n [] tt

split_figures-append :
    (t unit : Text)
    → AllFigures t
    → (split_figures unit).0 ≡ []
    → (split_figures unit).1 ≡ unit
    → (split_figures (t ++ unit)) ≡ (t, unit)
unfolding split_figures
split_figures-append [] unit hs e e' = ground arith
split_figures-append (c ∷ t) unit (h, hs) e e' =
    ground (arith, h, split_figures-append t unit hs e e')

string_to_duration-text :
    (k f : ℕ) (unit : Text)
    → k < 2 ^ 63
    → k * f < 2 ^ 63
    → factor_of unit ≡ some f
    → (split_figures unit).0 ≡ []
    → (split_figures unit).1 ≡ unit
    → string_to_duration (itoa k ++ unit) ≡ some (pos (k * f))
unfolding string_to_duration calculate_duration itoa_int of_bits
string_to_duration-text k f unit h small e none_first same =
    let split = split_figures-append (itoa k) unit (itoa-figures k) none_first same in
    let back = atoi-itoa_int (pos k) h in
    let whole : k * f % 2 ^ 64 ≡ k * f = omega arith in
    rw (split, string_to_duration, back, e, whole) (ground arith)

in_unit :
    (n f : ℕ) (unit : Text)
    → n < 2 ^ 63
    → n / f ≤ n
    → n / f * f ≡ n
    → factor_of unit ≡ some f
    → (split_figures unit).0 ≡ []
    → (split_figures unit).1 ≡ unit
    → string_to_duration (itoa (n / f) ++ unit) ≡ some (pos n)
in_unit n f unit h le exact e none_first same =
    string_to_duration-text (n / f) f unit (omega arith) (omega arith) e none_first same
    ∙ ap (λ k. some (pos k)) exact

-- A duration that is not negative is read back from its text, whatever unit it is written in.
pub string_to_duration-duration_text :
    (n : ℕ) → n < 2 ^ 63 → string_to_duration (duration_text (pos n)) ≡ some (pos n)
unfolding duration_text unit_of itoa_int factor_of split_figures text_eq
string_to_duration-duration_text n h = elim (Bool-cases (is_multiple week (pos n))) [
  | inl e ↦
      rw (e, duration_text)
        (in_unit n week (bytes "w") h (omega arith) (ground arith) refl refl refl)
  | inr e1 ↦ elim (Bool-cases (is_multiple day (pos n))) [
    | inl e ↦
        rw (e1, e, duration_text)
          (in_unit n day (bytes "d") h (omega arith) (ground arith) refl refl refl)
    | inr e2 ↦ elim (Bool-cases (is_multiple hour (pos n))) [
      | inl e ↦
          rw (e1, e2, e, duration_text)
            (in_unit n hour (bytes "h") h (omega arith) (ground arith) refl refl refl)
      | inr e3 ↦ elim (Bool-cases (is_multiple minute (pos n))) [
        | inl e ↦
            rw (e1, e2, e3, e, duration_text)
              (in_unit n minute (bytes "m") h (omega arith) (ground arith) refl refl refl)
        | inr e4 ↦ elim (Bool-cases (is_multiple second (pos n))) [
          | inl e ↦
              rw (e1, e2, e3, e4, e, duration_text)
                (in_unit n second (bytes "s") h (omega arith) (ground arith) refl refl refl)
          | inr e5 ↦ elim (Bool-cases (is_multiple milli (pos n))) [
            | inl e ↦
                rw (e1, e2, e3, e4, e5, e, duration_text)
                  (in_unit n milli (bytes "ms") h (omega arith) (ground arith) refl refl refl)
            | inr e6 ↦ elim (Bool-cases (is_multiple 1000 (pos n))) [
              | inl e ↦
                  rw (e1, e2, e3, e4, e5, e6, e, duration_text)
                    (in_unit n 1000 (micro) h (omega arith) (ground arith) refl refl refl)
              | inr e7 ↦
                  rw (e1, e2, e3, e4, e5, e6, e7, duration_text)
                    (in_unit n 1 (bytes "ns") h (omega arith) (omega arith) refl refl refl)
            ]
          ]
        ]
      ]
    ]
  ]
]
