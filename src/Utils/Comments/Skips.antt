-- ===== src/Utils/Comments/Skips.antt =====
-- What `skipLeadingComments` of utils.go leaves of a query.
use chproxy.Base.{
  Bool-cases, Option, Text, [], ap, arith, drop, drop-length, false, has_prefix, inl, inr, le_refl,
  length, ltb, ltb→lt, map, none, refl, some, suc, sym, take, zero, ℕ, ◌&&◌, ◌+◌, ◌-◌, ◌<◌, ◌==◌,
  ◌∙◌, ◌∷◌, ◌≡◌, ◌≤◌,
}
use chproxy.Utils.Comments.{
  Round, done, again, after_byte, close_comment, is_space, skip_round, skip_rounds,
  skip_leading_comments, starts_statement, continue_with, to_upper,
}

-- A text that is empty or begins with neither a space, nor `--`, nor `/*`.
abbrev pub IsStart : Text → Type 0
IsStart [] = Unit
IsStart (c ∷ []) = is_space c ≡ false
IsStart (c ∷ d ∷ q) =
    (is_space c ≡ false) × ¬ ((c ≡ b'-') × (d ≡ b'-')) × ¬ ((c ≡ b'/') × (d ≡ b'*'))

-- `r` is what is left of `q` behind some number of bytes.
abbrev pub IsSuffix : Text → Text → Type 0
IsSuffix r q = (n : ℕ) × (n ≤ length q) × (r ≡ drop n q)

-- A suffix that is shorter.
abbrev IsRest : Text → Text → Type 0
IsRest r q = (n : ℕ) × (n < length q) × (r ≡ drop (suc n) q)

after_byte-IsRest : (b : ℕ) (q : Text) {r : Text} → after_byte b q ≡ some r → IsRest r q
unfolding after_byte
after_byte-IsRest b [] h = cc
after_byte-IsRest b (c ∷ q) {r} h = elim (Bool-cases (c == b)) [
  | inl hit ↦ (0, omega arith, ground arith)
  | inr miss ↦
      let (n, l, e) = after_byte-IsRest b q {r = r} (ground arith) in (suc n, omega arith, e)
]

close_comment-IsRest : (q : Text) {r : Text} → close_comment q ≡ some r → IsRest r q
unfolding close_comment
close_comment-IsRest [] h = cc
close_comment-IsRest (c ∷ []) h = cc
close_comment-IsRest (c ∷ d ∷ q) {r} h = elim (Bool-cases (c == b'*' && d == b'/')) [
  | inl hit ↦ (1, omega arith, ground arith)
  | inr miss ↦
      let (n, l, e) = close_comment-IsRest (d ∷ q) {r = r} (ground arith) in (suc n, omega arith, e)
]

-- A round that ends leaves a start; one that goes on leaves less.
abbrev pub Progress : Text → Round → Type 0
Progress q (done r) = IsStart r × IsSuffix r q
Progress q (again r) = IsRest r q

nothing-Progress : (q : Text) → Progress q (done [])
nothing-Progress q = (tt, (length q, le_refl _, sym (drop-length q)))

continue-Progress :
    (q : Text) (o : Option Text)
    → ((r : Text) → o ≡ some r → IsRest r q)
    → Progress q (continue_with o)
continue-Progress q none h = nothing-Progress q
continue-Progress q (some r) h = h r refl

pub skip_round-Progress : (q : Text) → Progress q (skip_round q)
unfolding skip_round
skip_round-Progress [] = nothing-Progress []
skip_round-Progress (c ∷ []) = elim (Bool-cases (is_space c)) [
  | inl s ↦ rw (s, skip_round) (0, omega arith, refl)
  | inr s ↦ rw (s, skip_round) (s, (0, omega arith, refl))
]
skip_round-Progress (c ∷ d ∷ q) = elim (Bool-cases (is_space c)) [
  | inl s ↦ rw (s, skip_round) (0, omega arith, refl)
  | inr s ↦ elim (Bool-cases (c == b'-')) [
    | inl m ↦ elim (Bool-cases (d == b'-')) [
      | inl m' ↦
          rw (s, m, m', skip_round)
            (continue-Progress (c ∷ d ∷ q) (after_byte b'\n' (c ∷ d ∷ q))
              (λ r e. after_byte-IsRest b'\n' (c ∷ d ∷ q) e))
      | inr m' ↦ rw (s, m, m', skip_round) ((s, ground arith, ground arith), stay)
    ]
    | inr m ↦ elim (Bool-cases (c == b'/')) [
      | inl v ↦ elim (Bool-cases (d == b'*')) [
        | inl v' ↦
            rw (s, m, v, v', skip_round)
              (continue-Progress (c ∷ d ∷ q) (close_comment (d ∷ q))
                λ r e. later c (close_comment-IsRest (d ∷ q) e))
        | inr v' ↦ rw (s, m, v, v', skip_round) ((s, ground arith, ground arith), stay)
      ]
      | inr v ↦ rw (s, m, v, skip_round) ((s, ground arith, ground arith), stay)
    ]
  ]
]
  where
    stay : IsSuffix (c ∷ d ∷ q) (c ∷ d ∷ q)
    stay = (0, omega arith, refl)

    later : {r : Text} {p : Text} (b : ℕ) → IsRest r p → IsRest r (b ∷ p)
    later b (n, l, e) = (suc n, omega arith, e)

drop-nil : (n : ℕ) → drop {A = ℕ} n [] ≡ []
drop-nil zero = refl
drop-nil (suc n) = refl

drop-drop : (m n : ℕ) (q : Text) → drop m (drop n q) ≡ drop (m + n) q
drop-drop m zero q = ap (λ k. drop k q) (omega arith)
drop-drop m (suc n) [] = drop-nil m ∙ sym (drop-nil (m + suc n))
drop-drop m (suc n) (x ∷ q) =
    let e : suc (m + n) ≡ m + suc n = omega arith in drop-drop m n q ∙ ap (λ k. drop k (x ∷ q)) e

pub length-rest : (n : ℕ) (q : Text) → n < length q → length (drop (suc n) q) < length q
length-rest n [] h = elim h [ ]
length-rest zero (x ∷ q) h = omega arith
length-rest (suc n) (x ∷ q) h = omega (arith, length-rest n q)

length-drop-sub : (n : ℕ) (q : Text) → length (drop n q) ≡ length q - n
length-drop-sub zero q = omega arith
length-drop-sub (suc n) [] = omega arith
length-drop-sub (suc n) (x ∷ q) = omega (arith, length-drop-sub n q)

skip_rounds-IsStart :
    (k : ℕ) (q : Text) → length q ≤ k → IsStart (skip_rounds k q) × IsSuffix (skip_rounds k q) q
unfolding skip_rounds
skip_rounds-IsStart zero [] h = (tt, (0, omega arith, refl))
skip_rounds-IsStart zero (c ∷ q) h = absurd (omega arith)
skip_rounds-IsStart (suc k) q h =
    go (skip_round q) refl (skip_round-Progress q) (λ r. skip_rounds-IsStart k r)
  where
    go :
        (o : Round)
        → skip_round q ≡ o
        → Progress q o
        → ((r : Text) → length r ≤ k → IsStart (skip_rounds k r) × IsSuffix (skip_rounds k r) r)
        → IsStart (skip_rounds (suc k) q) × IsSuffix (skip_rounds (suc k) q) q
    go (done r) e p ih = rw (e, skip_rounds) p
    go (again r) e (n, l, er) ih =
        let shorter : length r ≤ k = rw er (omega (arith, length-rest n q l)) in
        let (start, (m, lm, em)) = ih r shorter in
        let bound : m ≤ length q - suc n = omega (arith, ap length er, length-drop-sub (suc n) q) in
        rw (e, skip_rounds)
          (start, (m + suc n, omega arith, em ∙ ap (drop m) er ∙ drop-drop m (suc n) q))

start-round : (q : Text) → IsStart q → skip_round q ≡ done q
unfolding skip_round
start-round [] h = refl
start-round (c ∷ []) h = rw (h, skip_round)
start-round (c ∷ d ∷ q) h = ground arith

-- skipLeadingComments returns an end of the query that is empty or begins with neither a space, nor
-- `--`, nor `/*`.
skip_leading_comments-IsStart :
    (q : Text) → IsStart (skip_leading_comments q) × IsSuffix (skip_leading_comments q) q
unfolding skip_leading_comments
skip_leading_comments-IsStart q = skip_rounds-IsStart (length q) q (le_refl _)

-- Skipping the leading comments of what skipLeadingComments returned changes nothing.
pub skip_leading_comments_idem :
    (q : Text) → skip_leading_comments (skip_leading_comments q) ≡ skip_leading_comments q
unfolding skip_leading_comments skip_rounds
skip_leading_comments_idem q = fixed (skip_leading_comments q) (skip_leading_comments-IsStart q).0
  where
    fixed : (r : Text) → IsStart r → skip_rounds (length r) r ≡ r
    fixed [] h = refl
    fixed (c ∷ r) h = rw (start-round (c ∷ r) h, skip_rounds)

pub starts_statement-has_prefix :
    (q s : Text) → starts_statement q s ≡ has_prefix (map to_upper q) s
unfolding starts_statement
starts_statement-has_prefix q s = elim (Bool-cases (ltb (length q) (length s))) [
  | inl short ↦ rw (short, starts_statement) (sym (too_short q s (ltb→lt _ _ short)))
  | inr long ↦ rw (long, starts_statement) (same q s)
]
  where
    too_short : (q s : Text) → length q < length s → has_prefix (map to_upper q) s ≡ false
    too_short q [] h = absurd (omega arith)
    too_short [] (b ∷ s) h = refl
    too_short (a ∷ q) (b ∷ s) h = ground (arith, too_short q s)

    same :
        (q s : Text)
        → has_prefix (map to_upper (take (length s) q)) s ≡ has_prefix (map to_upper q) s
    same [] [] = refl
    same (a ∷ q) [] = refl
    same [] (b ∷ s) = refl
    same (a ∷ q) (b ∷ s) = ground (arith, same q s)
