-- ===== src/Utils/Comments/Relation.antt =====
-- What the leading spaces and comments of a query are, said without the code of utils.go, and that
-- `skipLeadingComments` leaves what follows them.
use chproxy.Utils.Comments.Skips.{
  IsStart, Progress, skip_round-Progress, length-rest, starts_statement-has_prefix,
}
use chproxy.Utils.Comments.{
  Round, done, again, after_byte, close_comment, is_space, skip_round, skip_rounds,
  skip_leading_comments, can_cache_query, continue_with, to_upper,
}
use chproxy.Base.{
  All, Bool-cases, Text, [], all, ap, arith, bytes, false, has_prefix, inl, inr, le_refl, length,
  map, none, refl, some, subst, suc, sym, true, zero, ℕ, ◌&&◌, ◌++◌, ◌==◌, ◌||◌, ◌∷◌, ◌≡◌, ◌≢◌, ◌≤◌,
  ◌⊎◌,
}

-- No `*/` is in the text.
abbrev pub IsUnclosed : Text → Type 0
IsUnclosed t = (u v : Text) → t ≢ u ++ (b'*' ∷ b'/' ∷ v)

-- `Skips r q`: behind its leading spaces and comments, `q` goes on with `r`. A comment that is not
-- ended takes the rest of the query. The `*` that opens a comment may be that of its `*/`.
pub data Skips (r : Text) : Text → Type 0 where
  nothing : (q : Text) → q ≡ r → IsStart q → Skips r q
  space : (c : ℕ) (p : Text) → is_space c ≡ true → Skips r p → Skips r (c ∷ p)
  line :
      (q u t p : Text)
      → q ≡ b'-' ∷ b'-' ∷ u
      → q ≡ t ++ (b'\n' ∷ p)
      → All (λ c. c ≢ b'\n') t
      → Skips r p
      → Skips r q
  last_line : (q u : Text) → q ≡ b'-' ∷ b'-' ∷ u → All (λ c. c ≢ b'\n') q → r ≡ [] → Skips r q
  block :
      (q u t p : Text)
      → q ≡ b'/' ∷ b'*' ∷ u
      → b'*' ∷ u ≡ t ++ (b'*' ∷ b'/' ∷ p)
      → IsUnclosed (t ++ (b'*' ∷ []))
      → Skips r p
      → Skips r q
  last_block : (q u : Text) → q ≡ b'/' ∷ b'*' ∷ u → IsUnclosed (b'*' ∷ u) → r ≡ [] → Skips r q

after_byte-split :
    (b : ℕ) (q : Text)
    → ((after_byte b q ≡ none) × All (λ c. c ≢ b) q)
      ⊎ ((t : Text) × (p : Text) × (after_byte b q ≡ some p)
          × (q ≡ t ++ (b ∷ p))
          × All (λ c. c ≢ b) t)
unfolding after_byte
after_byte-split b [] = inl (refl, tt)
after_byte-split b (c ∷ q) = elim (Bool-cases (c == b)) [
  | inl hit ↦
      let e : c ≡ b = ground arith in
      rw (hit, after_byte) (inr ([], q, refl, ap (λ x. x ∷ q) e, tt))
  | inr miss ↦
      let ne : c ≢ b = λ e. ground arith in
      elim (after_byte-split b q) [
        | inl (e, h) ↦ rw (miss, e, after_byte) (inl (refl, (ne, h)))
        | inr (t, p, e, s, h) ↦
            rw (miss, e, after_byte) (inr (c ∷ t, p, refl, ap (λ x. c ∷ x) s, (ne, h)))
      ]
]

IsUnclosed-[] : IsUnclosed []
IsUnclosed-[] [] v e = cc
IsUnclosed-[] (x ∷ u) v e = cc

IsUnclosed-cons :
    (c : ℕ) (q : Text)
    → ((v : Text) → ¬ ((c ≡ b'*') × (q ≡ b'/' ∷ v)))
    → IsUnclosed q
    → IsUnclosed (c ∷ q)
IsUnclosed-cons c q h k [] v e = h v (cc, cc)
IsUnclosed-cons c q h k (x ∷ u) v e = k u v cc

close_comment-split :
    (q : Text)
    → ((close_comment q ≡ none) × IsUnclosed q)
      ⊎ ((t : Text) × (p : Text) × (close_comment q ≡ some p)
          × (q ≡ t ++ (b'*' ∷ b'/' ∷ p))
          × IsUnclosed (t ++ (b'*' ∷ [])))
unfolding close_comment
close_comment-split [] = inl (refl, IsUnclosed-[])
close_comment-split (c ∷ []) = inl (refl, IsUnclosed-cons c [] (λ v (e, e'). cc) IsUnclosed-[])
close_comment-split (c ∷ d ∷ q) = elim (Bool-cases (c == b'*' && d == b'/')) [
  | inl hit ↦
      let e : c ∷ d ∷ q ≡ b'*' ∷ b'/' ∷ q = ground arith in
      rw (hit, close_comment)
        (inr ([], q, refl, e, IsUnclosed-cons b'*' [] (λ v (e, e'). cc) IsUnclosed-[]))
  | inr miss ↦ elim (close_comment-split (d ∷ q)) [
    | inl (e, h) ↦
        rw (miss, e, close_comment)
          (inl (refl, IsUnclosed-cons c (d ∷ q) (λ v e. ground (arith, e.0, e.1, miss)) h))
    | inr (t, p, e, s, h) ↦
        rw (miss, e, close_comment)
          (inr (
            c ∷ t,
            p,
            refl,
            ap (λ x. c ∷ x) s,
            IsUnclosed-cons c (t ++ (b'*' ∷ [])) (not_closed t p s miss) h,
          ))
  ]
]
  where
    not_closed :
        (t p : Text)
        → d ∷ q ≡ t ++ (b'*' ∷ b'/' ∷ p)
        → (c == b'*' && d == b'/') ≡ false
        → (v : Text) → ¬ ((c ≡ b'*') × (t ++ (b'*' ∷ []) ≡ b'/' ∷ v))
    not_closed [] p s miss v (e, e') = cc
    not_closed (x ∷ t) p s miss v (e, e') = ground (arith, s, e, e', miss)

-- What a round says of the query: that is what is left, or that it has the rest of what it goes on
-- with.
abbrev Spec : Text → Round → Type 0
Spec q (done r) = Skips r q
Spec q (again p) = (r : Text) → Skips r p → Skips r q

line-Spec : (q u : Text) → q ≡ b'-' ∷ b'-' ∷ u → Spec q (continue_with (after_byte b'\n' q))
line-Spec q u h = elim (after_byte-split b'\n' q) [
  | inl (e, all) ↦ rw e (last_line q u h all refl)
  | inr (t, p, e, s, all) ↦ rw e (λ r rest. line q u t p h s all rest)
]

block-Spec : (q u : Text) → q ≡ b'/' ∷ b'*' ∷ u → Spec q (continue_with (close_comment (b'*' ∷ u)))
block-Spec q u h = elim (close_comment-split (b'*' ∷ u)) [
  | inl (e, h') ↦ rw e (last_block q u h h' refl)
  | inr (t, p, e, s, h') ↦ rw e (λ r rest. block q u t p h s h' rest)
]

stop-Spec : (q : Text) → skip_round q ≡ done q → Spec q (skip_round q)
stop-Spec q e = rw e (nothing q refl (subst (λ o. Progress q o) e (skip_round-Progress q)).0)

skip_round-Spec : (q : Text) → Spec q (skip_round q)
unfolding skip_round
skip_round-Spec [] = stop-Spec [] refl
skip_round-Spec (c ∷ []) = elim (Bool-cases (is_space c)) [
  | inl s ↦ rw (s, skip_round) (λ r rest. space c [] s rest)
  | inr s ↦ stop-Spec (c ∷ []) (rw (s, skip_round) refl)
]
skip_round-Spec (c ∷ d ∷ q) = elim (Bool-cases (is_space c)) [
  | inl s ↦ rw (s, skip_round) (λ r rest. space c (d ∷ q) s rest)
  | inr s ↦ elim (Bool-cases (c == b'-')) [
    | inl m ↦ elim (Bool-cases (d == b'-')) [
      | inl m' ↦ rw (s, m, m', skip_round) (line-Spec (c ∷ d ∷ q) q (ground (arith, m, m')))
      | inr m' ↦ stop-Spec (c ∷ d ∷ q) (rw (s, m, m', skip_round) refl)
    ]
    | inr m ↦ elim (Bool-cases (c == b'/')) [
      | inl v ↦ elim (Bool-cases (d == b'*')) [
        | inl v' ↦
            let e : d ≡ b'*' = ground (arith, v') in
            rw (s, m, v, v', skip_round)
              (subst (λ x. Spec (c ∷ d ∷ q) (continue_with (close_comment (x ∷ q)))) (sym e)
                (block-Spec (c ∷ d ∷ q) q (ground (arith, v, v'))))
        | inr v' ↦ stop-Spec (c ∷ d ∷ q) (rw (s, m, v, v', skip_round) refl)
      ]
      | inr v ↦ stop-Spec (c ∷ d ∷ q) (rw (s, m, v, skip_round) refl)
    ]
  ]
]

skip_rounds-Skips : (k : ℕ) (q : Text) → length q ≤ k → Skips (skip_rounds k q) q
unfolding skip_rounds
skip_rounds-Skips zero [] h = nothing [] refl tt
skip_rounds-Skips zero (c ∷ q) h = absurd (omega arith)
skip_rounds-Skips (suc k) q h =
    go (skip_round q) refl (skip_round-Progress q) (skip_round-Spec q) (skip_rounds-Skips k)
  where
    go :
        (o : Round)
        → skip_round q ≡ o
        → Progress q o
        → Spec q o
        → ((p : Text) → length p ≤ k → Skips (skip_rounds k p) p)
        → Skips (skip_rounds (suc k) q) q
    go (done r) e progress spec ih = rw (e, skip_rounds) spec
    go (again p) e (n, l, ep) spec ih =
        let shorter : length p ≤ k = rw ep (omega (arith, length-rest n q l)) in
        rw (e, skip_rounds) (spec (skip_rounds k p) (ih p shorter))

-- A query can be cached exactly when what follows its leading spaces and comments begins with SELECT
-- or WITH, in upper or lower case.
pub can_cache_query_lem :
    (q : Text)
    → (r : Text) × Skips r q
      × (can_cache_query q
          ≡ has_prefix (map to_upper r) (bytes "SELECT")
            || has_prefix (map to_upper r) (bytes "WITH"))
unfolding can_cache_query skip_leading_comments
can_cache_query_lem q =
    let r = skip_leading_comments q in
    (
      r,
      skip_rounds-Skips (length q) q (le_refl _),
      rw
          (
            starts_statement-has_prefix r (bytes "SELECT"),
            starts_statement-has_prefix r (bytes "WITH"),
          )
          (ground arith),
    )
