-- ===== src/Config/Validate/Wildcards.antt =====
-- The names of wildcarded users that config/config.go accepts, as proxy.go reads them.
use chproxy.Base.{
  Bool-cases, List, Text, [], ap, arith, drop, has_prefix, has_suffix, inl, inr, length, none, refl,
  some, text_eq, true, ℕ, ◌&&◌, ◌++◌, ◌-◌, ◌==◌, ◌∙◌, ◌∷◌, ◌≡◌, ◌≢◌, ◌⊎◌,
}
use chproxy.Config.Validate.{
  first_error, split_stars, is_wildcard, validate_wildcarded, validate_rate_limit_config,
  validate_user,
}
use chproxy.Setup.Find.{before_star, behind_star, split_star, fits_pattern}
use chproxy.Setup.Types.{UserConfig}

append_part : (part : Text) (c : ℕ) (t : Text) → (part ++ (c ∷ [])) ++ t ≡ part ++ (c ∷ t)
append_part [] c t = refl
append_part (x ∷ part) c t = ap (◌∷◌ x) (append_part part c t)

append_nil : (t : Text) → t ++ [] ≡ t
append_nil [] = refl
append_nil (x ∷ t) = ap (◌∷◌ x) (append_nil t)

never_one : (part t : Text) → split_stars part t ≢ []
unfolding split_stars
never_one part [] = λ e. cc
never_one part (c ∷ t) = ground (arith, never_one (part ++ (c ∷ [])) t)

one_part :
    (part t : Text) {b : Text} → split_stars part t ≡ b ∷ [] → (b ≡ part ++ t) × (before_star t ≡ t)
unfolding split_stars before_star
one_part part [] e = (ground (arith, append_nil part), refl)
one_part part (c ∷ t) {b} e = elim (Bool-cases (c == b'*')) [
  | inl star ↦ absurd (never_one [] t (ground arith))
  | inr other ↦
      let (same, rest) = one_part (part ++ (c ∷ [])) t {b = b} (ground arith) in
      (same ∙ append_part part c t, rw (other, before_star) (ap (◌∷◌ c) rest))
]

-- A name with one star.
two_parts :
    (part t : Text) {a b : Text}
    → split_stars part t ≡ a ∷ b ∷ []
    → (a ≡ part ++ before_star t) × (behind_star t ≡ some b) × (t ≡ before_star t ++ (b'*' ∷ b))
unfolding split_stars before_star behind_star
two_parts part [] e = cc
two_parts part (c ∷ t) {a} {b} e = elim (Bool-cases (c == b'*')) [
  | inl star ↦
      let (same, rest) = one_part [] t {b = b} (ground arith) in
      ground (arith, same, rest, append_nil part)
  | inr other ↦
      let (same, behind, whole) = two_parts (part ++ (c ∷ [])) t {a = a} {b = b} (ground arith) in
      (
        same ∙ append_part part c (before_star t) ∙ rw (other, before_star) refl,
        rw (other, behind_star) behind,
        rw (other, before_star) (ap (◌∷◌ c) whole),
      )
]

drop_all : (s : Text) → drop (length s) s ≡ []
drop_all [] = refl
drop_all (x ∷ s) = drop_all s

has_suffix-nil : (s : Text) → has_suffix s [] ≡ true
unfolding has_suffix text_eq
has_suffix-nil s =
    let whole : length s - 0 ≡ length s = omega arith in rw (whole, drop_all s) (ground arith)

wildcard_parts :
    (parts : List Text)
    → is_wildcard parts ≡ true
    → (a : Text) × (b : Text) × (parts ≡ a ∷ b ∷ []) × ((a ≡ []) ⊎ (b ≡ []))
unfolding is_wildcard
wildcard_parts [] h = cc
wildcard_parts (a ∷ []) h = cc
wildcard_parts ([] ∷ b ∷ []) h = ([], b, refl, inl refl)
wildcard_parts ((x ∷ a) ∷ [] ∷ []) h = (x ∷ a, [], refl, inr refl)
wildcard_parts ((x ∷ a) ∷ (y ∷ b) ∷ []) h = cc
wildcard_parts (a ∷ b ∷ c ∷ parts) h = cc

validate_user-wildcard :
    (u : UserConfig)
    → validate_user u ≡ none
    → u.is_wildcarded ≡ true
    → is_wildcard (split_stars [] u.name) ≡ true
unfolding validate_user validate_wildcarded validate_rate_limit_config first_error
validate_user-wildcard u valid wild = ground arith

-- The name of a wildcarded user that is accepted has one star, at its end or at its beginning, and
-- it fits just the names that begin with what is before the star and end with what is behind it: no
-- name makes the test of a name panic.
validate_user-fits :
    (u : UserConfig) (name : Text)
    → validate_user u ≡ none
    → u.is_wildcarded ≡ true
    → (prefix : Text) × (suffix : Text) × (u.name ≡ prefix ++ (b'*' ∷ suffix))
      × ((prefix ≡ []) ⊎ (suffix ≡ []))
      × (fits_pattern (split_star u.name) name
          ≡ some (has_prefix name prefix && has_suffix name suffix))
unfolding split_star fits_pattern has_prefix
validate_user-fits u name valid wild =
    let (a, b, parts, ends) =
      wildcard_parts (split_stars [] u.name) (validate_user-wildcard u valid wild) in
    let (same, behind, whole) = two_parts [] u.name parts in
    let prefix = before_star u.name in
    let start : (prefix ≡ []) ⊎ (b ≡ []) = ground arith in
    (prefix, b, whole, start, rw (behind, fits_pattern) (ground (arith, has_suffix-nil name)))
