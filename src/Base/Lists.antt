-- ===== src/Base/Lists.antt =====
-- Lists measured and indexed by native numbers, under the library's names, and predicates on them.
use Prim.Native.Nat.{ℕ, zero, suc, ◌+◌, ◌<◌}
use mathlib.Core.Path.{◌≡◌, refl, ap}
use mathlib.Core.Logic.{◌≢◌}
use mathlib.Core.Bool.{Bool, true, false, ◌&&◌, ◌||◌}
use mathlib.Core.List.{List, [], ◌∷◌, ◌++◌}
use mathlib.Core.Option.{Option, none, some}
use native.Mathlib.Omega.{arith}
use chproxy.Base.Tests.{◌>>=◌, ◌==◌, if◌then◌else◌}

module _ {ℓ} {A : Type ℓ} where
  abbrev pub length : List A → ℕ
  length [] = 0
  length (x ∷ xs) = suc (length xs)

  abbrev pub get_elem? : List A → ℕ → Option A
  get_elem? [] i = none
  get_elem? (x ∷ xs) zero = some x
  get_elem? (x ∷ xs) (suc i) = get_elem? xs i

  abbrev pub take : ℕ → List A → List A
  take zero xs = []
  take (suc n) [] = []
  take (suc n) (x ∷ xs) = x ∷ take n xs

  abbrev pub drop : ℕ → List A → List A
  drop zero xs = xs
  drop (suc n) [] = []
  drop (suc n) (x ∷ xs) = drop n xs

  -- Apply a function at one place; out of range nothing changes.
  abbrev pub modify : ℕ → (A → A) → List A → List A
  modify i f [] = []
  modify zero f (x ∷ xs) = f x ∷ xs
  modify (suc i) f (x ∷ xs) = x ∷ modify i f xs

  abbrev pub replicate : ℕ → A → List A
  replicate zero x = []
  replicate (suc n) x = x ∷ replicate n x

  abbrev pub any : (A → Bool) → List A → Bool
  any p [] = false
  any p (x ∷ xs) = p x || any p xs

  abbrev pub all : (A → Bool) → List A → Bool
  all p [] = true
  all p (x ∷ xs) = p x && all p xs

  abbrev pub All {κ} : (A → Type κ) → List A → Type κ
  All P [] = Unit
  All P (x ∷ xs) = P x × All P xs

module _ {ℓ} {A : Type ℓ} where
  pub length-append : (xs ys : List A) → length (xs ++ ys) ≡ length xs + length ys
  length-append [] ys = omega arith
  length-append (x ∷ xs) ys = omega (arith, length-append xs ys)

  pub length-modify : (i : ℕ) (f : A → A) (xs : List A) → length (modify i f xs) ≡ length xs
  length-modify i f [] = refl
  length-modify zero f (x ∷ xs) = refl
  length-modify (suc i) f (x ∷ xs) = ap suc (length-modify i f xs)

  pub get_elem?-modify_self :
      (i : ℕ) (f : A → A) (xs : List A) {x : A}
      → get_elem? xs i ≡ some x
      → get_elem? (modify i f xs) i ≡ some (f x)
  get_elem?-modify_self i f [] h = cc
  get_elem?-modify_self zero f (y ∷ xs) h = ground arith
  get_elem?-modify_self (suc i) f (y ∷ xs) h = get_elem?-modify_self i f xs h

  pub get_elem?-modify_ne :
      {i j : ℕ} (f : A → A) (xs : List A) → i ≢ j → get_elem? (modify i f xs) j ≡ get_elem? xs j
  get_elem?-modify_ne f [] h = refl
  get_elem?-modify_ne {i = zero} {j = zero} f (x ∷ xs) h = absurd (h refl)
  get_elem?-modify_ne {i = zero} {j = suc j} f (x ∷ xs) h = refl
  get_elem?-modify_ne {i = suc i} {j = zero} f (x ∷ xs) h = refl
  get_elem?-modify_ne {i = suc i} {j = suc j} f (x ∷ xs) h =
      get_elem?-modify_ne f xs (λ e. h (ap suc e))

  pub get_elem?-lt : (xs : List A) (i : ℕ) → i < length xs → (x : A) × (get_elem? xs i ≡ some x)
  get_elem?-lt [] i h = elim h [ ]
  get_elem?-lt (x ∷ xs) zero h = (x, refl)
  get_elem?-lt (x ∷ xs) (suc i) h = get_elem?-lt xs i (omega arith)

  pub lt-get_elem? : (xs : List A) (i : ℕ) {x : A} → get_elem? xs i ≡ some x → i < length xs
  lt-get_elem? [] i h = cc
  lt-get_elem? (y ∷ xs) zero h = omega arith
  lt-get_elem? (y ∷ xs) (suc i) h = omega (arith, lt-get_elem? xs i h)

  pub take-length-append : (xs ys : List A) → take (length xs) (xs ++ ys) ≡ xs
  take-length-append [] ys = refl
  take-length-append (x ∷ xs) ys = ap (◌∷◌ x) (take-length-append xs ys)

  pub drop-length-append : (xs ys : List A) → drop (length xs) (xs ++ ys) ≡ ys
  drop-length-append [] ys = refl
  drop-length-append (x ∷ xs) ys = drop-length-append xs ys

module _ {ℓ κ} {A : Type ℓ} {B : Type κ} (f : A → A) (g : A → Option B) where
  -- A change that a reader does not see.
  pub modify_unseen :
      ((x : A) → g (f x) ≡ g x)
      → (i j : ℕ) (xs : List A) → (get_elem? (modify i f xs) j >>= g) ≡ (get_elem? xs j >>= g)
  modify_unseen h i j [] = refl
  modify_unseen h zero zero (x ∷ xs) = h x
  modify_unseen h zero (suc j) (x ∷ xs) = refl
  modify_unseen h (suc i) zero (x ∷ xs) = refl
  modify_unseen h (suc i) (suc j) (x ∷ xs) = modify_unseen h i j xs

module _ {ℓ} {A : Type ℓ} where
  pub any_of_get :
      (p : A → Bool) (xs : List A) (i : ℕ) {x : A}
      → get_elem? xs i ≡ some x
      → p x ≡ true
      → any p xs ≡ true
  any_of_get p [] i e h = cc
  any_of_get p (y ∷ xs) zero e h = ground arith
  any_of_get p (y ∷ xs) (suc i) e h = ground (arith, any_of_get p xs i e h)

  -- A change at one place that is undone there.
  pub modify_undo :
      (f g : A → A) (i : ℕ) (xs : List A)
      → ((x : A) → get_elem? xs i ≡ some x → f (g x) ≡ x)
      → modify i f (modify i g xs) ≡ xs
  modify_undo f g i [] h = refl
  modify_undo f g zero (x ∷ xs) h = ap (λ y. y ∷ xs) (h x refl)
  modify_undo f g (suc i) (x ∷ xs) h = ap (◌∷◌ x) (modify_undo f g i xs h)

  pub drop-length : (xs : List A) → drop (length xs) xs ≡ []
  drop-length [] = refl
  drop-length (x ∷ xs) = drop-length xs

  abbrev pub map_option : (A → A) → Option A → Option A
  map_option f none = none
  map_option f (some x) = some (f x)

  pub get_elem?-modify :
      (i j : ℕ) (f : A → A) (xs : List A)
      → get_elem? (modify i f xs) j
        ≡ (if i == j then map_option f (get_elem? xs j) else get_elem? xs j)
  get_elem?-modify i j f [] = ground arith
  get_elem?-modify zero zero f (x ∷ xs) = refl
  get_elem?-modify zero (suc j) f (x ∷ xs) = ground arith
  get_elem?-modify (suc i) zero f (x ∷ xs) = ground arith
  get_elem?-modify (suc i) (suc j) f (x ∷ xs) = ground (arith, get_elem?-modify i j f xs)
