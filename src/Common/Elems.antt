-- ===== src/Common/Elems.antt =====
-- The elements of a list by their places, after a write and after an append.
use Prim.Native.Nat.{ℕ, zero, suc, ◌<◌}
use mathlib.Core.Path.{◌≡◌, refl, ap}
use mathlib.Core.Logic.{◌≢◌, ◌⊎◌, inl, inr}
use mathlib.Core.List.{List, [], ◌∷◌, ◌++◌}
use mathlib.Core.Option.{some}
use native.Mathlib.Omega.{arith}
use yeet_yoink.Common.Lists.{length, get_elem?, set}

module _ {ℓ} {A : Type ℓ} where
  -- An element after a write at `i`: the new one there, the old one elsewhere.
  pub get_elem?-set :
      (xs : List A) (i j : ℕ) (x : A) {y : A}
      → get_elem? (set xs i x) j ≡ some y
      → ((i ≡ j) × (y ≡ x)) ⊎ ((i ≢ j) × (get_elem? xs j ≡ some y))
  get_elem?-set [] i j x h = cc
  get_elem?-set (z ∷ xs) zero zero x h = inl (refl, cc)
  get_elem?-set (z ∷ xs) zero (suc j) x h = inr ((λ e. omega arith), h)
  get_elem?-set (z ∷ xs) (suc i) zero x h = inr ((λ e. omega arith), h)
  get_elem?-set (z ∷ xs) (suc i) (suc j) x h = elim (get_elem?-set xs i j x h) [
    | inl (e, f) ↦ inl (ap suc e, f)
    | inr (n, f) ↦ inr ((λ e. n (omega arith)), f)
  ]

  pub get_elem?-set_self :
      (xs : List A) (i : ℕ) {y : A} (x : A)
      → get_elem? xs i ≡ some y
      → get_elem? (set xs i x) i ≡ some x
  get_elem?-set_self [] i x h = cc
  get_elem?-set_self (z ∷ xs) zero x h = refl
  get_elem?-set_self (z ∷ xs) (suc i) x h = get_elem?-set_self xs i x h

  pub get_elem?-set_ne :
      (xs : List A) (i j : ℕ) (x : A) → i ≢ j → get_elem? (set xs i x) j ≡ get_elem? xs j
  get_elem?-set_ne [] i j x n = refl
  get_elem?-set_ne (z ∷ xs) zero zero x n = absurd (n refl)
  get_elem?-set_ne (z ∷ xs) zero (suc j) x n = refl
  get_elem?-set_ne (z ∷ xs) (suc i) zero x n = refl
  get_elem?-set_ne (z ∷ xs) (suc i) (suc j) x n = get_elem?-set_ne xs i j x (λ e. n (ap suc e))

  -- An element after an append: the new last one, or an old one.
  pub get_elem?-snoc :
      (xs : List A) (j : ℕ) (x : A) {y : A}
      → get_elem? (xs ++ x ∷ []) j ≡ some y
      → ((j ≡ length xs) × (y ≡ x)) ⊎ (get_elem? xs j ≡ some y)
  get_elem?-snoc [] zero x h = inl (refl, cc)
  get_elem?-snoc [] (suc j) x h = cc
  get_elem?-snoc (z ∷ xs) zero x h = inr h
  get_elem?-snoc (z ∷ xs) (suc j) x h = elim (get_elem?-snoc xs j x h) [
    | inl (e, f) ↦ inl (ap suc e, f)
    | inr f ↦ inr f
  ]

  pub get_elem?-append :
      (xs ys : List A) (j : ℕ) {y : A} → get_elem? xs j ≡ some y → get_elem? (xs ++ ys) j ≡ some y
  get_elem?-append [] ys j h = cc
  get_elem?-append (z ∷ xs) ys zero h = h
  get_elem?-append (z ∷ xs) ys (suc j) h = get_elem?-append xs ys j h

  pub length-set : (xs : List A) (i : ℕ) (x : A) → length (set xs i x) ≡ length xs
  length-set [] i x = refl
  length-set (z ∷ xs) zero x = refl
  length-set (z ∷ xs) (suc i) x = ap suc (length-set xs i x)

  pub set-last : (xs : List A) (y z : A) → set (xs ++ y ∷ []) (length xs) z ≡ xs ++ z ∷ []
  set-last [] y z = refl
  set-last (x ∷ xs) y z = ap (◌∷◌ x) (set-last xs y z)

  pub get_elem?-lt : (xs : List A) (i : ℕ) {y : A} → get_elem? xs i ≡ some y → i < length xs
  get_elem?-lt [] i h = cc
  get_elem?-lt (z ∷ xs) zero h = omega arith
  get_elem?-lt (z ∷ xs) (suc i) h = omega (arith, get_elem?-lt xs i h)

  pub get_elem?-of_lt : (xs : List A) (i : ℕ) → i < length xs → (x : A) × (get_elem? xs i ≡ some x)
  get_elem?-of_lt [] i h = absurd (omega arith)
  get_elem?-of_lt (z ∷ xs) zero h = (z, refl)
  get_elem?-of_lt (z ∷ xs) (suc i) h = get_elem?-of_lt xs i (omega arith)

  pub get_elem?-last : (xs : List A) (x : A) → get_elem? (xs ++ x ∷ []) (length xs) ≡ some x
  get_elem?-last [] x = refl
  get_elem?-last (z ∷ xs) x = get_elem?-last xs x
