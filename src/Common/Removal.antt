-- ===== src/Common/Removal.antt =====
-- A list without one of its elements.
use Prim.Native.Nat.{ℕ, zero, suc}
use mathlib.Core.Path.{◌≡◌, refl}
use mathlib.Core.Logic.{inl, inr}
use mathlib.Core.List.{List, [], ◌∷◌, ◌++◌}
use mathlib.Core.Option.{Option, none, some}
use native.Mathlib.Omega.{arith}
use yeet_yoink.Common.Tests.{Option-cases}
use yeet_yoink.Common.Lists.{length, get_elem?}

module _ {ℓ} {A : Type ℓ} where
  -- An element, and the list without it.
  abbrev pub remove_at : List A → ℕ → Option (A × List A)
  remove_at [] i = none
  remove_at (x ∷ xs) zero = some (x, xs)
  remove_at (x ∷ xs) (suc i) = elim (remove_at xs i) [
    | none ↦ none
    | some (y, ys) ↦ some (y, x ∷ ys)
  ]

  pub length-remove_at :
      (xs : List A) (i : ℕ) {y : A} {ys : List A}
      → remove_at xs i ≡ some (y, ys)
      → length xs ≡ suc (length ys)
  length-remove_at [] i h = cc
  length-remove_at (x ∷ xs) zero h = ground arith
  length-remove_at (x ∷ xs) (suc i) h = elim (Option-cases (remove_at xs i)) [
    | inl e ↦ absurd (ground arith)
    | inr ((z, zs), e) ↦ ground (arith, length-remove_at xs i e)
  ]

  pub remove_at-elem :
      (xs : List A) (i j : ℕ) {y z : A} {ys : List A}
      → remove_at xs i ≡ some (y, ys)
      → get_elem? ys j ≡ some z
      → (k : ℕ) × (get_elem? xs k ≡ some z)
  remove_at-elem [] i j h g = cc
  remove_at-elem (x ∷ xs) zero j h g = (suc j, ground (arith, h, g))
  remove_at-elem (x ∷ xs) (suc i) zero h g = elim (Option-cases (remove_at xs i)) [
    | inl e ↦ absurd (ground arith)
    | inr (w, e) ↦ (0, ground (arith, h, g, e))
  ]
  remove_at-elem (x ∷ xs) (suc i) (suc j) {z = z} h g = elim (Option-cases (remove_at xs i)) [
    | inl e ↦ absurd (ground arith)
    | inr ((w, ws), e) ↦
        let later : get_elem? ws j ≡ some z = ground (arith, h, g, e) in
        let (k, f) = remove_at-elem xs i j e later in (suc k, f)
  ]

  pub remove_at-last : (xs : List A) (y : A) → remove_at (xs ++ y ∷ []) (length xs) ≡ some (y, xs)
  remove_at-last [] y = refl
  remove_at-last (x ∷ xs) y = ground (arith, remove_at-last xs y)

  pub remove_at-some :
      (xs : List A) (i : ℕ) {y : A}
      → get_elem? xs i ≡ some y
      → (ys : List A) × (remove_at xs i ≡ some (y, ys))
  remove_at-some [] i h = cc
  remove_at-some (x ∷ xs) zero h = (xs, ground arith)
  remove_at-some (x ∷ xs) (suc i) h =
      let (ys, e) = remove_at-some xs i h in (x ∷ ys, ground (arith, e))
