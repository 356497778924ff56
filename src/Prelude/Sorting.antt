-- ===== src/Prelude/Sorting.antt =====
-- A stable sort by a Boolean comparison, for the sorting functions of the two standard libraries.
pub mod Order
pub mod Again
use mathlib.Core.Path.{◌≡◌, refl}
use mathlib.Core.Logic.{◌⊎◌, inl, inr}
use mathlib.Core.Bool.{Bool, true, false, ◌||◌}
use mathlib.Core.List.{List, [], ◌∷◌, Perm}
use mathlib.Core.List.Perm
use native.Mathlib.Omega.{arith}
use logthing.Prelude.Tests.{if◌then◌else◌, Bool-cases}
use logthing.Prelude.Lists.{All, All-keep, any, keep}

module _ {ℓ} {A : Type ℓ} (before_eq : A → A → Bool) where
  -- `x` goes before the first element that it does not follow.
  unfoldable pub insert_sorted : A → List A → List A
  insert_sorted x [] = x ∷ []
  insert_sorted x (y ∷ ys) =
      let rest = insert_sorted x ys in if before_eq x y then x ∷ y ∷ ys else y ∷ rest

  unfoldable pub sort : List A → List A
  unfolding insert_sorted
  sort [] = []
  sort (x ∷ xs) = insert_sorted x (sort xs)

  abbrev pub IsSorted : List A → Type ℓ
  IsSorted [] = Unit
  IsSorted (x ∷ xs) = All (λ y. before_eq x y ≡ true) xs × IsSorted xs

  pub keep-IsSorted : (p : A → Bool) (xs : List A) → IsSorted xs → IsSorted (keep p xs)
  keep-IsSorted p [] h = tt
  keep-IsSorted p (x ∷ xs) (a, h) = elim (Bool-cases (p x)) [
    | inl e ↦ rw e (All-keep _ p xs a, keep-IsSorted p xs h)
    | inr e ↦ rw e (keep-IsSorted p xs h)
  ]

  module _ {κ} (P : A → Type κ) where
    pub All-insert_sorted : (x : A) (xs : List A) → P x → All P xs → All P (insert_sorted x xs)
    unfolding insert_sorted
    All-insert_sorted x [] p h = (p, tt)
    All-insert_sorted x (y ∷ ys) p (q, h) = elim (Bool-cases (before_eq x y)) [
      | inl e ↦ rw e (p, (q, h))
      | inr e ↦ rw e (q, All-insert_sorted x ys p h)
    ]

    pub All-sort : (xs : List A) → All P xs → All P (sort xs)
    unfolding sort
    All-sort [] h = tt
    All-sort (x ∷ xs) (p, h) = All-insert_sorted x (sort xs) p (All-sort xs h)
