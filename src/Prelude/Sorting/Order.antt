-- ===== src/Prelude/Sorting/Order.antt =====
-- The sort puts a list in order, and keeps what Boolean searches find in it.
use mathlib.Core.Path.{◌≡◌, refl, ap, ◌∙◌}
use mathlib.Core.Logic.{◌⊎◌, inl, inr}
use mathlib.Core.Bool.{Bool, true, false, ◌||◌}
use mathlib.Core.List.{List, [], ◌∷◌, ◌++◌}
use native.Mathlib.Omega.{arith}
use logthing.Prelude.Tests.{Bool-cases}
use logthing.Prelude.Lists.{All, any}
use logthing.Prelude.Sorting.{insert_sorted, sort, IsSorted, All-insert_sorted, All-sort}

-- A comparison that sorting can go by.
pub record IsOrder {ℓ} {A : Type ℓ} (before_eq : A → A → Bool) : Type ℓ where
  pub total : (x y : A) → (before_eq x y ≡ true) ⊎ (before_eq y x ≡ true)
  pub trans : (x y z : A) → before_eq x y ≡ true → before_eq y z ≡ true → before_eq x z ≡ true

module _ {ℓ} {A : Type ℓ} (before_eq : A → A → Bool) where
  pub any-insert_sorted :
      (p : A → Bool) (x : A) (xs : List A)
      → any p (insert_sorted before_eq x xs) ≡ (p x || any p xs)
  unfolding insert_sorted
  any-insert_sorted p x [] = refl
  any-insert_sorted p x (y ∷ ys) = ground (arith, any-insert_sorted p x ys)

  pub any-sort : (p : A → Bool) (xs : List A) → any p (sort before_eq xs) ≡ any p xs
  unfolding sort
  any-sort p [] = refl
  any-sort p (x ∷ xs) = any-insert_sorted p x (sort before_eq xs) ∙ rw (any-sort p xs)

  insert_sorted-least :
      (m : A) (xs : List A)
      → All (λ x. before_eq m x ≡ true) xs
      → insert_sorted before_eq m xs ≡ m ∷ xs
  unfolding insert_sorted
  insert_sorted-least m [] h = refl
  insert_sorted-least m (x ∷ xs) (e, h) = rw e

  insert_sorted-greater :
      (x m : A) (xs : List A)
      → before_eq x m ≡ false
      → insert_sorted before_eq x (m ∷ xs) ≡ m ∷ insert_sorted before_eq x xs
  unfolding insert_sorted
  insert_sorted-greater x m xs e = rw e

  -- What is less than all before it, and not greater than any behind it, comes first.
  pub sort-least :
      (m : A) (xs ys : List A)
      → All (λ x. before_eq x m ≡ false) xs
      → All (λ y. before_eq m y ≡ true) ys
      → sort before_eq (xs ++ m ∷ ys) ≡ m ∷ sort before_eq (xs ++ ys)
  unfolding sort
  sort-least m [] ys h k =
      insert_sorted-least m (sort before_eq ys)
        (All-sort before_eq (λ y. before_eq m y ≡ true) ys k)
  sort-least m (x ∷ xs) ys (e, h) k =
      ap (insert_sorted before_eq x) (sort-least m xs ys h k)
      ∙ insert_sorted-greater x m (sort before_eq (xs ++ ys)) e

  module _ (o : IsOrder before_eq) where
    All-trans :
        (x y : A) (ys : List A)
        → before_eq x y ≡ true
        → All (λ z. before_eq y z ≡ true) ys
        → All (λ z. before_eq x z ≡ true) ys
    All-trans x y [] h _ = tt
    All-trans x y (z ∷ ys) h (p, ps) = (o.trans x y z h p, All-trans x y ys h ps)

    flip : (x y : A) → before_eq x y ≡ false → before_eq y x ≡ true
    flip x y h = elim (o.total x y) [ inl e ↦ cc | inr e ↦ e ]

    insert_sorted-IsSorted :
        (x : A) (xs : List A)
        → IsSorted before_eq xs
        → IsSorted before_eq (insert_sorted before_eq x xs)
    unfolding insert_sorted
    insert_sorted-IsSorted x [] s = (tt, tt)
    insert_sorted-IsSorted x (y ∷ ys) (a, s) = elim (Bool-cases (before_eq x y)) [
      | inl e ↦ rw e ((e, All-trans x y ys e a), (a, s))
      | inr e ↦ rw e (
        All-insert_sorted before_eq (λ z. before_eq y z ≡ true) x ys (flip x y e) a,
        insert_sorted-IsSorted x ys s,
      )
    ]

    pub sort-IsSorted : (xs : List A) → IsSorted before_eq (sort before_eq xs)
    unfolding sort
    sort-IsSorted [] = tt
    sort-IsSorted (x ∷ xs) = insert_sorted-IsSorted x (sort before_eq xs) (sort-IsSorted xs)
