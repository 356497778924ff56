-- ===== src/Prelude/Sorting/Again.antt =====
-- Sorting a list whose first part is sorted already gives what sorting the whole list gives, where
-- the order tells all elements of that part apart.
use mathlib.Core.Path.{◌≡◌, refl, sym, ap, ◌∙◌}
use mathlib.Core.Logic.{inl, inr}
use mathlib.Core.Bool.{Bool, true, false, not}
use mathlib.Core.List.{List, [], ◌∷◌, ◌++◌}
use native.Mathlib.Omega.{arith}
use logthing.Prelude.Tests.{Bool-cases}
use logthing.Prelude.Lists.{All}
use logthing.Prelude.Sorting.{insert_sorted, sort, All-sort}
use logthing.Prelude.Sorting.Order.{IsOrder}

module _ {ℓ} {A : Type ℓ} (before_eq : A → A → Bool) (o : IsOrder before_eq) where
  -- One of the two goes before the other, and not the other way round.
  abbrev pub AreApart : A → A → Type 0
  AreApart x y = before_eq x y ≡ not (before_eq y x)

  abbrev pub AllApart : List A → Type 0
  AllApart [] = Unit
  AllApart (x ∷ xs) = All (AreApart x) xs × AllApart xs

  not_before : (x y z : A) → before_eq y z ≡ true → before_eq x z ≡ false → before_eq x y ≡ false
  not_before x y z h k = elim (Bool-cases (before_eq x y)) [
    | inl e ↦ cc (o.trans x y z e h)
    | inr e ↦ e
  ]

  insert_sorted_comm :
      (x y : A) (xs : List A)
      → AreApart x y
      → insert_sorted before_eq x (insert_sorted before_eq y xs)
        ≡ insert_sorted before_eq y (insert_sorted before_eq x xs)
  unfolding insert_sorted
  insert_sorted_comm x y [] a = elim (Bool-cases (before_eq y x)) [
    | inl e ↦ let e' : before_eq x y ≡ false = cc in rw (e, e')
    | inr e ↦ let e' : before_eq x y ≡ true = cc in rw (e, e')
  ]
  insert_sorted_comm x y (z ∷ zs) a = elim (Bool-cases (before_eq y z)) [
    | inl ey ↦ elim (Bool-cases (before_eq x z)) [
      | inl ex ↦ elim (Bool-cases (before_eq y x)) [
        | inl e ↦ let e' : before_eq x y ≡ false = cc in rw (ey, ex, e, e')
        | inr e ↦ let e' : before_eq x y ≡ true = cc in rw (ey, ex, e, e', ey)
      ]
      | inr ex ↦ ground (arith, not_before x y z ey ex)
    ]
    | inr ey ↦ elim (Bool-cases (before_eq x z)) [
      | inl ex ↦ ground (arith, not_before y x z ex ey)
      | inr ex ↦ rw (ey, ex, ey) (ap (◌∷◌ z) (insert_sorted_comm x y zs a))
    ]
  ]

  insert_all : List A → List A → List A
  insert_all [] ys = ys
  insert_all (x ∷ xs) ys = insert_sorted before_eq x (insert_all xs ys)

  sort-append : (xs ys : List A) → sort before_eq (xs ++ ys) ≡ insert_all xs (sort before_eq ys)
  unfolding sort insert_all
  sort-append [] ys = refl
  sort-append (x ∷ xs) ys = ap (insert_sorted before_eq x) (sort-append xs ys)

  insert_all-insert_sorted :
      (x : A) (xs ys : List A)
      → All (AreApart x) xs
      → insert_all (insert_sorted before_eq x xs) ys ≡ insert_sorted before_eq x (insert_all xs ys)
  unfolding insert_sorted insert_all
  insert_all-insert_sorted x [] ys a = refl
  insert_all-insert_sorted x (z ∷ zs) ys (a, rest) = elim (Bool-cases (before_eq x z)) [
    | inl e ↦ rw e
    | inr e ↦ rw e (
        ap (insert_sorted before_eq z) (insert_all-insert_sorted x zs ys rest)
        ∙ sym (insert_sorted_comm x z (insert_all zs ys) a))
  ]

  insert_all-sort :
      (xs ys : List A) → AllApart xs → insert_all (sort before_eq xs) ys ≡ insert_all xs ys
  unfolding sort insert_all
  insert_all-sort [] ys a = refl
  insert_all-sort (x ∷ xs) ys (a, rest) =
      insert_all-insert_sorted x (sort before_eq xs) ys (All-sort before_eq (AreApart x) xs a)
      ∙ ap (insert_sorted before_eq x) (insert_all-sort xs ys rest)

  pub sort-sort-append :
      (xs ys : List A)
      → AllApart xs
      → sort before_eq (sort before_eq xs ++ ys) ≡ sort before_eq (xs ++ ys)
  sort-sort-append xs ys a =
      sort-append (sort before_eq xs) ys
      ∙ insert_all-sort xs (sort before_eq ys) a
      ∙ sym (sort-append xs ys)
