-- ===== src/Prelude/Lists.antt =====
-- Lists over the native numbers, Boolean searches in them, and predicates on all their elements.
use Prim.Native.Nat.{ℕ, zero, suc, ◌+◌, ◌≤◌}
use mathlib.Core.Path.{◌≡◌, refl, sym, subst}
use mathlib.Core.Logic.{inl, inr}
use mathlib.Core.Bool.{Bool, true, false, ◌||◌}
use mathlib.Core.List.{List, [], ◌∷◌, ◌++◌, Memᴰ}
use native.Mathlib.Omega.{arith}
use logthing.Prelude.Tests.{if◌then◌else◌, Bool-cases}

module _ {ℓ} {A : Type ℓ} where
  abbrev pub length : List A → ℕ
  length [] = 0
  length (x ∷ xs) = suc (length xs)

  abbrev pub take : ℕ → List A → List A
  take zero xs = []
  take (suc n) [] = []
  take (suc n) (x ∷ xs) = x ∷ take n xs

  abbrev pub drop : ℕ → List A → List A
  drop zero xs = xs
  drop (suc n) [] = []
  drop (suc n) (x ∷ xs) = drop n xs

  pub take-none : (n : ℕ) → take n [] ≡ []
  take-none zero = refl
  take-none (suc n) = refl

  pub drop-none : (n : ℕ) → drop n [] ≡ []
  drop-none zero = refl
  drop-none (suc n) = refl

  -- `filter` by a Boolean test.
  abbrev pub keep : (A → Bool) → List A → List A
  keep p [] = []
  keep p (x ∷ xs) = let rest = keep p xs in if p x then x ∷ rest else rest

  abbrev pub any : (A → Bool) → List A → Bool
  any p [] = false
  any p (x ∷ xs) = p x || any p xs

  pub length-append : (xs ys : List A) → length (xs ++ ys) ≡ length xs + length ys
  length-append [] ys = omega arith
  length-append (x ∷ xs) ys = omega (arith, length-append xs ys)

  pub length-take-le : (n : ℕ) (xs : List A) → length (take n xs) ≤ n
  length-take-le zero xs = omega arith
  length-take-le (suc n) [] = omega arith
  length-take-le (suc n) (x ∷ xs) = omega (arith, length-take-le n xs)

  pub any-append : (p : A → Bool) (xs ys : List A) → any p (xs ++ ys) ≡ (any p xs || any p ys)
  any-append p [] ys = refl
  any-append p (x ∷ xs) ys = ground (arith, any-append p xs ys)

module _ {ℓ κ} {A : Type ℓ} (P : A → Type κ) where
  abbrev pub All : List A → Type κ
  All [] = Unit
  All (x ∷ xs) = P x × All xs

  pub All-append : (xs ys : List A) → All xs → All ys → All (xs ++ ys)
  All-append [] ys _ k = k
  All-append (x ∷ xs) ys (p, h) k = (p, All-append xs ys h k)

  pub All_split : (xs ys : List A) → All (xs ++ ys) → All xs × All ys
  All_split [] ys h = (tt, h)
  All_split (x ∷ xs) ys (p, h) = let (a, b) = All_split xs ys h in ((p, a), b)

  pub All-keep : (q : A → Bool) (xs : List A) → All xs → All (keep q xs)
  All-keep q [] h = tt
  All-keep q (x ∷ xs) (p, h) = All-keep_step (q x) (All-keep q xs h)
    where
      All-keep_step : (b : Bool) → All (keep q xs) → All (if b then x ∷ keep q xs else keep q xs)
      All-keep_step true k = (p, k)
      All-keep_step false k = k

  pub All-take : (n : ℕ) (xs : List A) → All xs → All (take n xs)
  All-take zero xs h = tt
  All-take (suc n) [] h = tt
  All-take (suc n) (x ∷ xs) (p, h) = (p, All-take n xs h)

  pub All-mem : (x : A) (xs : List A) → All xs → Memᴰ x xs → P x
  All-mem x [] h m = elim m [ ]
  All-mem x (y ∷ xs) (p, h) (Memᴰ.head e) = subst P (sym e) p
  All-mem x (y ∷ xs) (p, h) (Memᴰ.tail m) = All-mem x xs h m

-- What is kept passes the test.
pub keep-All_true {ℓ} :
    {A : Type ℓ} (q : A → Bool) (xs : List A) → All (λ x. q x ≡ true) (keep q xs)
keep-All_true q [] = tt
keep-All_true q (x ∷ xs) = elim (Bool-cases (q x)) [
  | inl e ↦ rw e (e, keep-All_true q xs)
  | inr e ↦ rw e (keep-All_true q xs)
]

module _ {ℓ κ μ} {A : Type ℓ} {P : A → Type κ} {Q : A → Type μ} (f : (x : A) → P x → Q x) where
  pub All_mono : (xs : List A) → All P xs → All Q xs
  All_mono [] h = tt
  All_mono (x ∷ xs) (p, h) = (f x p, All_mono xs h)
