-- ===== src/Prelude/Maps.antt =====
-- Maps with text keys, as association lists. A write puts the entry first and drops the old ones;
-- the program never relies on the order.
use Prim.Native.String.{String}
use mathlib.Core.Path.{◌≡◌, refl, sym, ap, ◌∙◌, subst₂}
use mathlib.Core.Logic.{◌≢◌, inl, inr}
use mathlib.Core.Option.{Option, none, some}
use mathlib.Core.Option
use mathlib.Core.List.{List, [], ◌∷◌, map}
use native.Mathlib.Omega.{arith}
use text.Mathlib.Text.{◌==◌}
use text.Mathlib.TextEquality.{eq_iff}
use logthing.Prelude.Tests.{if◌then◌else◌, Bool-cases}
use logthing.Prelude.Lists.{All}

abbrev pub Map {ℓ} : Type ℓ → Type ℓ
Map V = List (String × V)

module _ {ℓ} {V : Type ℓ} where
  -- m[k]
  unfoldable pub lookup : String → Map V → Option V
  lookup k [] = none
  lookup k ((j, v) ∷ m) = if j == k then some v else lookup k m

  -- delete(m, k)
  unfoldable pub remove : String → Map V → Map V
  remove k [] = []
  remove k ((j, v) ∷ m) = let rest = remove k m in if j == k then rest else (j, v) ∷ rest

  -- m[k] = v
  unfoldable pub insert : String → V → Map V → Map V
  insert k v m = (k, v) ∷ remove k m

  pub lookup-remove :
      (k j : String) (m : Map V) → lookup j (remove k m) ≡ (if k == j then none else lookup j m)
  unfolding lookup remove
  lookup-remove k j [] = ground arith
  lookup-remove k j ((i, v) ∷ m) =
      ground (arith, lookup-remove k j m, eq_iff i k, eq_iff i j, eq_iff k j)

  pub lookup-insert :
      (k j : String) (v : V) (m : Map V)
      → lookup j (insert k v m) ≡ (if k == j then some v else lookup j m)
  unfolding lookup insert
  lookup-insert k j v m = ground (arith, lookup-remove k j m)

-- Predicates on all the entries of a map.
module _ {ℓ κ} {V : Type ℓ} (P : String × V → Type κ) where
  pub All-lookup : (k : String) (v : V) (m : Map V) → All P m → lookup k m ≡ some v → P (k, v)
  unfolding lookup
  All-lookup k v [] h e = absurd (cc)
  All-lookup k v ((j, w) ∷ m) (p, h) e = elim (Bool-cases (j == k)) [
    | inl same ↦ subst₂ (λ x y. P (x, y)) ((eq_iff j k).0 same) (ground arith) p
    | inr other ↦ All-lookup k v m h (ground arith)
  ]

module _ {ℓ κ μ} {V : Type ℓ} (P : String × V → Type κ) (Q : String × V → Type μ) where
  -- The entries that stay have other keys.
  pub All-remove :
      (k : String) (m : Map V)
      → ((j : String) (v : V) → j ≢ k → P (j, v) → Q (j, v))
      → All P m
      → All Q (remove k m)
  unfolding remove
  All-remove k [] f h = tt
  All-remove k ((j, v) ∷ m) f (p, h) = elim (Bool-cases (j == k)) [
    | inl same ↦ rw same (All-remove k m f h)
    | inr other ↦ rw other (f j v (λ e. cc (other, (eq_iff j k).1 e)) p, All-remove k m f h)
  ]

  pub All-insert :
      (k : String) (new : V) (m : Map V)
      → Q (k, new)
      → ((j : String) (v : V) → j ≢ k → P (j, v) → Q (j, v))
      → All P m
      → All Q (insert k new m)
  unfolding insert
  All-insert k new m q f h = (q, All-remove k m f h)

-- Every entry is the one that its key finds.
abbrev pub IsMap {ℓ} : {V : Type ℓ} → Map V → Type ℓ
IsMap m = All (λ e. lookup e.0 m ≡ some e.1) m

module _ {ℓ} {V : Type ℓ} where
  keeps_other :
      (k j : String) (m n : Map V) (v : V) (x : Option V)
      → ((i : String) → lookup i n ≡ (if k == i then x else lookup i m))
      → j ≢ k
      → lookup j m ≡ some v
      → lookup j n ≡ some v
  keeps_other k j m n v x law other_key h = elim (Bool-cases (k == j)) [
    | inl same ↦ absurd (other_key (sym ((eq_iff k j).0 same)))
    | inr other ↦ law j ∙ rw other h
  ]

  pub IsMap-remove : (k : String) (m : Map V) → IsMap m → IsMap (remove k m)
  IsMap-remove k m h =
      All-remove (λ e. lookup e.0 m ≡ some e.1) (λ e. lookup e.0 (remove k m) ≡ some e.1) k m
        (λ j v n e. keeps_other k j m (remove k m) v none (λ i. lookup-remove k i m) n e) h

  pub IsMap-insert : (k : String) (v : V) (m : Map V) → IsMap m → IsMap (insert k v m)
  IsMap-insert k v m h =
      All-insert (λ e. lookup e.0 m ≡ some e.1) (λ e. lookup e.0 (insert k v m) ≡ some e.1) k v m
        (lookup-insert k k v m ∙ rw ((eq_iff k k).1 refl))
        (λ j w n e. keeps_other k j m (insert k v m) w (some v) (λ i. lookup-insert k i v m) n e) h

-- Every value of a map is changed, by its key and itself.
module _ {V : Type 0} (f : String → V → V) where
  abbrev pub changed : String × V → String × V
  changed e = (e.0, f e.0 e.1)

  pub lookup-map :
      (k : String) (m : Map V) → lookup k (map changed m) ≡ Option.map (f k) (lookup k m)
  unfolding lookup
  lookup-map k [] = refl
  lookup-map k ((j, v) ∷ m) = elim (Bool-cases (j == k)) [
    | inl same ↦ rw same (ap (λ x. some (f x v)) ((eq_iff j k).0 same))
    | inr other ↦ rw other (lookup-map k m)
  ]

  pub map-IsMap : (m : Map V) → IsMap m → IsMap (map changed m)
  map-IsMap m h = each m h
    where
      each :
          (xs : Map V)
          → All (λ e. lookup e.0 m ≡ some e.1) xs
          → All (λ e. lookup e.0 (map changed m) ≡ some e.1) (map changed xs)
      each [] h = tt
      each ((k, v) ∷ xs) (e, h) = (lookup-map k m ∙ ap (Option.map (f k)) e, each xs h)

pub map-All :
    {V : Type 0} (f : String → V → V) (P : String × V → Type 0) (Q : String × V → Type 0)
    → ((k : String) (v : V) → P (k, v) → Q (k, f k v))
    → (m : Map V) → All P m
    → All Q (map (changed f) m)
map-All f P Q g [] h = tt
map-All f P Q g ((k, v) ∷ m) (p, h) = (g k v p, map-All f P Q g m h)
