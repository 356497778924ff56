-- ===== src/Prelude/Text/Trim.antt =====
-- Trimming twice trims no more.
use Prim.Native.Nat.{ℕ}
use Prim.Native.Char.{Char, code}
use Prim.Native.String.{String}
use mathlib.Core.Path.{◌≡◌, refl, ◌∙◌, ap}
use mathlib.Core.Logic.{inl, inr}
use mathlib.Core.Bool.{Bool, true, false}
use logthing.Prelude.Tests.{Bool-cases}
use logthing.Prelude.Text.{trim_left, trim_end, trim_right, trim}

module _ (space : ℕ → Bool) where
  trim_right-trim_end :
      (b : Bool) (c : Char) (r : String)
      → space (code c) ≡ b
      → trim_right space r ≡ r
      → trim_right space (trim_end space b c r) ≡ trim_end space b c r
  unfolding trim_right
  trim_right-trim_end true c String.[] e h = refl
  trim_right-trim_end false c String.[] e h = rw e
  trim_right-trim_end b c (String.◌∷◌ d s) e h = rw h

  trim_right_idem : (s : String) → trim_right space (trim_right space s) ≡ trim_right space s
  unfolding trim_right
  trim_right_idem String.[] = refl
  trim_right_idem (String.◌∷◌ c s) =
      trim_right-trim_end (space (code c)) c (trim_right space s) refl (trim_right_idem s)

  -- A text that does not start with a space.
  abbrev pub Starts : String → Type 0
  Starts String.[] = Unit
  Starts (String.◌∷◌ c s) = space (code c) ≡ false

  trim_left-Starts : (s : String) → Starts (trim_left space s)
  unfolding trim_left
  trim_left-Starts String.[] = tt
  trim_left-Starts (String.◌∷◌ c s) = elim (Bool-cases (space (code c))) [
    | inl e ↦ rw e (trim_left-Starts s)
    | inr e ↦ rw e e
  ]

  trim_end-Starts :
      (c : Char) (r : String) → space (code c) ≡ false → Starts (trim_end space false c r)
  trim_end-Starts c String.[] e = e
  trim_end-Starts c (String.◌∷◌ d s) e = e

  trim_right-Starts : (s : String) → Starts s → Starts (trim_right space s)
  unfolding trim_right
  trim_right-Starts String.[] h = tt
  trim_right-Starts (String.◌∷◌ c s) h = rw h (trim_end-Starts c (trim_right space s) h)

  pub trim-Starts : (s : String) → Starts (trim space s)
  unfolding trim
  trim-Starts s = trim_right-Starts (trim_left space s) (trim_left-Starts s)

  trim_left_of_Starts : (s : String) → Starts s → trim_left space s ≡ s
  unfolding trim_left
  trim_left_of_Starts String.[] h = refl
  trim_left_of_Starts (String.◌∷◌ c s) h = rw h

  pub trim_idem : (s : String) → trim space (trim space s) ≡ trim space s
  unfolding trim
  trim_idem s =
      ap (trim_right space) (
        trim_left_of_Starts (trim_right space (trim_left space s))
          (trim_right-Starts (trim_left space s) (trim_left-Starts s)))
      ∙ trim_right_idem (trim_left space s)
