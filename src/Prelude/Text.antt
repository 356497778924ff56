-- ===== src/Prelude/Text.antt =====
-- Texts as the program's string functions see them: trimming, prefixes, and the first place of a
-- text in another.
pub mod Trim
pub mod Decimal
use Prim.Native.Nat.{ℕ, zero, suc, ◌/◌, ◌%◌}
use Prim.Native.Char.{Char, code}
use Prim.Native.String
use Prim.Native.String.{String}
use mathlib.Core.Path.{◌≡◌, refl}
use mathlib.Core.Bool.{Bool, true, false, ◌&&◌, ◌||◌}
use mathlib.Core.Option
use mathlib.Core.Option.{Option, none, some}
use mathlib.Core.List.{List, [], ◌∷◌}
use native.Mathlib.Omega.{arith}
use text.Mathlib.Text.{◌==◌}
use text.Mathlib.TextEquality.{eq_iff}
use logthing.Prelude.Tests.{ltb, leb, eqb, if◌then◌else◌}

-- The space characters that Go and JavaScript have in common.
pub common_space : ℕ → Bool
common_space c =
    (leb 9 c && leb c 13)
    || eqb c 32
    || eqb c 0xa0
    || eqb c 0x1680
    || (leb 0x2000 c && leb c 0x200a)
    || eqb c 0x2028
    || eqb c 0x2029
    || eqb c 0x202f
    || eqb c 0x205f
    || eqb c 0x3000

-- `unicode.IsSpace`: NEL too.
unfoldable pub go_space : ℕ → Bool
unfolding common_space
go_space c = common_space c || eqb c 0x85

-- The white space and line ends of ECMAScript: the byte order mark too.
unfoldable pub js_space : ℕ → Bool
unfolding common_space
js_space c = common_space c || eqb c 0xfeff

module _ (space : ℕ → Bool) where
  unfoldable pub trim_left : String → String
  trim_left String.[] = ""
  trim_left (String.◌∷◌ c s) =
      let rest = trim_left s in if space (code c) then rest else String.◌∷◌ c s

  abbrev pub trim_end : Bool → Char → String → String
  trim_end blank c String.[] = if blank then "" else String.◌∷◌ c ""
  trim_end blank c (String.◌∷◌ d s) = String.◌∷◌ c (String.◌∷◌ d s)

  unfoldable pub trim_right : String → String
  trim_right String.[] = ""
  trim_right (String.◌∷◌ c s) = trim_end (space (code c)) c (trim_right s)

  unfoldable pub trim : String → String
  unfolding trim_left trim_right
  trim s = trim_right (trim_left s)

-- What follows the prefix `p`, if the text starts with it.
unfoldable pub strip_prefix : String → String → Option String
strip_prefix String.[] s = some s
strip_prefix (String.◌∷◌ c p) String.[] = none
strip_prefix (String.◌∷◌ c p) (String.◌∷◌ d s) =
    let rest = strip_prefix p s in if eqb (code c) (code d) then rest else none

-- What stands before the suffix `p`, if the text ends with it.
unfoldable pub strip_suffix : String → String → Option String
strip_suffix p String.[] = if "" == p then some "" else none
strip_suffix p (String.◌∷◌ c s) =
    let rest = Option.map (String.◌∷◌ c) (strip_suffix p s) in
    if String.◌∷◌ c s == p then some "" else rest

abbrev pub is_some {ℓ} : {A : Type ℓ} → Option A → Bool
is_some none = false
is_some (some _) = true

abbrev cut_at : Option String → Option (String × String) → Option (String × String)
cut_at none later = later
cut_at (some rest) later = some ("", rest)

-- `strings.Index` and the two slices that it serves: what stands before the first `p`, and after.
unfoldable pub cut : String → String → Option (String × String)
unfolding strip_prefix
cut p String.[] = cut_at (strip_prefix p "") none
cut p (String.◌∷◌ c s) =
    cut_at (strip_prefix p (String.◌∷◌ c s))
      (Option.map (λ (parts : String × String). (String.◌∷◌ c parts.0, parts.1)) (cut p s))

abbrev pub all_chars : (ℕ → Bool) → String → Bool
all_chars p String.[] = true
all_chars p (String.◌∷◌ c s) = p (code c) && all_chars p s

-- The texts of a list in a row, as by Go's `+`.
abbrev pub concat : List String → String
concat [] = ""
concat (s ∷ ss) = String.◌++◌ s (concat ss)

abbrev pub digit : ℕ → String
digit zero = "0"
digit (suc zero) = "1"
digit (suc (suc zero)) = "2"
digit (suc (suc (suc zero))) = "3"
digit (suc (suc (suc (suc zero)))) = "4"
digit (suc (suc (suc (suc (suc zero))))) = "5"
digit (suc (suc (suc (suc (suc (suc zero)))))) = "6"
digit (suc (suc (suc (suc (suc (suc (suc zero))))))) = "7"
digit (suc (suc (suc (suc (suc (suc (suc (suc zero)))))))) = "8"
digit _ = "9"

pub digits_from : ℕ → ℕ → String → String
digits_from zero n rest = rest
digits_from (suc fuel) n rest =
    let more = digits_from fuel (n / 10) (concat (digit (n % 10) ∷ rest ∷ [])) in
    if ltb n 10 then concat (digit n ∷ rest ∷ []) else more

-- A number in decimal. It has at most as many digits as one more than its value.
unfoldable pub decimal : ℕ → String
unfolding digits_from
decimal n = digits_from (suc n) n ""
