-- ===== src/Prelude/Text/Decimal.antt =====
-- `strconv.Atoi` of Go, and that it reads what `String` of JavaScript writes of a number.
use Prim.Native.Nat.{ℕ, zero, suc, ◌+◌, ◌-◌, ◌*◌, ◌/◌, ◌%◌, ◌<◌}
use Prim.Native.Char.{Char, code}
use Prim.Native.String
use Prim.Native.String.{String}
use mathlib.Core.Path.{◌≡◌, refl, ap, ◌∙◌}
use mathlib.Core.Logic.{inl, inr}
use mathlib.Core.Bool.{Bool, true, false, ◌&&◌}
use mathlib.Core.Option.{Option, none, some}
use mathlib.Core.List.{[], ◌∷◌}
use native.Mathlib.Omega.{arith}
use text.Mathlib.TextLemmas.{append-nil, nil-append, cons-append}
use logthing.Prelude.Tests.{ltb, leb, eqb, if◌then◌else◌, Bool-cases}
use logthing.Prelude.Int.{ℤ, pos, negsuc}
use logthing.Prelude.Text.{
  concat, digit, digits_from, decimal, all_chars, go_space, trim, trim_left, trim_right, trim_end,
  common_space,
}

abbrev pub is_digit : ℕ → Bool
is_digit c = leb 48 c && leb c 57

-- The number that the digits stand for, after the digits of `acc`.
pub read_digits : String → ℕ → Option ℕ
read_digits String.[] acc = some acc
read_digits (String.◌∷◌ c s) acc =
    let rest = read_digits s (acc * 10 + (code c - 48)) in if is_digit (code c) then rest else none

abbrev pub unsigned : String → Option ℕ
unsigned String.[] = none
unsigned (String.◌∷◌ c s) = read_digits (String.◌∷◌ c s) 0

-- 2 ^ 63
abbrev pub int_limit : ℕ
int_limit = 9223372036854775808

abbrev pub positive : Option ℕ → Option ℤ
positive none = none
positive (some n) = if ltb n int_limit then some (pos n) else none

abbrev minus : ℕ → ℤ
minus zero = pos 0
minus (suc n) = negsuc n

abbrev negative : Option ℕ → Option ℤ
negative none = none
negative (some n) = if leb n int_limit then some (minus n) else none

-- `strconv.Atoi`, where an `int` has 64 bits.
unfoldable pub atoi : String → Option ℤ
unfolding read_digits
atoi String.[] = none
atoi (String.◌∷◌ c s) =
    if eqb (code c) 45
    then negative (unsigned s)
    else if eqb (code c) 43
    then positive (unsigned s)
    else positive (unsigned (String.◌∷◌ c s))

-- A digit's text in front of another is one character with the digit's code.
digit-cons :
    (d : ℕ) (rest : String)
    → d < 10
    → (c : Char) × (concat (digit d ∷ rest ∷ []) ≡ String.◌∷◌ c rest) × (code c ≡ 48 + d)
digit-cons d rest h =
    let (c, e, k) = char d h in
    (
      c,
      ap (λ t. String.◌++◌ t (String.◌++◌ rest "")) e
          ∙ cons-append c "" (String.◌++◌ rest "")
          ∙ ap (String.◌∷◌ c) (nil-append (String.◌++◌ rest "") ∙ append-nil rest),
      k,
    )
  where
    char : (d : ℕ) → d < 10 → (c : Char) × (digit d ≡ String.◌∷◌ c "") × (code c ≡ 48 + d)
    char zero h = ("0", refl, refl)
    char (suc zero) h = ("1", refl, refl)
    char (suc (suc zero)) h = ("2", refl, refl)
    char (suc (suc (suc zero))) h = ("3", refl, refl)
    char (suc (suc (suc (suc zero)))) h = ("4", refl, refl)
    char (suc (suc (suc (suc (suc zero))))) h = ("5", refl, refl)
    char (suc (suc (suc (suc (suc (suc zero)))))) h = ("6", refl, refl)
    char (suc (suc (suc (suc (suc (suc (suc zero))))))) h = ("7", refl, refl)
    char (suc (suc (suc (suc (suc (suc (suc (suc zero)))))))) h = ("8", refl, refl)
    char (suc (suc (suc (suc (suc (suc (suc (suc (suc zero))))))))) h = ("9", refl, refl)
    char (suc (suc (suc (suc (suc (suc (suc (suc (suc (suc n)))))))))) h = absurd (omega arith)

read_digits-cons :
    (c : Char) (rest : String) (d acc : ℕ)
    → d < 10
    → code c ≡ 48 + d
    → read_digits (String.◌∷◌ c rest) acc ≡ read_digits rest (acc * 10 + d)
unfolding read_digits
read_digits-cons c rest d acc h e =
    let e1 : is_digit (code c) ≡ true = ground arith in
    let e2 : code c - 48 ≡ d = omega arith in rw (e1, e2)

-- A text of digits that is not empty.
abbrev pub IsNumeral : String → Type 0
IsNumeral String.[] = ⊥
IsNumeral (String.◌∷◌ c s) = all_chars is_digit (String.◌∷◌ c s) ≡ true

-- The digits of a number, in front of other digits.
digits_from_lem :
    (fuel n : ℕ) (rest : String)
    → n < fuel
    → all_chars is_digit rest ≡ true
    → (read_digits (digits_from fuel n rest) 0 ≡ read_digits rest n)
      × IsNumeral (digits_from fuel n rest)
unfolding digits_from
digits_from_lem zero n rest h a = absurd (omega arith)
digits_from_lem (suc fuel) n rest h a = elim (Bool-cases (ltb n 10)) [
  | inl e ↦
      let (c, same, k) = digit-cons n rest (ground arith) in
      rw (e, same)
        (
          read_digits-cons c rest n 0 (ground arith) k ∙ ap (read_digits rest) (omega arith),
          ground arith,
        )
  | inr e ↦
      let (c, same, k) = digit-cons (n % 10) rest (omega arith) in
      let (r, d) =
        digits_from_lem fuel (n / 10) (String.◌∷◌ c rest) (ground arith) (ground arith) in
      rw (e, same)
        (
          r
              ∙ read_digits-cons c rest (n % 10) (n / 10) (omega arith) k
              ∙ ap (read_digits rest) (omega arith),
          d,
        )
]

pub decimal-IsNumeral : (n : ℕ) → IsNumeral (decimal n)
unfolding decimal
decimal-IsNumeral n = (digits_from_lem (suc n) n "" (omega arith) refl).1

atoi-numeral : (s : String) → IsNumeral s → atoi s ≡ positive (read_digits s 0)
unfolding atoi
atoi-numeral String.[] h = elim h [ ]
atoi-numeral (String.◌∷◌ c s) h =
    let e1 : eqb (code c) 45 ≡ false = ground arith in
    let e2 : eqb (code c) 43 ≡ false = ground arith in rw (e1, e2)

-- What is written of a number that fits is read back.
pub atoi-decimal : (n : ℕ) → n < int_limit → atoi (decimal n) ≡ some (pos n)
unfolding decimal read_digits
atoi-decimal n h =
    atoi-numeral (decimal n) (decimal-IsNumeral n)
    ∙ ap positive (digits_from_lem (suc n) n "" (omega arith) refl).0
    ∙ small n h
  where
    small : (n : ℕ) → n < int_limit → positive (some n) ≡ some (pos n)
    small n h = ground arith

digit_not_space : (c : ℕ) → is_digit c ≡ true → go_space c ≡ false
unfolding go_space common_space
digit_not_space c h = ground arith

-- Digits are no spaces, so nothing is trimmed.
trim_right-digits : (s : String) → all_chars is_digit s ≡ true → trim_right go_space s ≡ s
unfolding trim_right
trim_right-digits String.[] h = refl
trim_right-digits (String.◌∷◌ c s) h =
    rw (digit_not_space (code c) (ground arith), trim_right-digits s (ground arith)) (ended c s)
  where
    ended : (c : Char) (s : String) → trim_end go_space false c s ≡ String.◌∷◌ c s
    ended c String.[] = refl
    ended c (String.◌∷◌ d s) = refl

pub trim-numeral : (s : String) → IsNumeral s → trim go_space s ≡ s
unfolding trim trim_left
trim-numeral String.[] h = elim h [ ]
trim-numeral (String.◌∷◌ c s) h =
    rw (digit_not_space (code c) (ground arith)) (trim_right-digits (String.◌∷◌ c s) h)
