-- ===== src/Storage/Partition/Safe.antt =====
-- The file names of internal/storage/file_store.go stay in their directory.
use Prim.Native.Char.{Char, code}
use Prim.Native.String
use text.Mathlib.TextLemmas.{nil-append, cons-append}
use logthing.Prelude.{
  ℕ, String, ◌≡◌, refl, inl, inr, Bool, true, false, Option, ◌==◌, arith, Bool-cases,
}
use logthing.Prelude.Text.{trim, trim_left, trim_right, trim_end, all_chars}
use logthing.Prelude.Text.Trim.{Starts, trim-Starts}
use logthing.Model.{Message}
use logthing.Storage.Partition.{
  is_alphanumeric, is_mark, is_safe, replace_unsafe, cleaned, host_of, source_of, source_filename,
}

abbrev AreSafe : String → Type 0
AreSafe s = all_chars is_safe s ≡ true

replace_unsafe-AreSafe : (s : String) → AreSafe (replace_unsafe s)
unfolding replace_unsafe
replace_unsafe-AreSafe String.[] = refl
replace_unsafe-AreSafe (String.◌∷◌ c s) = elim (Bool-cases (is_safe (code c))) [
  | inl e ↦ rw (e, replace_unsafe-AreSafe s, e)
  | inr e ↦ rw (e, replace_unsafe-AreSafe s)
]

module _ (space : ℕ → Bool) where
  trim_left-AreSafe : (s : String) → AreSafe s → AreSafe (trim_left space s)
  unfolding trim_left
  trim_left-AreSafe String.[] h = refl
  trim_left-AreSafe (String.◌∷◌ c s) h = elim (Bool-cases (space (code c))) [
    | inl e ↦ rw e (trim_left-AreSafe s (ground arith))
    | inr e ↦ rw e h
  ]

  trim_end-AreSafe :
      (b : Bool) (c : Char) (s : String)
      → is_safe (code c) ≡ true
      → AreSafe s
      → AreSafe (trim_end space b c s)
  trim_end-AreSafe true c String.[] h k = refl
  trim_end-AreSafe false c String.[] h k = rw h
  trim_end-AreSafe b c (String.◌∷◌ d s) h k = rw (h, k)

  trim_right-AreSafe : (s : String) → AreSafe s → AreSafe (trim_right space s)
  unfolding trim_right
  trim_right-AreSafe String.[] h = refl
  trim_right-AreSafe (String.◌∷◌ c s) h =
      trim_end-AreSafe (space (code c)) c (trim_right space s) (ground arith)
        (trim_right-AreSafe s (ground arith))

  trim-AreSafe : (s : String) → AreSafe s → AreSafe (trim space s)
  unfolding trim
  trim-AreSafe s h = trim_right-AreSafe (trim_left space s) (trim_left-AreSafe s h)

-- A name that starts with a letter or digit and has only these, dots, dashes and underscores.
abbrev pub IsFilename : String → Type 0
IsFilename String.[] = ⊥
IsFilename (String.◌∷◌ c s) =
    (is_alphanumeric (code c) ≡ true) × (all_chars is_safe (String.◌∷◌ c s) ≡ true)

Starts-IsFilename : (s : String) → (s == "") ≡ false → AreSafe s → Starts is_mark s → IsFilename s
Starts-IsFilename String.[] n h k = absurd (cc n)
Starts-IsFilename (String.◌∷◌ c s) n h k = (ground arith, h)

cleaned-IsFilename : (source : String) → IsFilename (cleaned source)
cleaned-IsFilename source = elim (Bool-cases (trim is_mark (replace_unsafe source) == "")) [
  | inl e ↦ rw e (refl, refl)
  | inr e ↦ rw e (
      Starts-IsFilename (trim is_mark (replace_unsafe source)) e
        (trim-AreSafe is_mark (replace_unsafe source) (replace_unsafe-AreSafe source))
        (trim-Starts is_mark (replace_unsafe source)))
]

append-AreSafe : (s t : String) → AreSafe s → AreSafe t → AreSafe (String.◌++◌ s t)
append-AreSafe String.[] t h k = rw (nil-append t) k
append-AreSafe (String.◌∷◌ c s) t h k =
    let e : is_safe (code c) ≡ true = ground arith in
    rw (cons-append c s t, e) (append-AreSafe s t (ground arith) k)

append-IsFilename : (s t : String) → IsFilename s → AreSafe t → IsFilename (String.◌++◌ s t)
append-IsFilename String.[] t h k = elim h [ ]
append-IsFilename (String.◌∷◌ c s) t (a, h) k =
    let e : is_safe (code c) ≡ true = ground arith in
    rw (cons-append c s t, e) (a, append-AreSafe s t (ground arith) k)

-- Whatever the source and the hostname of a message are, and whatever host is split off, the file
-- name has only ASCII letters, digits, dots, dashes and underscores and starts with a letter or a
-- digit: it is not empty, not hidden, and no step to another directory.
pub source_filename-IsFilename :
    (split_host_port : String → Option String) (m : Message)
    → IsFilename (source_filename split_host_port m)
unfolding source_filename
source_filename-IsFilename split_host_port m =
    append-IsFilename
      (cleaned (
        host_of split_host_port (source_of split_host_port m)
          (split_host_port (source_of split_host_port m))))
      ".ndjson"
      (cleaned-IsFilename (
        host_of split_host_port (source_of split_host_port m)
          (split_host_port (source_of split_host_port m))))
      refl
