-- ===== src/Storage/Reader/Bytes.antt =====
-- The lines and the fingerprint of a file that grows, as internal/storage/append_reader.go reads it.
use logthing.Prelude.{
  ℕ, zero, suc, ◌+◌, ◌-◌, ◌≤◌, ◌<◌, ◌≡◌, refl, sym, ap, ◌∙◌, inl, inr, true, false, List, [], ◌∷◌,
  ◌++◌, eqb, ltb, take, drop, drop-none, length, arith, Bool-cases,
}
use logthing.Storage.Index.{line_end}
use logthing.Storage.Reader.{add_byte, ended_lines, window_size, fingerprint_bytes}

-- The number of bytes of the lines.
abbrev pub total : List (List ℕ) → ℕ
total [] = 0
total (line ∷ lines) = length line + total lines

abbrev pub read_bytes : List ℕ → ℕ
read_bytes bytes = total (ended_lines bytes)

add_byte-end :
    (b : ℕ) (lines : List (List ℕ)) → eqb b line_end ≡ true → add_byte b lines ≡ (b ∷ []) ∷ lines
add_byte-end b [] e = rw e
add_byte-end b (line ∷ lines) e = rw e

-- The lines of a file that grew are the old ones, and those from their end on.
pub ended_lines-append :
    (bytes more : List ℕ)
    → ended_lines (bytes ++ more)
      ≡ ended_lines bytes ++ ended_lines (drop (read_bytes bytes) (bytes ++ more))
unfolding ended_lines
ended_lines-append [] more = refl
ended_lines-append (b ∷ bytes) more = elim (Bool-cases (eqb b line_end)) [
  | inl e ↦
      let same = add_byte-end b (ended_lines bytes) e in
      add_byte-end b (ended_lines (bytes ++ more)) e
      ∙ ap (λ l. (b ∷ []) ∷ l) (ended_lines-append bytes more)
      ∙ rw (same, add-comm_one (total (ended_lines bytes)))
  | inr e ↦ inner (ended_lines bytes) (ended_lines-append bytes more) e
]
  where
    add-comm_one : (n : ℕ) → 1 + n ≡ suc n
    add-comm_one n = omega arith

    suc-add : (m n : ℕ) → suc m + n ≡ suc (m + n)
    suc-add m n = omega arith

    inner :
        (lines : List (List ℕ))
        → ended_lines (bytes ++ more) ≡ lines ++ ended_lines (drop (total lines) (bytes ++ more))
        → eqb b line_end ≡ false
        → add_byte b (ended_lines (bytes ++ more))
          ≡ add_byte b lines ++ ended_lines (drop (total (add_byte b lines)) (b ∷ bytes ++ more))
    inner [] h e = rw e
    inner (line ∷ lines) h e = rw (e, h, e, suc-add (length line) (total lines))

total-add_byte-le : (b : ℕ) (lines : List (List ℕ)) → total (add_byte b lines) ≤ suc (total lines)
total-add_byte-le b [] = elim (Bool-cases (eqb b line_end)) [
  | inl e ↦ rw e (omega arith)
  | inr e ↦ rw e (omega arith)
]
total-add_byte-le b (line ∷ lines) = elim (Bool-cases (eqb b line_end)) [
  | inl e ↦ rw e (omega arith)
  | inr e ↦ rw e (omega arith)
]

pub read_bytes-le : (bytes : List ℕ) → read_bytes bytes ≤ length bytes
unfolding ended_lines
read_bytes-le [] = omega arith
read_bytes-le (b ∷ bytes) =
    omega (arith, total-add_byte-le b (ended_lines bytes), read_bytes-le bytes)

pub drop-drop : (m n : ℕ) (xs : List ℕ) → drop n (drop m xs) ≡ drop (m + n) xs
drop-drop zero n xs = let same : n ≡ 0 + n = omega arith in ap (λ k. drop k xs) same
drop-drop (suc m) n [] = drop-none n ∙ sym (drop-none (suc m + n))
drop-drop (suc m) n (x ∷ xs) =
    let same : suc (m + n) ≡ suc m + n = omega arith in
    drop-drop m n xs ∙ ap (λ k. drop k (x ∷ xs)) same

pub drop_before : (n : ℕ) (xs ys : List ℕ) → n ≤ length xs → drop n (xs ++ ys) ≡ drop n xs ++ ys
drop_before zero xs ys h = refl
drop_before (suc n) [] ys h = absurd (omega arith)
drop_before (suc n) (x ∷ xs) ys h = drop_before n xs ys (omega arith)

take_before : (n : ℕ) (xs ys : List ℕ) → n ≤ length xs → take n (xs ++ ys) ≡ take n xs
take_before zero xs ys h = refl
take_before (suc n) [] ys h = absurd (omega arith)
take_before (suc n) (x ∷ xs) ys h = ap (◌∷◌ x) (take_before n xs ys (omega arith))

pub length-drop : (n : ℕ) (xs : List ℕ) → length (drop n xs) ≡ length xs - n
length-drop zero xs = omega arith
length-drop (suc n) [] = omega arith
length-drop (suc n) (x ∷ xs) = omega (arith, length-drop n xs)

pub not_less : (a b : ℕ) → b ≤ a → ltb a b ≡ false
not_less a b h = ground arith

lt_of : (a b : ℕ) → ltb a b ≡ true → a < b
lt_of a b h = ground arith

-- What is appended behind the first `size` bytes does not change their fingerprint.
pub fingerprint_bytes-append :
    (bytes more : List ℕ) (size : ℕ)
    → size ≤ length bytes
    → fingerprint_bytes (bytes ++ more) size ≡ fingerprint_bytes bytes size
unfolding fingerprint_bytes
fingerprint_bytes-append bytes more size h = elim (Bool-cases (ltb window_size size)) [
  | inl e ↦
      let start = size - window_size in
      let more_than : window_size < size = lt_of window_size size e in
      let first = take_before window_size bytes more (omega arith) in
      let last =
        ap (take window_size) (drop_before start bytes more (omega arith))
        ∙ take_before window_size (drop start bytes) more
            (omega (arith, length-drop start bytes)) in
      rw (e, first, last)
  | inr e ↦ rw e (take_before size bytes more h)
]
