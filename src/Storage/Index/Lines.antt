-- ===== src/Storage/Index/Lines.antt =====
-- The lines and entries of a file that was appended to, as internal/storage/query_index.go scans it.
use logthing.Prelude.{
  ℕ, suc, ◌+◌, ◌≤◌, ◌<◌, String, ◌≡◌, refl, ap, ◌∙◌, inl, inr, true, Option, none, some, List, [],
  ◌∷◌, ◌++◌, eqb, drop, length, All, arith, Bool-cases, Option-cases,
}
use logthing.Storage.Query.{IndexEntry}
use logthing.Storage.Index.{
  line_end, put_byte, split_lines, add_entry, scan_lines, read_key, scan_index,
}

-- A file whose last line has its end; the empty file has no line.
abbrev pub IsEnded : List ℕ → Type 0
IsEnded [] = Unit
IsEnded (b ∷ []) = eqb b line_end ≡ true
IsEnded (b ∷ c ∷ bytes) = IsEnded (c ∷ bytes)

-- The number of bytes of the lines.
abbrev total : List (List ℕ) → ℕ
total [] = 0
total (line ∷ lines) = length line + total lines

put_byte-end :
    (b : ℕ) (lines : List (List ℕ)) → eqb b line_end ≡ true → put_byte b lines ≡ (b ∷ []) ∷ lines
put_byte-end b [] e = refl
put_byte-end b (line ∷ lines) e = rw e

-- A byte that some line follows goes to the first of the lines, whatever stands behind them.
put_byte-append :
    (b c : ℕ) (lines more : List (List ℕ))
    → put_byte b (put_byte c lines ++ more) ≡ put_byte b (put_byte c lines) ++ more
put_byte-append b c [] more = ground arith
put_byte-append b c (line ∷ lines) more = ground arith

split_lines-append :
    (bytes more : List ℕ)
    → IsEnded bytes
    → split_lines (bytes ++ more) ≡ split_lines bytes ++ split_lines more
unfolding split_lines
split_lines-append [] more h = refl
split_lines-append (b ∷ []) more h = put_byte-end b (split_lines more) h
split_lines-append (b ∷ c ∷ bytes) more h =
    ap (put_byte b) (split_lines-append (c ∷ bytes) more h)
    ∙ put_byte-append b c (split_lines bytes) (split_lines more)

total-put_byte : (b : ℕ) (lines : List (List ℕ)) → total (put_byte b lines) ≡ suc (total lines)
total-put_byte b [] = omega arith
total-put_byte b (line ∷ lines) = elim (Bool-cases (eqb b line_end)) [
  | inl e ↦ rw e (omega arith)
  | inr e ↦ rw e (omega arith)
]

total-split_lines : (bytes : List ℕ) → total (split_lines bytes) ≡ length bytes
unfolding split_lines
total-split_lines [] = refl
total-split_lines (b ∷ bytes) =
    total-put_byte b (split_lines bytes) ∙ ap suc (total-split_lines bytes)

put_byte-All_nonempty :
    (b : ℕ) (lines : List (List ℕ))
    → All (λ (l : List ℕ). 0 < length l) lines
    → All (λ (l : List ℕ). 0 < length l) (put_byte b lines)
put_byte-All_nonempty b [] h = (omega arith, tt)
put_byte-All_nonempty b (line ∷ lines) (h, hs) = elim (Bool-cases (eqb b line_end)) [
  | inl e ↦ rw e (omega arith, (h, hs))
  | inr e ↦ rw e (omega arith, hs)
]

split_lines-All_nonempty : (bytes : List ℕ) → All (λ (l : List ℕ). 0 < length l) (split_lines bytes)
unfolding split_lines
split_lines-All_nonempty [] = tt
split_lines-All_nonempty (b ∷ bytes) =
    put_byte-All_nonempty b (split_lines bytes) (split_lines-All_nonempty bytes)

pub drop-append : (xs ys : List ℕ) → drop (length xs) (xs ++ ys) ≡ ys
drop-append [] ys = refl
drop-append (x ∷ xs) ys = drop-append xs ys

abbrev pub append_entries : List IndexEntry → Option (List IndexEntry) → Option (List IndexEntry)
append_entries es none = none
append_entries es (some more) = some (es ++ more)

-- The entries' offsets grow along the file.
abbrev pub AreOrdered : ℕ → List IndexEntry → Type 0
AreOrdered offset [] = Unit
AreOrdered offset (e ∷ es) = (offset ≤ e.offset) × AreOrdered (suc e.offset) es

AreOrdered-mono : (m n : ℕ) (es : List IndexEntry) → m ≤ n → AreOrdered n es → AreOrdered m es
AreOrdered-mono m n [] h o = tt
AreOrdered-mono m n (e ∷ es) h (k, o) = (omega arith, o)

module _ (decode : List ℕ → Option (ℕ × String)) where
  -- Where all lines before it have an entry, a line more has one entry more.
  scan_lines-cons :
      (offset : ℕ) (line : List ℕ) (lines : List (List ℕ)) {es : List IndexEntry}
      → scan_lines decode offset (line ∷ lines) ≡ some es
      → (at : ℕ) × (host : String) × (rest : List IndexEntry) × (decode line ≡ some (at, host))
        × (scan_lines decode (offset + length line) lines ≡ some rest)
        × (es
            ≡ record { received_at = at; host = host; offset = offset; length = length line }
              ∷ rest)
  unfolding scan_lines
  scan_lines-cons offset line lines h = elim (Option-cases (decode line)) [
    | inl e ↦ absurd (cc (rw e at h))
    | inr ((at, host), e) ↦ elim (Option-cases (scan_lines decode (offset + length line) lines)) [
      | inl e' ↦ absurd (cc (rw (e, e') at h))
      | inr (rest, e') ↦ (at, host, rest, e, e', cc (rw (e, e') at h))
    ]
  ]

  scan_lines-append :
      (offset : ℕ) (lines more : List (List ℕ)) (es : List IndexEntry)
      → scan_lines decode offset lines ≡ some es
      → scan_lines decode offset (lines ++ more)
        ≡ append_entries es (scan_lines decode (offset + total lines) more)
  unfolding scan_lines
  scan_lines-append offset [] more es h =
      let e : es ≡ [] = cc in
      let e' : offset + 0 ≡ offset = omega arith in
      rw (e, e') (unit (scan_lines decode offset more))
    where
      unit : (r : Option (List IndexEntry)) → r ≡ append_entries [] r
      unit none = refl
      unit (some rest) = refl
  scan_lines-append offset (line ∷ lines) more es h =
      let (at, host, rest, d, r, e) = scan_lines-cons offset line lines h in
      let next = offset + length line in
      let later = scan_lines decode (next + total lines) more in
      let same : offset + (length line + total lines) ≡ next + total lines = omega arith in
      rw (d, e, same, scan_lines-append next lines more rest r)
        (added at host offset (length line) rest later)
    where
      added :
          (at : ℕ) (host : String) (offset n : ℕ) (rest : List IndexEntry)
          (later : Option (List IndexEntry))
          → add_entry decode (some (at, host)) offset n (append_entries rest later)
            ≡ append_entries
                (record { received_at = at; host = host; offset = offset; length = n } ∷ rest)
                later
      added at host offset n rest none = refl
      added at host offset n rest (some l) = refl

  scan_lines-AreOrdered :
      (offset : ℕ) (lines : List (List ℕ)) (es : List IndexEntry)
      → All (λ (l : List ℕ). 0 < length l) lines
      → scan_lines decode offset lines ≡ some es
      → AreOrdered offset es
  unfolding scan_lines
  scan_lines-AreOrdered offset [] es p h = let e : es ≡ [] = cc in rw e tt
  scan_lines-AreOrdered offset (line ∷ lines) es (p, ps) h =
      let (at, host, rest, d, r, e) = scan_lines-cons offset line lines h in
      rw e (
        omega arith,
        AreOrdered-mono (suc offset) (offset + length line) rest (omega arith)
            (scan_lines-AreOrdered (offset + length line) lines rest ps r),
      )

module _ (decode : List ℕ → Option (ℕ × String)) where
  -- What was scanned to the end of a line, and then what follows, is what is scanned in one go.
  pub scan_index-append :
      (bytes more : List ℕ) (es : List IndexEntry)
      → IsEnded bytes
      → scan_index decode 0 bytes ≡ some es
      → scan_index decode 0 (bytes ++ more)
        ≡ append_entries es (scan_index decode (length bytes) more)
  unfolding scan_index
  scan_index-append bytes more es h e =
      ap (scan_lines (read_key decode) 0) (split_lines-append bytes more h)
      ∙ scan_lines-append (read_key decode) 0 (split_lines bytes) (split_lines more) es e
      ∙ ap (λ n. append_entries es (scan_lines (read_key decode) n (split_lines more)))
          (let t = total-split_lines bytes in omega (arith, t))

  pub scan_index-AreOrdered :
      (bytes : List ℕ) (es : List IndexEntry)
      → scan_index decode 0 bytes ≡ some es
      → AreOrdered 0 es
  unfolding scan_index
  scan_index-AreOrdered bytes es h =
      scan_lines-AreOrdered (read_key decode) 0 (split_lines bytes) es
        (split_lines-All_nonempty bytes) h
