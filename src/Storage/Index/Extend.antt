-- ===== src/Storage/Index/Extend.antt =====
-- The index that internal/storage/query_index.go extends is the one that it would build anew.
use logthing.Prelude.{
  ℕ, suc, ◌<◌, String, ◌≡◌, refl, sym, ap, ◌∙◌, inl, inr, true, false, Option, none, some, List, [],
  ◌∷◌, ◌++◌, drop, length, length-append, All, All_mono, arith, Bool-cases,
}
use logthing.Prelude.Sorting.{sort, IsSorted}
use logthing.Prelude.Sorting.Order.{IsOrder, sort-IsSorted}
use logthing.Prelude.Sorting.Again.{AllApart, AreApart, sort-sort-append}
use logthing.Storage.Query.{IndexEntry}
use logthing.Storage.Query.Merge.{IsDescending}
use logthing.Storage.Index.{
  FileInfo, FileIndex, comes_before, is_unchanged, has_grown, scan_index, sorted_with, build_index,
  refresh_index,
}
use logthing.Storage.Index.Lines.{
  IsEnded, AreOrdered, append_entries, drop-append, scan_index-append, scan_index-AreOrdered,
}

comes_before-IsOrder : IsOrder comes_before
comes_before-IsOrder = record { total = λ a b. ground arith; trans = λ a b c h k. ground arith }

-- Entries at different places are told apart.
apart : (a b : IndexEntry) → a.offset < b.offset → AreApart comes_before comes_before-IsOrder a b
apart a b h = ground arith

all_apart :
    (a : IndexEntry) (n : ℕ) (es : List IndexEntry)
    → a.offset < n
    → AreOrdered n es
    → All (λ b. AreApart comes_before comes_before-IsOrder a b) es
all_apart a n [] h o = tt
all_apart a n (e ∷ es) h (k, o) =
    (apart a e (omega arith), all_apart a (suc e.offset) es (omega arith) o)

AreOrdered-AllApart :
    (n : ℕ) (es : List IndexEntry) → AreOrdered n es → AllApart comes_before comes_before-IsOrder es
AreOrdered-AllApart n [] o = tt
AreOrdered-AllApart n (e ∷ es) (k, o) =
    (all_apart e (suc e.offset) es (omega arith) o, AreOrdered-AllApart (suc e.offset) es o)

module _ (decode : List ℕ → Option (ℕ × String)) where
  sorted_with-append :
      (info : FileInfo) (es : List IndexEntry) (r : Option (List IndexEntry))
      → AllApart comes_before comes_before-IsOrder es
      → sorted_with decode info (sort comes_before es) r
        ≡ sorted_with decode info [] (append_entries es r)
  sorted_with-append info es none a = refl
  sorted_with-append info es (some more) a =
      ap (λ l. some (record { info = info; entries = l }))
        (sort-sort-append comes_before comes_before-IsOrder es more a)

  built_from :
      (info : FileInfo) (r : Option (List IndexEntry)) (old : FileIndex)
      → sorted_with decode info [] r ≡ some old
      → (es : List IndexEntry) × (r ≡ some es)
        × (old ≡ record { info = info; entries = sort comes_before es })
  built_from info none old h = absurd (cc h)
  built_from info (some es) old h = (es, refl, cc)

  -- If a file's index was built and whole lines were appended to the file since, then the index
  -- that is extended by the new lines is the index built anew from the whole file; where a new line
  -- does not decode, both are the error.
  pub refresh_index-grown :
      (old : FileIndex) (before now : FileInfo) (bytes more : List ℕ)
      → build_index decode before bytes ≡ some old
      → before.identity ≡ now.identity
      → before.size ≡ length bytes
      → now.size ≡ length (bytes ++ more)
      → 0 < length more
      → IsEnded bytes
      → refresh_index decode (some old) now (bytes ++ more) ≡ build_index decode now (bytes ++ more)
  unfolding refresh_index build_index
  refresh_index-grown old before now bytes more b i z z' p h =
      let (es, e, same) = built_from before (scan_index decode 0 bytes) old b in
      let grown : before.size < now.size = omega (arith, length-append bytes more) in
      let unchanged : is_unchanged before now ≡ false = ground arith in
      let longer : has_grown before now ≡ true = ground arith in
      rw (same, unchanged, longer)
        (ap
            (λ n.
              sorted_with decode now (sort comes_before es)
                (scan_index decode n (drop n (bytes ++ more))))
            z
          ∙ ap
              (λ l.
                sorted_with decode now (sort comes_before es) (scan_index decode (length bytes) l))
              (drop-append bytes more)
          ∙ sorted_with-append now es (scan_index decode (length bytes) more)
              (AreOrdered-AllApart 0 es (scan_index-AreOrdered decode bytes es e))
          ∙ ap (sorted_with decode now []) (sym (scan_index-append decode bytes more es h e)))

  comes_before-IsDescending : (es : List IndexEntry) → IsSorted comes_before es → IsDescending es
  comes_before-IsDescending [] s = tt
  comes_before-IsDescending (e ∷ es) (h, s) =
      (All_mono (λ x p. ground arith) es h, comes_before-IsDescending es s)

  sorted_with-IsDescending :
      (info : FileInfo) (es : List IndexEntry) (r : Option (List IndexEntry)) {index : FileIndex}
      → sorted_with decode info es r ≡ some index
      → IsDescending index.entries
  sorted_with-IsDescending info es none h = absurd (cc h)
  sorted_with-IsDescending info es (some more) {index} h =
      let same : index ≡ record { info = info; entries = sort comes_before (es ++ more) } = cc in
      rw same (
        comes_before-IsDescending (sort comes_before (es ++ more))
          (sort-IsSorted comes_before comes_before-IsOrder (es ++ more)))

  -- An index that a partition has already, if it has one.
  abbrev WasDescending : Option FileIndex → Type 0
  WasDescending none = Unit
  WasDescending (some old) = IsDescending old.entries

  -- However an index comes about, built where there was none, or built, extended or kept where there
  -- was one that had its entries latest first, it has its entries latest first, as the search and
  -- the heap of a query need.
  pub refresh_index-IsDescending :
      (old : Option FileIndex) (info : FileInfo) (bytes : List ℕ) {index : FileIndex}
      → WasDescending old
      → refresh_index decode old info bytes ≡ some index
      → IsDescending index.entries
  unfolding refresh_index build_index
  refresh_index-IsDescending none info bytes d h =
      sorted_with-IsDescending info [] (scan_index decode 0 bytes) h
  refresh_index-IsDescending (some old) info bytes {index} d h =
      elim (Bool-cases (is_unchanged old.info info)) [
        | inl e ↦ let same : old ≡ index = cc (rw e at h) in rw (← same) d
        | inr e ↦ elim (Bool-cases (has_grown old.info info)) [
          | inl g ↦
              sorted_with-IsDescending info old.entries
                (scan_index decode old.info.size (drop old.info.size bytes)) (rw (e, g) at h)
          | inr g ↦ sorted_with-IsDescending info [] (scan_index decode 0 bytes) (rw (e, g) at h)
        ]
      ]
