-- ===== src/Storage/Query/Merge.antt =====
-- The heap of internal/storage/query_index.go gives the entries of all partitions, latest first.
use mathlib.Core.List.{append_assoc}
use logthing.Prelude.{
  ℕ, ◌+◌, ◌≤◌, ◌<◌, String, ◌≡◌, refl, sym, ap, ◌∙◌, inl, inr, Bool, Option, none, some, List, [],
  ◌∷◌, ◌++◌, ltb, leb, map, length, All, All-append, All_split, All_mono, arith, Bool-cases,
}
use logthing.Storage.Query.{
  IndexEntry, IndexCursor, less, pop_or, heap_pop, heap_push, push_rest, entries_left,
}

-- An entry with the partition that it is in.
abbrev pub Place : Type 0
Place = String × IndexEntry

abbrev pub latest_first : Place → Place → Bool
latest_first a b = leb b.1.received_at a.1.received_at

abbrev pub IsDescending : List IndexEntry → Type 0
IsDescending [] = Unit
IsDescending (e ∷ es) = All (λ x. x.received_at ≤ e.received_at) es × IsDescending es

-- The heap's cursors come by their orders, and each has its entries latest first.
abbrev pub IsHeap : List IndexCursor → Type 0
IsHeap [] = Unit
IsHeap (c ∷ heap) =
    IsDescending (c.entry ∷ c.rest) × All (λ d. c.order < d.order) heap × IsHeap heap

-- The places of a heap, cursor by cursor.
abbrev pub places_of : String → List IndexEntry → List Place
places_of path entries = map (λ e. (path, e)) entries

abbrev pub places : List IndexCursor → List Place
places [] = []
places (c ∷ heap) = places_of c.path (c.entry ∷ c.rest) ++ places heap

-- The cursor that is taken out is later than those before it, and not earlier than those behind it.
abbrev Popped : List IndexCursor → Option (IndexCursor × List IndexCursor) → Type 0
Popped heap none = heap ≡ []
Popped heap (some (c, heap')) =
    (xs : List IndexCursor) × (ys : List IndexCursor) × (heap ≡ xs ++ c ∷ ys)
    × (heap' ≡ xs ++ ys)
    × All (λ x. x.entry.received_at < c.entry.received_at) xs
    × All (λ y. y.entry.received_at ≤ c.entry.received_at) ys

less_late :
    (c d : IndexCursor) → c.order < d.order → less d c ≡ ltb c.entry.received_at d.entry.received_at
unfolding less
less_late c d h = ground arith

pop_or-Popped :
    (c : IndexCursor) (cs : List IndexCursor) (r : Option (IndexCursor × List IndexCursor))
    → All (λ d. c.order < d.order) cs
    → Popped cs r
    → Popped (c ∷ cs) (pop_or c cs r)
pop_or-Popped c cs none o e = ([], cs, refl, refl, tt, rw e tt)
pop_or-Popped c cs (some (d, rest)) o (xs, ys, e, e', h, k) =
    let after : c.order < d.order =
      (All_split (λ (x : IndexCursor). c.order < x.order) xs (d ∷ ys) (rw (← e) o)).1.0 in
    elim (Bool-cases (less d c)) [
      | inl l ↦
          rw l
            (c ∷ xs, ys, ap (◌∷◌ c) e, ap (◌∷◌ c) e', (ground (arith, less_late c d after), h), k)
      | inr l ↦
          let le : d.entry.received_at ≤ c.entry.received_at =
            ground (arith, less_late c d after) in
          rw l (
            [],
            cs,
            refl,
            refl,
            tt,
            rw e (
                All-append (λ (x : IndexCursor). x.entry.received_at ≤ c.entry.received_at) xs
                  (d ∷ ys) (All_mono (λ x p. omega arith) xs h)
                  (le, All_mono (λ x p. omega arith) ys k)),
          )
    ]

pub heap_pop-Popped : (heap : List IndexCursor) → IsHeap heap → Popped heap (heap_pop heap)
unfolding heap_pop
heap_pop-Popped [] h = refl
heap_pop-Popped (c ∷ heap) (_, o, h) =
    pop_or-Popped c heap (heap_pop heap) o (heap_pop-Popped heap h)

-- The cursor moved on by one entry, unless it is at its end.
abbrev pub moved : String → ℕ → List IndexEntry → List IndexCursor
moved path order [] = []
moved path order (e ∷ rest) = record { path = path; entry = e; rest = rest; order = order } ∷ []

abbrev Around : ℕ → List IndexCursor → List IndexCursor → Type 0
Around order xs ys = All (λ x. x.order < order) xs × All (λ y. order < y.order) ys

heap_push-Around :
    (c : IndexCursor) (xs ys : List IndexCursor)
    → Around c.order xs ys
    → heap_push c (xs ++ ys) ≡ xs ++ c ∷ ys
unfolding heap_push
heap_push-Around c [] [] (h, k) = refl
heap_push-Around c [] (y ∷ ys) (h, (p, k)) = ground arith
heap_push-Around c (x ∷ xs) ys ((p, h), k) = ground (arith, heap_push-Around c xs ys (h, k))

pub push_rest-Around :
    (path : String) (order : ℕ) (rest : List IndexEntry) (xs ys : List IndexCursor)
    → Around order xs ys
    → push_rest path order rest (xs ++ ys) ≡ xs ++ (moved path order rest ++ ys)
unfolding push_rest
push_rest-Around path order [] xs ys h = refl
push_rest-Around path order (e ∷ rest) xs ys h =
    heap_push-Around (record { path = path; entry = e; rest = rest; order = order }) xs ys h

pub IsHeap-Around :
    (xs : List IndexCursor) (c : IndexCursor) (ys : List IndexCursor)
    → IsHeap (xs ++ c ∷ ys)
    → IsDescending (c.entry ∷ c.rest) × Around c.order xs ys
IsHeap-Around [] c ys (d, o, h) = (d, (tt, o))
IsHeap-Around (x ∷ xs) c ys (_, o, h) =
    let (d, (below, above)) = IsHeap-Around xs c ys h in
    (d, (((All_split (λ (z : IndexCursor). x.order < z.order) xs (c ∷ ys) o).1.0, below), above))

pub moved-IsHeap :
    (path : String) (order : ℕ) (rest : List IndexEntry) (ys : List IndexCursor)
    → IsDescending rest
    → All (λ y. order < y.order) ys
    → IsHeap ys
    → IsHeap (moved path order rest ++ ys)
moved-IsHeap path order [] ys d o h = h
moved-IsHeap path order (e ∷ rest) ys d o h = (d, o, h)

moved-All :
    (x : ℕ) (path : String) (order : ℕ) (rest : List IndexEntry)
    → x < order
    → All (λ z. x < z.order) (moved path order rest)
moved-All x path order [] h = tt
moved-All x path order (e ∷ rest) h = (h, tt)

pub IsHeap-moved :
    (xs : List IndexCursor) (c : IndexCursor) (ys : List IndexCursor)
    → IsHeap (xs ++ c ∷ ys)
    → IsHeap (xs ++ (moved c.path c.order c.rest ++ ys))
IsHeap-moved [] c ys ((_, d), o, h) = moved-IsHeap c.path c.order c.rest ys d o h
IsHeap-moved (x ∷ xs) c ys (d, o, h) =
    let P = λ (z : IndexCursor). x.order < z.order in
    let (a, b) = All_split P xs (c ∷ ys) o in
    (
      d,
      All-append P xs (moved c.path c.order c.rest ++ ys) a (
          All-append P (moved c.path c.order c.rest) ys
            (moved-All x.order c.path c.order c.rest b.0) b.1),
      IsHeap-moved xs c ys h,
    )

pub places-append : (xs ys : List IndexCursor) → places (xs ++ ys) ≡ places xs ++ places ys
places-append [] ys = refl
places-append (x ∷ xs) ys =
    ap (◌++◌ (places_of x.path (x.entry ∷ x.rest))) (places-append xs ys)
    ∙ sym (append_assoc (places_of x.path (x.entry ∷ x.rest)) (places xs) (places ys))

pub places-moved :
    (path : String) (order : ℕ) (rest : List IndexEntry) (ys : List IndexCursor)
    → places (moved path order rest ++ ys) ≡ places_of path rest ++ places ys
places-moved path order [] ys = refl
places-moved path order (e ∷ rest) ys = refl

pub entries_left-append :
    (xs ys : List IndexCursor) → entries_left (xs ++ ys) ≡ entries_left xs + entries_left ys
entries_left-append [] ys = omega arith
entries_left-append (x ∷ xs) ys = omega (arith, entries_left-append xs ys)

pub entries_left-moved :
    (path : String) (order : ℕ) (rest : List IndexEntry) (ys : List IndexCursor)
    → entries_left (moved path order rest ++ ys) ≡ length rest + entries_left ys
entries_left-moved path order [] ys = omega arith
entries_left-moved path order (e ∷ rest) ys = omega arith

-- Every place of a cursor is earlier than a time that its entry is earlier than.
places_of-All :
    (path : String) (at : ℕ) (es : List IndexEntry)
    → All (λ e. e.received_at < at) es
    → All (λ (p : Place). p.1.received_at < at) (places_of path es)
places_of-All path at [] h = tt
places_of-All path at (e ∷ es) (p, h) = (p, places_of-All path at es h)

pub places-All :
    (at : ℕ) (heap : List IndexCursor)
    → IsHeap heap
    → All (λ c. c.entry.received_at < at) heap
    → All (λ (p : Place). p.1.received_at < at) (places heap)
places-All at [] h k = tt
places-All at (c ∷ heap) ((d, _), _, h) (p, k) = (
  p,
  All-append (λ (p : Place). p.1.received_at < at) (places_of c.path c.rest) (places heap)
      (places_of-All c.path at c.rest (All_mono (λ x q. omega arith) c.rest d))
      (places-All at heap h k),
)

pub IsHeap-split : (xs ys : List IndexCursor) → IsHeap (xs ++ ys) → IsHeap xs × IsHeap ys
IsHeap-split [] ys h = (tt, h)
IsHeap-split (x ∷ xs) ys (d, o, h) =
    let (a, b) = IsHeap-split xs ys h in
    ((d, (All_split (λ (z : IndexCursor). x.order < z.order) xs ys o).0, a), b)
