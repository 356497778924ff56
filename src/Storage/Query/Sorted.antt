-- ===== src/Storage/Query/Sorted.antt =====
-- What comes out of the heap of internal/storage/query_index.go is the stable sort of what is in it.
use logthing.Prelude.{
  ℕ, zero, suc, ◌≤◌, ◌<◌, ◌≡◌, refl, sym, ap, ◌∙◌, inl, inr, Bool, false, not, Option, none, some,
  List, [], ◌∷◌, ◌++◌, keep, All, All_mono, All-keep, All-append, if_both, arith, Bool-cases,
  Option-cases,
}
use logthing.Prelude.Sorting.{sort}
use logthing.Prelude.Sorting.Order.{sort-least}
use logthing.Storage.Query.{
  IndexEntry, Partition, IndexCursor, heap_pop, push_rest, is_after, from_until, initial_heap,
  entries_left,
}
use logthing.Storage.Query.Merge.{
  Place, latest_first, IsDescending, IsHeap, places_of, places, moved, heap_pop-Popped,
  push_rest-Around, IsHeap-Around, IsHeap-moved, places-append, places-moved, entries_left-append,
  entries_left-moved, places-All, IsHeap-split, moved-IsHeap,
}

-- What one round does to the heap.
pub record Round (heap : List IndexCursor) (c : IndexCursor) (next : List IndexCursor)
    : Type 0 where
  pub fewer : entries_left heap ≡ suc (entries_left next)
  pub ordered : IsHeap next
  pub first : sort latest_first (places heap) ≡ (c.path, c.entry) ∷ sort latest_first (places next)

around-Round :
    (xs : List IndexCursor) (c : IndexCursor) (ys : List IndexCursor)
    → IsHeap (xs ++ c ∷ ys)
    → All (λ x. x.entry.received_at < c.entry.received_at) xs
    → All (λ y. y.entry.received_at ≤ c.entry.received_at) ys
    → Round (xs ++ c ∷ ys) c (push_rest c.path c.order c.rest (xs ++ ys))
around-Round xs c ys h before behind =
    let ((late, d), a) = IsHeap-Around xs c ys h in
    let m : Place = (c.path, c.entry) in
    let n = moved c.path c.order c.rest in
    let same = push_rest-Around c.path c.order c.rest xs ys a in
    let (hx, hy) = IsHeap-split xs (c ∷ ys) h in
    let after =
      places-All (suc c.entry.received_at) (c ∷ ys) hy
        (omega arith, All_mono (λ y p. omega arith) ys behind) in
    record {
      fewer = omega (
        arith,
        entries_left-append xs (c ∷ ys),
        ap entries_left same,
        entries_left-append xs (n ++ ys),
        entries_left-moved c.path c.order c.rest ys,
      );
      ordered = rw same (IsHeap-moved xs c ys h);
      first =
          ap (sort latest_first) (places-append xs (c ∷ ys))
          ∙ sort-least latest_first m (places xs) (places_of c.path c.rest ++ places ys)
              (All_mono (λ x p. ground arith) (places xs)
                (places-All c.entry.received_at xs hx before))
              (All_mono (λ x p. ground arith) (places_of c.path c.rest ++ places ys) after.1)
          ∙ ap (λ l. m ∷ sort latest_first l)
              (sym (
                ap places same
                ∙ places-append xs (n ++ ys)
                ∙ ap (◌++◌ (places xs)) (places-moved c.path c.order c.rest ys)));
    }

pub heap_pop-Round :
    (heap : List IndexCursor) (c : IndexCursor) (heap' : List IndexCursor)
    → IsHeap heap
    → heap_pop heap ≡ some (c, heap')
    → Round heap c (push_rest c.path c.order c.rest heap')
heap_pop-Round heap c heap' h e =
    let (xs, ys, e1, e2, before, behind) = rw e at (heap_pop-Popped heap h) in
    rw (e1, e2) (around-Round xs c ys (rw (← e1) h) before behind)

heap_pop-none : (heap : List IndexCursor) → IsHeap heap → heap_pop heap ≡ none → heap ≡ []
heap_pop-none heap h e = rw e at (heap_pop-Popped heap h)

-- The places in the order in which the loop meets them.
unfoldable pub merged : ℕ → List IndexCursor → List Place
merged zero heap = []
merged (suc fuel) heap = elim (heap_pop heap) [
  | none ↦ []
  | some (c, heap') ↦ (c.path, c.entry) ∷ merged fuel (push_rest c.path c.order c.rest heap')
]

pub merged-none :
    (fuel : ℕ) (heap : List IndexCursor) → heap_pop heap ≡ none → merged fuel heap ≡ []
unfolding merged
merged-none zero heap e = refl
merged-none (suc fuel) heap e = rw (e, merged)

pub merged-some :
    (fuel : ℕ) (heap : List IndexCursor) (c : IndexCursor) (heap' : List IndexCursor)
    → heap_pop heap ≡ some (c, heap')
    → merged (suc fuel) heap
      ≡ (c.path, c.entry) ∷ merged fuel (push_rest c.path c.order c.rest heap')
unfolding merged
merged-some fuel heap c heap' e = rw (e, merged)

merged-sort_empty :
    (fuel : ℕ) (heap : List IndexCursor)
    → IsHeap heap
    → heap_pop heap ≡ none
    → merged fuel heap ≡ sort latest_first (places heap)
unfolding sort
merged-sort_empty fuel heap h e =
    merged-none fuel heap e ∙ sym (ap (λ x. sort latest_first (places x)) (heap_pop-none heap h e))

pub merged-sort :
    (fuel : ℕ) (heap : List IndexCursor)
    → IsHeap heap
    → entries_left heap ≤ fuel
    → merged fuel heap ≡ sort latest_first (places heap)
merged-sort zero heap h le = elim (Option-cases (heap_pop heap)) [
  | inl e ↦ merged-sort_empty zero heap h e
  | inr ((c, heap'), e) ↦ absurd (omega (arith, (heap_pop-Round heap c heap' h e).fewer))
]
merged-sort (suc fuel) heap h le = elim (Option-cases (heap_pop heap)) [
  | inl e ↦ merged-sort_empty (suc fuel) heap h e
  | inr ((c, heap'), e) ↦
      let r = heap_pop-Round heap c heap' h e in
      merged-some fuel heap c heap' e
      ∙ ap (◌∷◌ (c.path, c.entry)) (
          merged-sort fuel (push_rest c.path c.order c.rest heap') r.ordered
            (omega (arith, r.fewer)))
      ∙ sym r.first
]

-- Of a partition with its entries latest first, the ones that are not after `until`.
from_until-keep :
    (until : Option ℕ) (es : List IndexEntry)
    → IsDescending es
    → from_until until es ≡ keep (λ e. not (is_after until e)) es
unfolding from_until
from_until-keep until [] d = refl
from_until-keep until (e ∷ es) (late, d) = elim (Bool-cases (is_after until e)) [
  | inl h ↦ rw h (from_until-keep until es d)
  | inr h ↦ rw h (ap (◌∷◌ e) (sym (keep_all until e es h late)))
]
  where
    keep_all :
        (until : Option ℕ) (e : IndexEntry) (es : List IndexEntry)
        → is_after until e ≡ false
        → All (λ x. x.received_at ≤ e.received_at) es
        → keep (λ e. not (is_after until e)) es ≡ es
    keep_all until e [] h k = refl
    keep_all none e (x ∷ xs) h (p, k) = ap (◌∷◌ x) (keep_all none e xs h k)
    keep_all (some at) e (x ∷ xs) h (p, k) = ground (arith, keep_all (some at) e xs h k)

-- The places of the partitions that are not after `until`, partition by partition.
abbrev pub places_until : Option ℕ → List Partition → List Place
places_until until [] = []
places_until until (p ∷ ps) =
    places_of p.path (keep (λ e. not (is_after until e)) p.entries) ++ places_until until ps

-- Each index has its entries latest first.
abbrev pub AreDescending : List Partition → Type 0
AreDescending = All (λ (p : Partition). IsDescending p.entries)

IsDescending-keep :
    (test : IndexEntry → Bool) (es : List IndexEntry)
    → IsDescending es
    → IsDescending (keep test es)
IsDescending-keep test [] d = tt
IsDescending-keep test (e ∷ es) (h, d) =
    if_both IsDescending (test e) _ _
      (λ _. (All-keep (λ x. x.received_at ≤ e.received_at) test es h, IsDescending-keep test es d))
      (λ _. IsDescending-keep test es d)

pub initial_heap-from :
    (until : Option ℕ) (order : ℕ) (ps : List Partition)
    → AreDescending ps
    → IsHeap (initial_heap until order ps)
      × All (λ c. order ≤ c.order) (initial_heap until order ps)
      × (places (initial_heap until order ps) ≡ places_until until ps)
unfolding initial_heap
initial_heap-from until order [] d = (tt, tt, refl)
initial_heap-from until order (p ∷ ps) (d, ds) =
    let (h, o, e) = initial_heap-from until (suc order) ps ds in
    let es = from_until until p.entries in
    let heap = initial_heap until (suc order) ps in
    let same = from_until-keep until p.entries d in
    let after : All (λ (c : IndexCursor). order < c.order) heap =
      All_mono (λ c q. omega arith) heap o in
    rw (push_rest-Around p.path order es [] heap (tt, after)) (
      moved-IsHeap p.path order es heap
          (rw same (IsDescending-keep (λ e. not (is_after until e)) p.entries d)) after h,
      All-append (λ (c : IndexCursor). order ≤ c.order) (moved p.path order es) heap (orders es)
          (All_mono (λ c q. omega arith) heap o),
      places-moved p.path order es heap
          ∙ ap (λ x. places_of p.path x ++ places heap) same
          ∙ ap (◌++◌ (places_of p.path (keep (λ e. not (is_after until e)) p.entries))) e,
    )
  where
    orders :
        (es : List IndexEntry) → All (λ (c : IndexCursor). order ≤ c.order) (moved p.path order es)
    orders [] = tt
    orders (e ∷ es) = (omega arith, tt)
