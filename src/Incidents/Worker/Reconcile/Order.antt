-- ===== src/Incidents/Worker/Reconcile/Order.antt =====
-- The order in which `reconcile` of internal/incidents/worker.go hands records to the engine.
use Prim.Native.Char.{code}
use text.Mathlib.TextEquality.{Char-path}
use logthing.Prelude.{
  ℕ, String, ◌≡◌, refl, ◌⊎◌, inl, inr, Bool, true, Option, List, [], ◌∷◌, eq_iff, leb, map, All,
  arith,
}
use logthing.Prelude.Sorting.{sort, IsSorted}
use logthing.Prelude.Sorting.Order.{IsOrder, sort-IsSorted}
use logthing.Incidents.Types.{Snapshot}
use logthing.Incidents.Service.{Observation}
use logthing.Incidents.Worker.Reconcile.{
  StoredRecord, Source, leb_text, at_or_before, observation_of, observations_of,
}

leb_text_total : (s t : String) → (leb_text s t ≡ true) ⊎ (leb_text t s ≡ true)
unfolding leb_text
leb_text_total String.[] t = inl refl
leb_text_total (String.◌∷◌ c s) String.[] = inr refl
leb_text_total (String.◌∷◌ c s) (String.◌∷◌ d t) = ground (arith, leb_text_total s t)

leb_text_trans : (s t u : String) → leb_text s t ≡ true → leb_text t u ≡ true → leb_text s u ≡ true
unfolding leb_text
leb_text_trans String.[] t u h k = refl
leb_text_trans (String.◌∷◌ c s) String.[] u h k = absurd (cc)
leb_text_trans (String.◌∷◌ c s) (String.◌∷◌ d t) String.[] h k = absurd (cc)
leb_text_trans (String.◌∷◌ c s) (String.◌∷◌ d t) (String.◌∷◌ e u) h k =
    ground (arith, leb_text_trans s t u)

leb_text_antisymm : (s t : String) → leb_text s t ≡ true → leb_text t s ≡ true → s ≡ t
unfolding leb_text
leb_text_antisymm String.[] String.[] h k = refl
leb_text_antisymm String.[] (String.◌∷◌ d t) h k = absurd (cc)
leb_text_antisymm (String.◌∷◌ c s) String.[] h k = absurd (cc)
leb_text_antisymm (String.◌∷◌ c s) (String.◌∷◌ d t) h k =
    let same : code c ≡ code d = ground arith in
    let rest : s ≡ t = leb_text_antisymm s t (ground arith) (ground arith) in
    λ i. String.◌∷◌ (Char-path c d same i) (rest i)

-- The files' order when they differ.
at_or_before-IsOrder : IsOrder at_or_before
unfolding at_or_before
at_or_before-IsOrder = record {
  total = λ a b.
      ground (arith, leb_text_total a.file b.file, eq_iff a.file b.file, eq_iff b.file a.file);
  trans = λ a b c h k. ground (
    arith,
    leb_text_trans a.file b.file c.file,
    leb_text_antisymm a.file b.file,
    leb_text_antisymm b.file c.file,
    eq_iff a.file b.file,
    eq_iff b.file c.file,
    eq_iff a.file c.file,
  );
}

-- The order by the time alone.
abbrev pub not_later : Observation → Observation → Bool
not_later a b = leb a.message.received_at b.message.received_at

module _ (started_at : ℕ) (before : Snapshot) (rebuilding : Option String) where
  All-map_observation :
      (r : StoredRecord) (rs : List StoredRecord)
      → All (λ x. at_or_before r x ≡ true) rs
      → All
          (λ x. not_later (observation_of started_at before rebuilding r) x ≡ true)
          (map (observation_of started_at before rebuilding) rs)
  unfolding at_or_before
  All-map_observation r [] h = tt
  All-map_observation r (x ∷ rs) (e, h) = (ground arith, All-map_observation r rs h)

  map_observation-IsSorted :
      (rs : List StoredRecord)
      → IsSorted at_or_before rs
      → IsSorted not_later (map (observation_of started_at before rebuilding) rs)
  map_observation-IsSorted [] h = tt
  map_observation-IsSorted (r ∷ rs) (a, h) =
      (All-map_observation r rs a, map_observation-IsSorted rs h)

-- Whatever records are read, `reconcile` hands their messages to the engine in the order of the
-- times at which they were received.
pub observations_of-IsSorted :
    (started_at : ℕ) (before : Snapshot) (src : Source)
    → IsSorted not_later (observations_of started_at before src)
unfolding observations_of
observations_of-IsSorted started_at before src =
    map_observation-IsSorted started_at before src.rebuilding (sort at_or_before src.records)
      (sort-IsSorted at_or_before at_or_before-IsOrder src.records)
