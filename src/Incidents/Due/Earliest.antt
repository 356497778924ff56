-- ===== src/Incidents/Due/Earliest.antt =====
-- The choice of `nextDueTrackerLocked`: a tracker with no incident, or the earliest time that has
-- come, by priority where times are equal.
use mathlib.Core.List.{Memᴰ}
use mathlib.Core.Path.{subst}
use logthing.Prelude.{
  ℕ, ◌≤◌, ◌<◌, String, ◌≡◌, refl, sym, ◌∙◌, ap, ◌⊎◌, inl, inr, Option, none, some, [], ◌∷◌, All,
  arith,
}
use logthing.Prelude.Maps.{Map}
use logthing.Incidents.Types.{Config, Incident, Tracker}
use logthing.Incidents.Due.{Check, skip, orphan, due, Candidate, check, choose, scan, next_due}

-- One time and priority come no later than another.
abbrev NotAfter : ℕ → ℕ → ℕ → ℕ → Type 0
NotAfter at p at' p' = (at < at') ⊎ ((at ≡ at') × (p ≤ p'))

-- A tracker that was passed over has nothing due, or no earlier.
abbrev Yields : ℕ → ℕ → Check → Type 0
Yields at p skip = Unit
Yields at p orphan = ⊥
Yields at p (due at' p') = NotAfter at p at' p'

NotAfter-trans : (a p b q c r : ℕ) → NotAfter a p b q → NotAfter b q c r → NotAfter a p c r
NotAfter-trans a p b q c r h k = ground arith

Yields-trans : (a p b q : ℕ) (k : Check) → NotAfter a p b q → Yields b q k → Yields a p k
Yields-trans a p b q skip h y = tt
Yields-trans a p b q orphan h y = y
Yields-trans a p b q (due c r) h y = NotAfter-trans a p b q c r h y

abbrev Unbeaten : ℕ → ℕ → Option Candidate → Type 0
Unbeaten at p none = Unit
Unbeaten at p (some b) = NotAfter at p b.at b.priority

Unbeaten-trans :
    (a p b q : ℕ) (best : Option Candidate)
    → NotAfter a p b q
    → Unbeaten b q best
    → Unbeaten a p best
Unbeaten-trans a p b q none h u = tt
Unbeaten-trans a p b q (some c) h u = NotAfter-trans a p b q c.at c.priority h u

choose_new :
    (best : Option Candidate) (x : Candidate)
    → NotAfter (choose best x).at (choose best x).priority x.at x.priority
choose_new none x = ground arith
choose_new (some b) x = ground arith

choose_old :
    (best : Option Candidate) (x : Candidate)
    → Unbeaten (choose best x).at (choose best x).priority best
choose_old none x = tt
choose_old (some b) x = ground arith

choose_either :
    (best : Option Candidate) (x : Candidate) → (choose best x ≡ x) ⊎ (best ≡ some (choose best x))
choose_either none x = inl refl
choose_either (some b) x = ground arith

module _ (cfg : Config) (incidents : Map Incident) (now : ℕ) where
  abbrev checked : Tracker → Check
  checked = check cfg incidents now

  abbrev FoundDue : Option Candidate → Map Tracker → String → Tracker → Type 0
  FoundDue best rest key t =
      (at : ℕ) × (p : ℕ) × ((best ≡ some (record { key = key; tracker = t; at = at; priority = p }))
        ⊎ (Memᴰ (key, t) rest × (checked t ≡ due at p)))
      × Unbeaten at p best
      × All (λ e. Yields at p (checked e.1)) rest

  abbrev Outcome : Option Candidate → Map Tracker → Option (String × Tracker) → Type 0
  Outcome best rest none = (best ≡ none) × All (λ e. checked e.1 ≡ skip) rest
  Outcome best rest (some (key, t)) =
      (Memᴰ (key, t) rest × (checked t ≡ orphan)) ⊎ FoundDue best rest key t

  Outcome-skip :
      (best : Option Candidate) (e : String × Tracker) (rest : Map Tracker)
      (r : Option (String × Tracker))
      → checked e.1 ≡ skip
      → Outcome best rest r
      → Outcome best (e ∷ rest) r
  Outcome-skip best e rest none h (b, all) = (b, (h, all))
  Outcome-skip best e rest (some r) h (inl (m, o)) = inl (Memᴰ.tail m, o)
  Outcome-skip best e rest (some r) h (inr (at, p, inl b, u, all)) =
      inr (at, p, inl b, u, (rw h tt, all))
  Outcome-skip best e rest (some r) h (inr (at, p, inr (m, d), u, all)) =
      inr (at, p, inr (Memᴰ.tail m, d), u, (rw h tt, all))

  -- Where the candidate that the rest of the loop is left with comes from.
  found_where :
      (best : Option Candidate) (c x : Candidate) (rest : Map Tracker)
      → checked x.tracker ≡ due x.at x.priority
      → (some (choose best x) ≡ some c)
        ⊎ (Memᴰ (c.key, c.tracker) rest × (checked c.tracker ≡ due c.at c.priority))
      → (best ≡ some c)
        ⊎ (Memᴰ (c.key, c.tracker) ((x.key, x.tracker) ∷ rest)
            × (checked c.tracker ≡ due c.at c.priority))
  found_where best c x rest h (inr (m, d)) = inr (Memᴰ.tail m, d)
  found_where best c x rest h (inl e) = elim (choose_either best x) [
    | inr old ↦ inl (old ∙ e)
    | inl new ↦
        let same : c ≡ x = cc in
        inr (
          Memᴰ.head (ap (λ (d : Candidate). (d.key, d.tracker)) same),
          subst (λ d. checked d.tracker ≡ due d.at d.priority) (sym same) h,
        )
  ]

  Outcome-due :
      (best : Option Candidate) (x : Candidate) (rest : Map Tracker) (r : Option (String × Tracker))
      → checked x.tracker ≡ due x.at x.priority
      → Outcome (some (choose best x)) rest r
      → Outcome best ((x.key, x.tracker) ∷ rest) r
  Outcome-due best x rest none h (b, all) = absurd (cc)
  Outcome-due best x rest (some r) h (inl (m, o)) = inl (Memᴰ.tail m, o)
  Outcome-due best x rest (some (key, t)) h (inr (at, p, o, u, all)) =
      let c : Candidate = record { key = key; tracker = t; at = at; priority = p } in
      let b = choose best x in
      let new = NotAfter-trans at p b.at b.priority x.at x.priority u (choose_new best x) in
      inr (
        at,
        p,
        found_where best c x rest h o,
        Unbeaten-trans at p b.at b.priority best u (choose_old best x),
        (rw h new, all),
      )

  module _ (best : Option Candidate) (key : String) (t : Tracker) (rest : Map Tracker) where
    abbrev scanned : Option (String × Tracker)
    scanned = scan cfg incidents now best ((key, t) ∷ rest)

    scan-skip : checked t ≡ skip → scanned ≡ scan cfg incidents now best rest
    unfolding scan
    scan-skip e = rw (e, scan)

    scan-orphan : checked t ≡ orphan → scanned ≡ some (key, t)
    unfolding scan
    scan-orphan e = rw (e, scan)

    scan-due :
        (at p : ℕ)
        → checked t ≡ due at p
        → scanned
          ≡ scan cfg incidents now
              (some (choose best (record { key = key; tracker = t; at = at; priority = p })))
              rest
    unfolding scan
    scan-due at p e = ground arith

  scan-Outcome :
      (best : Option Candidate) (rest : Map Tracker)
      → Outcome best rest (scan cfg incidents now best rest)
  unfolding scan
  scan-Outcome none [] = (refl, tt)
  scan-Outcome (some b) [] = inr (b.at, b.priority, inl refl, inr (refl, omega arith), tt)
  scan-Outcome best ((key, t) ∷ rest) = by_check (checked t) refl (scan-Outcome best rest) (λ at p.
      scan-Outcome (some (choose best (record { key = key; tracker = t; at = at; priority = p })))
        rest)
    where
      by_check :
          (k : Check)
          → checked t ≡ k
          → Outcome best rest (scan cfg incidents now best rest)
          → ((at p : ℕ)
              → let b =
                  some (choose best (record { key = key; tracker = t; at = at; priority = p })) in
                Outcome b rest (scan cfg incidents now b rest))
          → Outcome best ((key, t) ∷ rest) (scanned best key t rest)
      by_check skip e h _ =
          subst (Outcome best ((key, t) ∷ rest)) (sym (scan-skip best key t rest e))
            (Outcome-skip best (key, t) rest _ e h)
      by_check orphan e _ _ =
          subst (Outcome best ((key, t) ∷ rest)) (sym (scan-orphan best key t rest e))
            (inl (Memᴰ.head refl, e))
      by_check (due at p) e _ h =
          subst (Outcome best ((key, t) ∷ rest)) (sym (scan-due best key t rest at p e)) (
            Outcome-due best (record { key = key; tracker = t; at = at; priority = p }) rest _ e
              (h at p))

  -- Nothing is due; or the choice is a tracker of the map, which has lost its incident or is due
  -- at a time and with a priority that no other tracker comes before.
  abbrev pub IsEarliest : Map Tracker → Option (String × Tracker) → Type 0
  IsEarliest trackers none = All (λ e. checked e.1 ≡ skip) trackers
  IsEarliest trackers (some (key, t)) =
      Memᴰ (key, t) trackers
      × ((checked t ≡ orphan)
          ⊎ ((at : ℕ) × (p : ℕ) × (checked t ≡ due at p)
              × All (λ e. Yields at p (checked e.1)) trackers))

  Outcome-IsEarliest :
      (trackers : Map Tracker) (r : Option (String × Tracker))
      → Outcome none trackers r
      → IsEarliest trackers r
  Outcome-IsEarliest trackers none (_, all) = all
  Outcome-IsEarliest trackers (some r) (inl (m, o)) = (m, inl o)
  Outcome-IsEarliest trackers (some r) (inr (at, p, inl b, _, all)) = absurd (cc)
  Outcome-IsEarliest trackers (some r) (inr (at, p, inr (m, d), _, all)) = (m, inr (at, p, d, all))

  -- `nextDueTrackerLocked` finds a tracker exactly when one has a time that has come or has lost
  -- its incident. What it finds stands in the map; unless it has lost its incident, no tracker has
  -- lost its own or is due earlier, or at the same time with a smaller priority.
  pub next_due-IsEarliest :
      (trackers : Map Tracker) → IsEarliest trackers (next_due cfg incidents trackers now)
  unfolding next_due
  next_due-IsEarliest trackers =
      Outcome-IsEarliest trackers (next_due cfg incidents trackers now) (scan-Outcome none trackers)
