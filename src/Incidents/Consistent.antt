-- ===== src/Incidents/Consistent.antt =====
-- What holds of the trackers and incidents of internal/incidents/engine.go between two calls.
pub mod Advance
pub mod Settle
pub mod Ready
pub mod Observe
use mathlib.Core.Path.{subst}
use logthing.Prelude.{
  ℕ, ◌+◌, ◌≤◌, String, ◌≡◌, refl, sym, ap, ◌∙◌, ◌≢◌, Bool, true, false, Option, none, some, List,
  [], ◌∷◌, ◌==◌, eq_iff, All, arith, if◌then◌else◌, Option-cases, Bool-cases, inl, inr,
}
use logthing.Prelude.Maps.{
  Map, lookup, insert, remove, lookup-insert, lookup-remove, All-remove, All-lookup, All-insert,
  IsMap, IsMap-insert, IsMap-remove,
}
use logthing.Incidents.Types.{State, Phase, Incident, Tracker, Snapshot, tracker_key}

abbrev pub incident_key : Incident → String
incident_key i = tracker_key i.hostname i.interface

-- The recovery began after the start, and the incident was resolved when it had lasted.
abbrev pub IsRecovered : Incident → Option ℕ → Option ℕ → Type 0
IsRecovered i (some since) (some at) = (i.started_at ≤ since) × (at ≡ since + i.recovered_after)
IsRecovered i _ _ = ⊥

abbrev pub IsRecovering : Incident → Option ℕ → Option ℕ → Type 0
IsRecovering i (some since) none = i.started_at ≤ since
IsRecovering i _ _ = ⊥

abbrev IsActivated : Incident → Type 0
IsActivated i = i.activated_at ≡ some (i.started_at + i.down_after)

-- The times that an incident has are those of its state.
abbrev pub HasShape : State → Incident → Type 0
HasShape State.pending_failure i =
    (i.activated_at ≡ none) × (i.recovery_first_at ≡ none) × (i.resolved_at ≡ none)
HasShape State.active i = IsActivated i × (i.recovery_first_at ≡ none) × (i.resolved_at ≡ none)
HasShape State.pending_recovery i = IsActivated i × IsRecovering i i.recovery_first_at i.resolved_at
HasShape State.resolved i = IsActivated i × IsRecovered i i.recovery_first_at i.resolved_at

-- An incident is stored under its identifier.
abbrev pub IsShaped : String × Incident → Type 0
IsShaped e = (e.1.id ≡ e.0) × HasShape e.1.state e.1

abbrev Belongs : String → Tracker → Incident → Type 0
Belongs key t i =
    (i.id ≡ t.incident_id) × (incident_key i ≡ key) × (i.started_at ≤ t.last_evidence_at)

-- A tracker in an outage has its incident, in the state that its phase names.
abbrev pub LinkOf : String → Tracker → Phase → Option Incident → Type 0
LinkOf key t Phase.pending_failure (some i) =
    Belongs key t i × (i.state ≡ State.pending_failure) × (t.pending_since ≡ i.started_at)
LinkOf key t Phase.active (some i) = Belongs key t i × (i.state ≡ State.active)
LinkOf key t Phase.pending_recovery (some i) =
    Belongs key t i
    × (i.state ≡ State.pending_recovery)
    × (i.recovery_first_at ≡ some t.recovery_since)
LinkOf key t Phase.healthy found = Unit
LinkOf key t Phase.unset found = Unit
LinkOf key t _ none = ⊥

abbrev pub IsLinked : Map Incident → String × Tracker → Type 0
IsLinked incidents e = LinkOf e.0 e.1 e.1.phase (lookup e.1.incident_id incidents)

pub record IsConsistent (s : Snapshot) : Type 0 where
  pub keyed : IsMap s.trackers
  pub keyed_incidents : IsMap s.incidents
  pub shaped : All IsShaped s.incidents
  pub linked : All (IsLinked s.incidents) s.trackers

-- An identifier is free, or names an incident of this tracker.
abbrev pub OwnedBy : String → Option Incident → Type 0
OwnedBy key none = Unit
OwnedBy key (some i) = incident_key i ≡ key

-- A change of one tracker's incident leaves the links of the others.

relink_same :
    (key k : String) (t : Tracker) (phase : Phase) (old new : Option Incident)
    → k ≢ key
    → OwnedBy key old
    → LinkOf k t phase old
    → LinkOf k t phase new
relink_same key k t Phase.unset old new n o l = tt
relink_same key k t Phase.healthy old new n o l = tt
relink_same key k t Phase.pending_failure none new n o l = absurd l
relink_same key k t Phase.pending_failure (some i) new n o l = absurd (n (sym l.0.1 ∙ o))
relink_same key k t Phase.active none new n o l = absurd l
relink_same key k t Phase.active (some i) new n o l = absurd (n (sym l.0.1 ∙ o))
relink_same key k t Phase.pending_recovery none new n o l = absurd l
relink_same key k t Phase.pending_recovery (some i) new n o l = absurd (n (sym l.0.1 ∙ o))

relink_if :
    (key k : String) (t : Tracker) (id : String) (incidents : Map Incident) (new : Option Incident)
    → k ≢ key
    → OwnedBy key (lookup id incidents)
    → IsLinked incidents (k, t)
    → LinkOf k t t.phase (if id == t.incident_id then new else lookup t.incident_id incidents)
relink_if key k t id incidents new n o l = elim (Bool-cases (id == t.incident_id)) [
  | inl same ↦
      let e : id ≡ t.incident_id = (eq_iff id t.incident_id).0 same in
      rw same (relink_same key k t t.phase (lookup t.incident_id incidents) new n (rw (← e) o) l)
  | inr other ↦ rw other l
]

module _ (s : Snapshot) (key : String) (id : String) (c : IsConsistent s)
    (owned : OwnedBy key (lookup id s.incidents)) where
  -- A tracker and its incident are written.
  pub insert-IsConsistent :
      (t : Tracker) (i : Incident)
      → IsShaped (id, i)
      → LinkOf key t t.phase
          (if id == t.incident_id then some i else lookup t.incident_id s.incidents)
      → IsConsistent
          (record s { trackers = insert key t s.trackers; incidents = insert id i s.incidents })
  insert-IsConsistent t i sh l = record {
    keyed = IsMap-insert key t s.trackers c.keyed;
    keyed_incidents = IsMap-insert id i s.incidents c.keyed_incidents;
    shaped = All-insert IsShaped IsShaped id i s.incidents sh (λ j v _ h. h) c.shaped;
    linked =
        All-insert (IsLinked s.incidents) (IsLinked (insert id i s.incidents)) key t s.trackers
          (subst (LinkOf key t t.phase) (sym (lookup-insert id t.incident_id i s.incidents)) l)
          (λ k u n h.
            subst (LinkOf k u u.phase) (sym (lookup-insert id u.incident_id i s.incidents))
              (relink_if key k u id s.incidents (some i) n owned h))
          c.linked;
  }

  -- A tracker is written and its incident is deleted.
  pub remove-IsConsistent :
      (t : Tracker)
      → LinkOf key t t.phase
          (if id == t.incident_id then none else lookup t.incident_id s.incidents)
      → IsConsistent
          (record s { trackers = insert key t s.trackers; incidents = remove id s.incidents })
  remove-IsConsistent t l = record {
    keyed = IsMap-insert key t s.trackers c.keyed;
    keyed_incidents = IsMap-remove id s.incidents c.keyed_incidents;
    shaped = All-remove IsShaped IsShaped id s.incidents (λ j v _ h. h) c.shaped;
    linked =
        All-insert (IsLinked s.incidents) (IsLinked (remove id s.incidents)) key t s.trackers
          (subst (LinkOf key t t.phase) (sym (lookup-remove id t.incident_id s.incidents)) l)
          (λ k u n h.
            subst (LinkOf k u u.phase) (sym (lookup-remove id u.incident_id s.incidents))
              (relink_if key k u id s.incidents none n owned h))
          c.linked;
  }

-- The incident of a linked tracker, and what its entry in the map says.
pub lookup-IsShaped :
    (s : Snapshot) (id : String) (i : Incident)
    → IsConsistent s
    → lookup id s.incidents ≡ some i
    → IsShaped (id, i)
lookup-IsShaped s id i c e = All-lookup IsShaped id i s.incidents c.shaped e

pub lookup-IsLinked :
    (s : Snapshot) (key : String) (t : Tracker)
    → IsConsistent s
    → lookup key s.trackers ≡ some t
    → IsLinked s.incidents (key, t)
lookup-IsLinked s key t c e = All-lookup (IsLinked s.incidents) key t s.trackers c.linked e
