-- ===== src/Incidents/Consistent/Settle.antt =====
-- The two cases of the switch in `observeLocked` of internal/incidents/engine.go keep trackers and
-- incidents consistent.
use mathlib.Core.Path.{subst}
use logthing.Prelude.{
  ℕ, ◌≤◌, String, ◌≡◌, refl, sym, Bool, true, false, ◌||◌, Option, none, some, eq_iff, arith,
  Option-cases, if_both, inl, inr,
}
use logthing.Prelude.Maps.{lookup, insert, IsMap-insert, All-insert}
use logthing.Incidents.Types.{
  State, Phase, Config, Incident, Tracker, Snapshot, tracker_key, healthy_tracker,
}
use logthing.Incidents.Classify.{Evidence}
use logthing.Incidents.Observe.{
  Platform, tracker_at, update_incident, add_evidence, evidence_id, failing_tracker, new_incident,
  put, still_down, online, offline, settle, is_outranked,
}
use logthing.Incidents.Consistent.{
  IsConsistent, HasShape, IsRecovering, IsLinked, LinkOf, OwnedBy, insert-IsConsistent,
  remove-IsConsistent, lookup-IsShaped, lookup-IsLinked, incident_key,
}
use logthing.Incidents.Consistent.Advance.{owned_of}

pub tracker_at-IsLinked :
    (s : Snapshot) (key : String)
    → IsConsistent s
    → IsLinked s.incidents (key, tracker_at s.trackers key)
tracker_at-IsLinked s key c = elim (Option-cases (lookup key s.trackers)) [
  | inl e ↦ rw e tt
  | inr (t, e) ↦ rw e (lookup-IsLinked s key t c e)
]

-- Only the tracker is written.
pub tracker-IsConsistent :
    (s : Snapshot) (key : String) (t : Tracker)
    → IsConsistent s
    → IsLinked s.incidents (key, t)
    → IsConsistent (record s { trackers = insert key t s.trackers })
tracker-IsConsistent s key t c l = record {
  keyed = IsMap-insert key t s.trackers c.keyed;
  keyed_incidents = c.keyed_incidents;
  shaped = c.shaped;
  linked =
      All-insert (IsLinked s.incidents) (IsLinked s.incidents) key t s.trackers l (λ _ _ _ h. h)
        c.linked;
}

-- The tracker is written, and its incident is changed.
change-IsConsistent :
    (s : Snapshot) (key : String) (t : Tracker) (i : Incident) (f : Incident → Incident)
    (state : State)
    → IsConsistent s
    → lookup t.incident_id s.incidents ≡ some i
    → i.id ≡ t.incident_id
    → incident_key i ≡ key
    → (f i).id ≡ i.id
    → (f i).state ≡ state
    → HasShape state (f i)
    → LinkOf key t t.phase (some (f i))
    → IsConsistent (put key t (update_incident t.incident_id f s.incidents) s)
change-IsConsistent s key t i f state c e same k fid st shape l = rw e (
    insert-IsConsistent s key i.id c (owned_of s key t i e same k) t (f i)
      (fid, subst (λ x. HasShape x (f i)) (sym st) shape)
      (rw ((eq_iff i.id t.incident_id).1 same) l))

recovering_open : (i : Incident) (since at : Option ℕ) → IsRecovering i since at → at ≡ none
recovering_open i (some since) none h = refl
recovering_open i (some since) (some at) h = absurd h
recovering_open i none at h = absurd h

abbrev is_open : Phase → Bool
is_open Phase.unset = false
is_open Phase.healthy = false
is_open _ = true

linked_some :
    (key : String) (t : Tracker) (phase : Phase) (found : Option Incident)
    → is_open phase ≡ true
    → LinkOf key t phase found
    → (i : Incident) × (found ≡ some i) × LinkOf key t phase (some i)
linked_some key t Phase.unset found o l = absurd (cc)
linked_some key t Phase.healthy found o l = absurd (cc)
linked_some key t Phase.pending_failure none o l = absurd l
linked_some key t Phase.active none o l = absurd l
linked_some key t Phase.pending_recovery none o l = absurd l
linked_some key t Phase.pending_failure (some i) o l = (i, refl, l)
linked_some key t Phase.active (some i) o l = (i, refl, l)
linked_some key t Phase.pending_recovery (some i) o l = (i, refl, l)

module _ (s : Snapshot) (c : IsConsistent s) (e : Evidence) (key : String) (current : Tracker)
    (later : current.last_evidence_at ≤ e.at) where
  abbrev seen : Tracker
  seen = record current { last_evidence_at = e.at }

  abbrev found : Option Incident
  found = lookup current.incident_id s.incidents

  shape_of : (i : Incident) (state : State) → found ≡ some i → i.state ≡ state → HasShape state i
  shape_of i state h st =
      subst (λ x. HasShape x i) st (lookup-IsShaped s current.incident_id i c h).1

  online-IsConsistent :
      (phase : Phase)
      → current.phase ≡ phase
      → LinkOf key current phase found
      → IsConsistent (online phase e key seen s)
  unfolding online linked_some
  online-IsConsistent Phase.unset p l = tracker-IsConsistent s key (healthy_tracker e.at) c tt
  online-IsConsistent Phase.healthy p l = tracker-IsConsistent s key seen c (rw p tt)
  online-IsConsistent Phase.pending_failure p l =
      let (i, h, ((same, k, _), _, _)) =
        linked_some key current Phase.pending_failure found refl l in
      remove-IsConsistent s key current.incident_id c (rw h k) (healthy_tracker e.at) tt
  online-IsConsistent Phase.active p l =
      let (i, h, ((same, k, start), st)) = linked_some key current Phase.active found refl l in
      let shape = shape_of i State.active h st in
      change-IsConsistent s key
        (record seen { phase = Phase.pending_recovery; recovery_since = e.at }) i
        (λ i. record (add_evidence e i) {
          state = State.pending_recovery;
          recovery_first_at = some e.at;
        })
        State.pending_recovery c h same k refl refl (shape.0, rw (shape.2) (omega arith))
        ((same, k, omega arith), refl, refl)
  online-IsConsistent Phase.pending_recovery p l =
      let (i, h, ((same, k, start), st, since)) =
        linked_some key current Phase.pending_recovery found refl l in
      change-IsConsistent s key seen i (add_evidence e) State.pending_recovery c h same k refl st
        (shape_of i State.pending_recovery h st) (rw p ((same, k, omega arith), st, since))

  module _ (pf : Platform) (cfg : Config) (eligible : Bool)
      (key_is : tracker_key e.hostname e.iface ≡ key)
      (owned : OwnedBy key (lookup (evidence_id pf cfg e) s.incidents)) where
    opened-IsConsistent : IsConsistent (
        put key
          (failing_tracker pf cfg e eligible)
          (insert (evidence_id pf cfg e) (new_incident pf cfg e eligible) s.incidents)
          s)
    opened-IsConsistent =
        insert-IsConsistent s key (evidence_id pf cfg e) c owned (failing_tracker pf cfg e eligible)
          (new_incident pf cfg e eligible) (refl, (refl, refl, refl))
          (rw ((eq_iff (evidence_id pf cfg e) (evidence_id pf cfg e)).1 refl)
            ((refl, key_is, omega arith), refl, refl))

    offline-IsConsistent :
        (phase : Phase)
        → current.phase ≡ phase
        → LinkOf key current phase found
        → IsConsistent (offline pf cfg phase e eligible key seen s)
    unfolding offline linked_some
    offline-IsConsistent Phase.unset p l = opened-IsConsistent
    offline-IsConsistent Phase.healthy p l = opened-IsConsistent
    offline-IsConsistent Phase.pending_failure p l =
        let (i, h, ((same, k, start), st, since)) =
          linked_some key current Phase.pending_failure found refl l in
        change-IsConsistent s key
          (record (still_down e seen) { notify = current.notify || eligible }) i
          (λ i. record (add_evidence e i) { notify = current.notify || eligible })
          State.pending_failure c h same k refl st (shape_of i State.pending_failure h st)
          (rw p ((same, k, omega arith), st, since))
    offline-IsConsistent Phase.active p l =
        let (i, h, ((same, k, start), st)) = linked_some key current Phase.active found refl l in
        change-IsConsistent s key (still_down e seen) i (add_evidence e) State.active c h same k
          refl st (shape_of i State.active h st) (rw p ((same, k, omega arith), st))
    offline-IsConsistent Phase.pending_recovery p l =
        let (i, h, ((same, k, start), st, since)) =
          linked_some key current Phase.pending_recovery found refl l in
        let shape = shape_of i State.pending_recovery h st in
        change-IsConsistent s key
          (record (still_down e seen) { phase = Phase.active; recovery_since = 0 }) i
          (λ i. record (add_evidence e i) { state = State.active; recovery_first_at = none })
          State.active c h same k refl refl
          (shape.0, refl, recovering_open i i.recovery_first_at i.resolved_at shape.1)
          ((same, k, omega arith), refl)

module _ (p : Platform) (cfg : Config) where
  pub settle-IsConsistent :
      (s : Snapshot) (e : Evidence) (eligible : Bool)
      → let key = tracker_key e.hostname e.iface in
        IsConsistent s
        → OwnedBy key (lookup (evidence_id p cfg e) s.incidents)
        → (tracker_at s.trackers key).last_evidence_at ≤ e.at
        → IsConsistent (settle p cfg e eligible key s)
  unfolding settle
  settle-IsConsistent s e eligible c owned later =
      let key = tracker_key e.hostname e.iface in
      let current = tracker_at s.trackers key in
      let l = tracker_at-IsLinked s key c in
      if_both IsConsistent (is_outranked cfg e current) _ _ (λ _. c)
        (λ _.
          if_both IsConsistent e.online _ _
            (λ _. online-IsConsistent s c e key current later current.phase refl l)
            (λ _.
              offline-IsConsistent s c e key current later p cfg eligible refl owned current.phase
                refl l))
