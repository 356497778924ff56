-- ===== src/Incidents/Consistent/Ready.antt =====
-- What `observeLocked` of internal/incidents/engine.go needs of the state that `advanceLocked` leaves.
use native.Mathlib.Nat.{le_refl, le_trans}
use logthing.Prelude.{
  ℕ, ◌≤◌, String, ◌≡◌, refl, ap, ◌∙◌, Option, none, some, ◌==◌, eq_iff, All-mem, Bool-cases, inl,
  inr,
}
use logthing.Prelude.Maps.{Map, lookup, insert, lookup-insert}
use logthing.Incidents.Types.{Phase, Config, Incident, Tracker, Snapshot, healthy_tracker}
use logthing.Incidents.Due.{next_due}
use logthing.Incidents.Advance.{
  fire, fire_phase, confirm_failure, confirm_recovery, activated, resolved_incident, advance,
}
use logthing.Incidents.Advance.Settles.{next_due-IsPending, advance_induction}
use logthing.Incidents.Observe.{Platform, tracker_at}
use logthing.Incidents.Consistent.{IsConsistent, IsLinked, LinkOf, OwnedBy, incident_key}
use logthing.Incidents.Consistent.Advance.{fire-IsConsistent}

owned-insert :
    (key id : String) (i j : Incident) (m : Map Incident)
    → lookup i.id m ≡ some i
    → incident_key j ≡ incident_key i
    → OwnedBy key (lookup id m)
    → OwnedBy key (lookup id (insert i.id j m))
owned-insert key id i j m h same o = elim (Bool-cases (i.id == id)) [
  | inl e ↦
      let at_id : lookup id m ≡ some i = rw (← (eq_iff i.id id).0 e) h in
      rw (lookup-insert i.id id j m, e) (same ∙ rw at_id at o)
  | inr e ↦ rw (lookup-insert i.id id j m, e) o
]

later-insert :
    (k key : String) (t u : Tracker) (at : ℕ) (m : Map Tracker)
    → lookup k m ≡ some t
    → u.last_evidence_at ≤ t.last_evidence_at
    → (tracker_at m key).last_evidence_at ≤ at
    → (tracker_at (insert k u m) key).last_evidence_at ≤ at
later-insert k key t u at m h le o = elim (Bool-cases (k == key)) [
  | inl e ↦
      let at_key : lookup key m ≡ some t = rw (← (eq_iff k key).0 e) h in
      rw (lookup-insert k key u m, e) (le_trans le (rw at_key at o))
  | inr e ↦ rw (lookup-insert k key u m, e) o
]

-- What the evidence at `at` of a tracker needs, which acting on other times does not spoil.
pub record IsReady (key id : String) (at : ℕ) (s : Snapshot) : Type 0 where
  pub consistent : IsConsistent s
  pub owned : OwnedBy key (lookup id s.incidents)
  pub later : (tracker_at s.trackers key).last_evidence_at ≤ at

module _ (cfg : Config) (key id : String) (at : ℕ) where
  fire_phase-keeps :
      (s : Snapshot) (k : String) (t : Tracker) (phase : Phase) (o : Option Incident)
      → IsReady key id at s
      → lookup k s.trackers ≡ some t
      → lookup t.incident_id s.incidents ≡ o
      → LinkOf k t phase o
      → let s' = fire_phase cfg phase s k t o in
        OwnedBy key (lookup id s'.incidents) × ((tracker_at s'.trackers key).last_evidence_at ≤ at)
  unfolding confirm_failure confirm_recovery
  fire_phase-keeps s k t Phase.unset o r h e l = (r.owned, r.later)
  fire_phase-keeps s k t Phase.healthy o r h e l = (r.owned, r.later)
  fire_phase-keeps s k t Phase.active o r h e l = (r.owned, r.later)
  fire_phase-keeps s k t Phase.pending_failure none r h e l = absurd l
  fire_phase-keeps s k t Phase.pending_recovery none r h e l = absurd l
  fire_phase-keeps s k t Phase.pending_failure (some i) r h e ((same, _, _), _, _) = (
    owned-insert key id i (activated t i) s.incidents (ap (λ x. lookup x s.incidents) same ∙ e) refl
        r.owned,
    later-insert k key t (record t { phase = Phase.active }) at s.trackers h (le_refl _) r.later,
  )
  fire_phase-keeps s k t Phase.pending_recovery (some i) r h e ((same, _, _), _, _) = (
    owned-insert key id i (resolved_incident t i) s.incidents
        (ap (λ x. lookup x s.incidents) same ∙ e) refl r.owned,
    later-insert k key t (healthy_tracker t.last_evidence_at) at s.trackers h (le_refl _) r.later,
  )

  fire-IsReady :
      (now : ℕ) (s : Snapshot) (k : String) (t : Tracker)
      → next_due cfg s.incidents s.trackers now ≡ some (k, t)
      → IsReady key id at s
      → IsReady key id at (fire cfg s k t)
  unfolding fire
  fire-IsReady now s k t e r =
      let m = (next_due-IsPending cfg s now k t e).0 in
      let (o, l) =
        fire_phase-keeps s k t t.phase (lookup t.incident_id s.incidents) r
          (All-mem (λ x. lookup x.0 s.trackers ≡ some x.1) (k, t) s.trackers r.consistent.keyed m)
          refl (All-mem (IsLinked s.incidents) (k, t) s.trackers r.consistent.linked m) in
      record { consistent = fire-IsConsistent cfg now s k t e r.consistent; owned = o; later = l }

module _ (p : Platform) (cfg : Config) where
  pub advance-IsReady :
      (key id : String) (at now : ℕ) (s : Snapshot)
      → IsReady key id at s
      → IsReady key id at (advance cfg s now).0
  advance-IsReady key id at now s r =
      advance_induction cfg (IsReady key id at) now (fire-IsReady cfg key id at now) s r
