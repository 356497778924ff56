-- ===== src/Incidents/Consistent/Advance.antt =====
-- `advanceLocked` keeps trackers and incidents consistent.
use mathlib.Core.Path.{subst}
use logthing.Prelude.{ℕ, ◌≤◌, String, ◌≡◌, refl, Option, none, some, eq_iff, All-mem}
use logthing.Prelude.Maps.{lookup}
use logthing.Incidents.Types.{State, Phase, Config, Incident, Tracker, Snapshot, healthy_tracker}
use logthing.Incidents.Due.{next_due}
use logthing.Incidents.Advance.{
  fire, fire_phase, confirm_failure, confirm_recovery, advance, activated, resolved_incident,
}
use logthing.Incidents.Advance.Settles.{advance_induction, next_due-IsPending}
use logthing.Incidents.Consistent.{
  IsConsistent, IsRecovering, HasShape, IsLinked, LinkOf, OwnedBy, insert-IsConsistent,
  lookup-IsShaped, incident_key,
}

-- What a linked tracker gives: its incident's identifier is owned, and the test for it passes.
pub owned_of :
    (s : Snapshot) (key : String) (t : Tracker) (i : Incident)
    → lookup t.incident_id s.incidents ≡ some i
    → i.id ≡ t.incident_id
    → incident_key i ≡ key
    → OwnedBy key (lookup i.id s.incidents)
owned_of s key t i e same k = rw (same, e) k

recovering_since :
    (i : Incident) (since : ℕ) (at : Option ℕ)
    → IsRecovering i (some since) at
    → i.started_at ≤ since
recovering_since i since none h = h
recovering_since i since (some at) h = absurd h

module _ (cfg : Config) (s : Snapshot) (key : String) (t : Tracker) (c : IsConsistent s) where
  fire_phase-IsConsistent :
      (phase : Phase) (found : Option Incident)
      → lookup t.incident_id s.incidents ≡ found
      → LinkOf key t phase found
      → IsConsistent (fire_phase cfg phase s key t found)
  fire_phase-IsConsistent Phase.unset found e l = c
  fire_phase-IsConsistent Phase.healthy found e l = c
  fire_phase-IsConsistent Phase.active found e l = c
  fire_phase-IsConsistent Phase.pending_failure none e l = absurd l
  fire_phase-IsConsistent Phase.pending_recovery none e l = absurd l
  fire_phase-IsConsistent Phase.pending_failure (some i) e ((same, k, after), st, since) =
      let shape : HasShape State.pending_failure i =
        subst (λ x. HasShape x i) st (lookup-IsShaped s t.incident_id i c e).1 in
      let kept =
        insert-IsConsistent s key i.id c (owned_of s key t i e same k)
          (record t { phase = Phase.active }) (activated t i) (refl, (rw since, shape.1, shape.2))
          (rw ((eq_iff i.id t.incident_id).1 same) ((same, k, after), refl)) in
      unfold confirm_failure in
      record {
        keyed = kept.keyed;
        keyed_incidents = kept.keyed_incidents;
        shaped = kept.shaped;
        linked = kept.linked;
      }
  fire_phase-IsConsistent Phase.pending_recovery (some i) e ((same, k, after), st, since) =
      let shape : HasShape State.pending_recovery i =
        subst (λ x. HasShape x i) st (lookup-IsShaped s t.incident_id i c e).1 in
      let kept =
        insert-IsConsistent s key i.id c (owned_of s key t i e same k)
          (healthy_tracker t.last_evidence_at) (resolved_incident t i)
          (
            refl,
            (
              shape.0,
              rw since (
                recovering_since i t.recovery_since i.resolved_at
                    (subst (λ r. IsRecovering i r i.resolved_at) since shape.1),
                refl,
              ),
            ),
          )
          tt in
      unfold confirm_recovery in
      record {
        keyed = kept.keyed;
        keyed_incidents = kept.keyed_incidents;
        shaped = kept.shaped;
        linked = kept.linked;
      }

module _ (cfg : Config) (now : ℕ) where
  pub fire-IsConsistent :
      (s : Snapshot) (key : String) (t : Tracker)
      → next_due cfg s.incidents s.trackers now ≡ some (key, t)
      → IsConsistent s
      → IsConsistent (fire cfg s key t)
  unfolding fire
  fire-IsConsistent s key t e c =
      fire_phase-IsConsistent cfg s key t c t.phase (lookup t.incident_id s.incidents) refl (
        All-mem (IsLinked s.incidents) (key, t) s.trackers c.linked
          (next_due-IsPending cfg s now key t e).0)

  -- `advanceLocked` keeps the state consistent.
  pub advance-IsConsistent : (s : Snapshot) → IsConsistent s → IsConsistent (advance cfg s now).0
  advance-IsConsistent s c = advance_induction cfg IsConsistent now fire-IsConsistent s c
