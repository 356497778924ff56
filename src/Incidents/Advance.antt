-- ===== src/Incidents/Advance.antt =====
-- `advanceLocked` of internal/incidents/engine.go: every time that has come is acted on, the first
-- one first.
pub mod Settles
use logthing.Prelude.{
  ℕ, zero, suc, ◌+◌, String, Bool, true, false, Option, none, some, List, [], ◌∷◌, ◌==◌, length,
  if◌then◌else◌,
}
use logthing.Prelude.Maps.{Map, lookup, insert, remove}
use logthing.Incidents.Types.{
  State, Kind, incident_opened, incident_resolved, fallback_opened, fallback_resolved, Phase,
  Config, Incident, NotificationJob, Tracker, healthy_tracker, Snapshot,
}
use logthing.Incidents.Jobs.{enqueue, enqueue_escalation, primary_down_at, escalate_fallbacks}
use logthing.Incidents.Due.{next_due}

-- The incident of a failure that has lasted `down_after`.
abbrev pub activated : Tracker → Incident → Incident
activated t i = record i {
  state = State.active;
  activated_at = some (t.pending_since + i.down_after);
  notify = t.notify;
}

-- The incident of a recovery that has lasted `recovered_after`.
abbrev pub resolved_incident : Tracker → Incident → Incident
resolved_incident t i = record i {
  state = State.resolved;
  resolved_at = some (t.recovery_since + i.recovered_after);
}

module _ (cfg : Config) where
  -- The notification of an outage that is now confirmed.
  abbrev pub announce_fallback :
      Option Incident → Incident → ℕ → Map NotificationJob → Map NotificationJob
  announce_fallback none i at = enqueue i.id fallback_opened at
  announce_fallback (some primary) i at = enqueue_escalation i.id primary.id at

  abbrev pub announce_failure :
      Map Incident → Incident → ℕ → Map NotificationJob → Map NotificationJob
  announce_failure incidents i at jobs =
      if i.notify
      then (if i.interface == cfg.interface
          then enqueue i.id incident_opened at jobs
          else announce_fallback (primary_down_at cfg incidents i.hostname at) i at jobs)
      else jobs

  abbrev pub escalate_if_primary :
      Map Incident → Incident → ℕ → Map NotificationJob → Map NotificationJob
  escalate_if_primary incidents i at jobs =
      if i.interface == cfg.interface
      then escalate_fallbacks cfg incidents i.hostname i.id at jobs
      else jobs

  abbrev pub announce_recovery : Incident → ℕ → Map NotificationJob → Map NotificationJob
  announce_recovery i at jobs =
      if i.notify
      then enqueue i.id
          (if i.interface == cfg.interface then incident_resolved else fallback_resolved) at jobs
      else jobs

  unfoldable pub confirm_failure : Snapshot → String → Tracker → Option Incident → Snapshot
  confirm_failure s key t none = record s { trackers = remove key s.trackers }
  confirm_failure s key t (some found) =
      let at = t.pending_since + found.down_after in
      let i = activated t found in
      let incidents = insert i.id i s.incidents in
      record s {
        trackers = insert key (record t { phase = Phase.active }) s.trackers;
        incidents = incidents;
        jobs = escalate_if_primary incidents i at (announce_failure incidents i at s.jobs);
      }

  unfoldable pub confirm_recovery : Snapshot → String → Tracker → Option Incident → Snapshot
  confirm_recovery s key t none = record s { trackers = remove key s.trackers }
  confirm_recovery s key t (some found) =
      let i = resolved_incident t found in
      record s {
        trackers = insert key (healthy_tracker t.last_evidence_at) s.trackers;
        incidents = insert i.id i s.incidents;
        jobs = announce_recovery i (t.recovery_since + found.recovered_after) s.jobs;
      }

  -- One round of the loop, on the tracker that was found.
  abbrev pub fire_phase : Phase → Snapshot → String → Tracker → Option Incident → Snapshot
  fire_phase Phase.pending_failure s key t found = confirm_failure s key t found
  fire_phase Phase.pending_recovery s key t found = confirm_recovery s key t found
  fire_phase _ s key t found = s

  unfoldable pub fire : Snapshot → String → Tracker → Snapshot
  fire s key t = fire_phase t.phase s key t (lookup t.incident_id s.incidents)

  -- The loop, with fuel: the state, and whether it changed.
  unfoldable pub advance_from : ℕ → Snapshot → ℕ → Snapshot × Bool
  advance_from zero s now = (s, false)
  advance_from (suc fuel) s now = elim (next_due cfg s.incidents s.trackers now) [
    | none ↦ (s, false)
    | some (key, t) ↦ ((advance_from fuel (fire s key t) now).0, true)
  ]

  -- A round leaves fewer trackers pending, so their number is fuel enough.
  unfoldable pub advance : Snapshot → ℕ → Snapshot × Bool
  unfolding advance_from
  advance s now = advance_from (length s.trackers) s now
