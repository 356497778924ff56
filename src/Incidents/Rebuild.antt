-- ===== src/Incidents/Rebuild.antt =====
-- `Rebuild` of internal/incidents/engine.go: the state is derived anew from the whole log, and what
-- was reported before stays reported.
pub mod Laws
pub mod Consistent
use logthing.Prelude.{
  ℕ, String, Bool, true, false, not, ◌&&◌, ◌||◌, Option, none, some, List, [], ◌∷◌, ◌==◌, ltb, map,
  if◌then◌else◌,
}
use logthing.Prelude.Text.{is_some}
use logthing.Prelude.Maps.{Map, lookup, insert}
use logthing.Incidents.Types.{
  State, incident_opened, incident_resolved, fallback_opened, fallback_resolved, Config, Incident,
  NotificationJob, Tracker, Cursor, Snapshot,
}
use logthing.Incidents.Jobs.{enqueue, enqueue_escalation, primary_down_at, before_or_none}
use logthing.Incidents.Observe.{Platform}
use logthing.Incidents.Advance.{announce_fallback}
use logthing.Incidents.Service.{Observation, Saved, saved, empty, observe_all}

-- An incident that was to be reported before is still to be.
abbrev pub keep_notify : Incident → Option Incident → Incident
keep_notify i none = i
keep_notify i (some old) = record i { notify = i.notify || old.notify }

abbrev pub renotified : Map Incident → Map Incident → Map Incident
renotified previous incidents = map (λ e. (e.0, keep_notify e.1 (lookup e.0 previous))) incidents

abbrev pub notify_as : Tracker → Option Incident → Tracker
notify_as t none = t
notify_as t (some i) = record t { notify = i.notify }

abbrev pub retracked : Map Incident → Map Tracker → Map Tracker
retracked incidents trackers =
    map (λ e. (e.0, notify_as e.1 (lookup e.1.incident_id incidents))) trackers

-- The old jobs whose incidents are there are put back.
pub restore_jobs : Map Incident → Map NotificationJob → Map NotificationJob → Map NotificationJob
restore_jobs incidents [] jobs = jobs
restore_jobs incidents ((id, job) ∷ rest) jobs =
    let restored = restore_jobs incidents rest jobs in
    if is_some (lookup job.incident_id incidents) then insert id job restored else restored

module _ (cfg : Config) where
  abbrev pub is_primary : Incident → Bool
  is_primary i = i.interface == cfg.interface

  -- The job of the outage's begin.
  abbrev pub rebuild_opened :
      Map Incident → Incident → ℕ → Map NotificationJob → Map NotificationJob
  rebuild_opened incidents i at jobs =
      if is_primary i
      then enqueue i.id incident_opened at jobs
      else announce_fallback cfg (primary_down_at cfg incidents i.hostname at) i at jobs

  -- The job of the outage's end, if it has ended.
  abbrev pub rebuild_resolved :
      State → Incident → Option ℕ → Map NotificationJob → Map NotificationJob
  rebuild_resolved State.resolved i (some at) jobs =
      enqueue i.id (if is_primary i then incident_resolved else fallback_resolved) at jobs
  rebuild_resolved _ i _ jobs = jobs

  -- The primary interface of the backup's host failed after the backup and before the backup's end.
  abbrev pub fails_later : Incident → ℕ → Incident → ℕ → Bool
  fails_later i at primary failed =
      primary.hostname == i.hostname
      && is_primary primary
      && ltb at failed
      && before_or_none failed i.resolved_at

  abbrev pub escalate_later :
      Incident → ℕ → Incident → Option ℕ → Map NotificationJob → Map NotificationJob
  escalate_later i at primary none jobs = jobs
  escalate_later i at primary (some failed) jobs =
      if fails_later i at primary failed
      then enqueue_escalation i.id primary.id failed jobs
      else jobs

  pub rebuild_escalations : Map Incident → Incident → ℕ → Map NotificationJob → Map NotificationJob
  rebuild_escalations [] i at jobs = jobs
  rebuild_escalations ((_, primary) ∷ rest) i at jobs =
      rebuild_escalations rest i at (escalate_later i at primary primary.activated_at jobs)

  abbrev pub rebuild_incident :
      Map Incident → Incident → Option ℕ → Map NotificationJob → Map NotificationJob
  rebuild_incident incidents i none jobs = jobs
  rebuild_incident incidents i (some at) jobs =
      let reported =
        rebuild_resolved i.state i i.resolved_at (rebuild_opened incidents i at jobs) in
      if i.notify
      then (if is_primary i then reported else rebuild_escalations incidents i at reported)
      else jobs

  -- The loop over the incidents `rest`.
  pub rebuild_jobs : Map Incident → Map Incident → Map NotificationJob → Map NotificationJob
  rebuild_jobs incidents [] jobs = jobs
  rebuild_jobs incidents ((_, i) ∷ rest) jobs =
      rebuild_jobs incidents rest (rebuild_incident incidents i i.activated_at jobs)

module _ (save : Snapshot → Option String) (p : Platform) (cfg : Config) where
  abbrev pub fresh : Map Cursor → ℕ → Snapshot
  fresh cursors at = record empty {
    version = 1;
    bootstrapped = true;
    last_checkpoint_at = at;
    cursors = cursors;
  }

  unfoldable pub rebuilt : List Observation → Map Cursor → ℕ → Snapshot → Snapshot
  rebuilt observations cursors at previous =
      let seen = observe_all save p cfg observations (fresh cursors at) in
      let incidents = renotified previous.incidents seen.incidents in
      record seen {
        incidents = incidents;
        trackers = retracked incidents seen.trackers;
        jobs =
            rebuild_jobs cfg incidents incidents (restore_jobs incidents previous.jobs seen.jobs);
      }

  -- `Rebuild`
  unfoldable pub rebuild : List Observation → Map Cursor → ℕ → Snapshot → Saved
  unfolding rebuilt
  rebuild observations cursors at previous = saved save (rebuilt observations cursors at previous)
