-- ===== src/Incidents/Service.antt =====
-- The methods of `Service` in internal/incidents/engine.go. The lock makes each of them one step.
-- A method that stores the state returns the error of `Persistence.Save` beside the new state; no
-- persistence is a function that never fails. Values are copied where Go clones them.
pub mod Outbox
pub mod Intact
pub mod Runs
use logthing.Prelude.{
  ℕ, zero, suc, ◌+◌, String, Bool, true, false, not, ◌&&◌, ◌||◌, Option, none, some, List, [], ◌∷◌,
  ◌++◌, ◌==◌, ltb, leb, eqb, keep, take, drop, map, length, if◌then◌else◌,
}
use logthing.Prelude.Int.{ℤ, pos_part}
use logthing.Prelude.Text.{is_some}
use logthing.Prelude.Maps.{Map, lookup, insert}
use logthing.Prelude.Sorting.{sort}
use logthing.Model.{Message}
use logthing.Incidents.Types.{
  State, Kind, Phase, Config, Incident, NotificationJob, Tracker, Cursor, Snapshot,
}
use logthing.Incidents.Advance.{advance}
use logthing.Incidents.Observe.{Platform, observe}

pub record Observation : Type 0 where
  pub message : Message
  pub notify_eligible : Bool
  pub source_ref : String

pub record Query : Type 0 where
  pub state : Option State
  pub limit : ℤ
  pub offset : ℤ

abbrev pub values {ℓ} : {V : Type ℓ} → Map V → List V
values m = map (λ e. e.1) m

-- The state of a new service.
abbrev pub empty : Snapshot
empty = record {
  version = 1;
  bootstrapped = false;
  last_checkpoint_at = 0;
  trackers = [];
  incidents = [];
  jobs = [];
  cursors = [];
}

pub data NewError : Type 0 where
  down_not_positive recovery_not_positive : NewError

pub data NewResult : Type 0 where
  created : Config → NewResult
  refused : NewError → NewResult

-- `New`: a blank interface is "wan". A duration that is not positive is 0 here.
abbrev pub new : Config → NewResult
new cfg =
    let named = if cfg.interface == "" then record cfg { interface = "wan" } else cfg in
    if eqb named.down_after 0
    then refused down_not_positive
    else if eqb named.recovered_after 0
    then refused recovery_not_positive
    else created named

abbrev is_healthy : Phase → Bool
is_healthy Phase.healthy = true
is_healthy _ = false

-- State of an older rule version counts as found by reachability.
abbrev pub migrate_found : Tracker → Option Incident → Tracker
migrate_found t none = t
migrate_found t (some i) =
    if ltb i.rule_version 3 && not (is_healthy t.phase)
    then record t { reachability_down = true }
    else t

abbrev pub migrate : Map Incident → Map Tracker → Map Tracker
migrate incidents trackers =
    map (λ e. (e.0, migrate_found e.1 (lookup e.1.incident_id incidents))) trackers

-- What `Persistence.Load` returns.
pub data Loaded : Type 0 where
  no_persistence : Loaded
  load_failed : String → Loaded
  loaded : Snapshot → Loaded

pub data LoadResult : Type 0 where
  started : Snapshot → LoadResult
  load_error : String → LoadResult
  unsupported : ℕ → LoadResult

-- `Load`, on the state that the service has.
abbrev pub load : Loaded → Snapshot → LoadResult
load no_persistence s = started s
load (load_failed message) s = load_error message
load (loaded state) s =
    if eqb state.version 0
    then started s
    else if not (eqb state.version 1)
    then unsupported state.version
    else started (record state { trackers = migrate state.incidents state.trackers })

-- `initializeSnapshot`, where a map is never nil.
abbrev initialize_snapshot : Snapshot → Snapshot
initialize_snapshot s = if eqb s.version 0 then record s { version = 1 } else s

abbrev pub later_first : Incident → Incident → Bool
later_first a b = leb b.started_at a.started_at

abbrev pub earlier_first : NotificationJob → NotificationJob → Bool
earlier_first a b = leb a.created_at b.created_at

-- `job.SentAt == nil && !job.Permanent`
abbrev pub is_pending : NotificationJob → Bool
is_pending job = not (is_some job.sent_at) && not job.permanent

abbrev pub is_due : ℕ → NotificationJob → Bool
is_due now job = is_pending job && not (ltb now job.next_at)

abbrev matches_state : Option State → (State → Bool) → Bool
matches_state none test = true
matches_state (some state) test = test state

abbrev pub same_state : State → State → Bool
same_state State.pending_failure State.pending_failure = true
same_state State.active State.active = true
same_state State.pending_recovery State.pending_recovery = true
same_state State.resolved State.resolved = true
same_state _ _ = false

-- The slice from the offset, no longer than the limit if that is positive.
unfoldable pub paged : ℤ → ℤ → List Incident → List Incident
paged limit offset items =
    let rest = drop (pos_part offset) items in
    if ltb 0 (pos_part limit) then take (pos_part limit) rest else rest

-- `List`
abbrev pub list : Query → Snapshot → List Incident
unfolding paged
list query s =
    let items =
      keep (λ (i : Incident). matches_state query.state (same_state i.state))
        (values s.incidents) in
    paged query.limit query.offset (sort later_first items)

-- `Get`
abbrev pub get : String → Snapshot → Option Incident
get id s = lookup id s.incidents

-- `NotificationsFor`
abbrev pub notifications_for : String → Snapshot → List NotificationJob
notifications_for incident_id s =
    sort earlier_first
      (keep (λ (job : NotificationJob). job.incident_id == incident_id) (values s.jobs))

-- `PendingNotifications`
abbrev pub pending_notifications : Snapshot → List NotificationJob
pending_notifications s = sort earlier_first (keep is_pending (values s.jobs))

-- `DueNotifications`
unfoldable pub due_notifications : ℕ → Snapshot → List NotificationJob
due_notifications now s = sort earlier_first (keep (is_due now) (values s.jobs))

-- What a method that stores the state returns.
pub data Error : Type 0 where
  job_not_found save_failed : String → Error

abbrev pub Saved : Type 0
Saved = Snapshot × Option Error

abbrev pub sent_job : String → String → ℕ → NotificationJob → NotificationJob
sent_job adapter external_id at job = record job {
  sent_at = some at;
  adapter = adapter;
  external_id = external_id;
  last_error = "";
}

abbrev pub failed_job : String → ℕ → Bool → NotificationJob → NotificationJob
failed_job message next permanent job = record job {
  attempts = job.attempts + 1;
  last_error = message;
  next_at = next;
  permanent = permanent;
}

-- `Persistence.Save`: none, or its error.
module _ (save : Snapshot → Option String) where
  abbrev save_result : Option String → Option Error
  save_result none = none
  save_result (some message) = some (save_failed message)

  -- `saveLocked`
  abbrev pub saved : Snapshot → Saved
  saved s = (s, save_result (save s))

  abbrev pub put_job : String → NotificationJob → Snapshot → Snapshot
  put_job id job s = record s { jobs = insert id job s.jobs }

  -- The job is written back if the state is not saved.
  abbrev keep_or_restore : String → NotificationJob → Snapshot → Option String → Saved
  keep_or_restore id previous s none = (s, none)
  keep_or_restore id previous s (some message) = (put_job id previous s, some (save_failed message))

  abbrev pub change_found :
      String → (NotificationJob → NotificationJob) → Snapshot → Option NotificationJob → Saved
  change_found id change s none = (s, some (job_not_found id))
  change_found id change s (some job) =
      let next = put_job id (change job) s in keep_or_restore id job next (save next)

  abbrev change_job : String → (NotificationJob → NotificationJob) → Snapshot → Saved
  change_job id change s = change_found id change s (lookup id s.jobs)

  -- `MarkNotificationSent`
  unfoldable pub mark_notification_sent : String → String → String → ℕ → Snapshot → Saved
  mark_notification_sent id adapter external_id at s =
      change_job id (sent_job adapter external_id at) s

  -- `MarkNotificationFailed`
  unfoldable pub mark_notification_failed : String → String → ℕ → Bool → Snapshot → Saved
  mark_notification_failed id message next permanent s =
      change_job id (failed_job message next permanent) s

  -- `ReplaceSnapshot`
  abbrev pub replace_snapshot : Snapshot → Saved
  replace_snapshot state = saved (initialize_snapshot state)

  -- `SetCursors`
  abbrev pub set_cursors : Map Cursor → Snapshot → Saved
  set_cursors cursors s = saved (record s { cursors = cursors })

  module _ (p : Platform) (cfg : Config) where
    -- The loop of `Apply` and `Rebuild` over the observations.
    unfoldable pub observe_all : List Observation → Snapshot → Snapshot
    observe_all [] s = s
    observe_all (o ∷ os) s =
        observe_all os (observe p cfg s o.message o.notify_eligible o.source_ref)

    -- `Observe`
    abbrev pub observe_saved : Message → Bool → Snapshot → Saved
    observe_saved message eligible s = saved (observe p cfg s message eligible "")

    -- `Apply`
    unfoldable pub apply : List Observation → Map Cursor → ℕ → Snapshot → Saved
    unfolding observe_all
    apply observations cursors checkpoint_at s = saved (record (observe_all observations s) {
      cursors = cursors;
      bootstrapped = true;
      last_checkpoint_at = checkpoint_at;
    })

    -- `Tick`: the state is stored only if it changed.
    unfoldable pub tick : ℕ → Snapshot → Saved
    tick now s =
        let (next, changed) = advance cfg s now in if changed then saved next else (next, none)
