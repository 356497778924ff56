-- ===== src/Tests/Engine.antt =====
-- internal/incidents/engine.go at concrete inputs.
use mathlib.Core.List.{Memᴰ}
use logthing.Prelude.{
  inr, ℕ, String, ◌≡◌, refl, ◌≢◌, true, false, Option, none, some, List, [], ◌∷◌, map,
}
use logthing.Prelude.Text.{
  decimal, go_space, trim, trim_left, trim_right, strip_prefix, strip_suffix, cut,
}
use logthing.Prelude.Maps.{lookup, insert, remove}
use logthing.Model.{Message}
use logthing.Incidents.Types.{State, Kind, Config, NotificationJob, Snapshot, tracker_key}
use logthing.Incidents.Classify.{
  classify, classify_tag, classify_netifd, classify_repeater, valid_repeater_prefix,
}
use logthing.Incidents.Jobs.{add_job, primary_down_at, escalate_fallbacks, new_job}
use logthing.Incidents.Due.{check, scan, next_due}
use logthing.Incidents.Due.Earliest.{IsEarliest, next_due-IsEarliest}
use logthing.Incidents.Advance.{confirm_failure, confirm_recovery, fire, advance_from, advance}
use logthing.Incidents.Advance.Settles.{advance_settles}
use logthing.Incidents.Observe.{
  Platform, append_evidence, incident_id, online, offline, settle, observe_evidence, observe,
}
use logthing.Incidents.Consistent.{IsConsistent}
use logthing.Incidents.Consistent.Observe.{IsDistinct, observe-IsConsistent}
use logthing.Incidents.Kept.{lookup-observe}
use logthing.Incidents.Service.{
  empty, loaded, migrate, mark_notification_sent, mark_notification_failed, due_notifications, tick,
  observe_saved,
}
use logthing.Incidents.Service.Outbox.{
  is_among, lookup-mark_notification_sent, lookup-mark_notification_failed,
  mark_notification_sent-due, mark_notification_failed-due,
}
use logthing.Incidents.Service.Intact.{IsIntact}
use logthing.Incidents.Service.Runs.{
  Run, load_started, restarted, observed, ticked, begin, then_, Run-IsIntact,
}

abbrev pub cfg : Config
cfg = record { interface = "wan"; down_after = 60; recovered_after = 30 }

abbrev pub platform : Platform
platform = record { digest = λ s. s; format_time = decimal }

-- A persistence that always works, and one that never does.
abbrev pub saving : Snapshot → Option String
saving _ = none

abbrev failing : Snapshot → Option String
failing _ = some "disk full"

abbrev from_router : String → String → ℕ → Message
from_router id text at = record {
  id = id;
  received_at = at;
  timestamp = none;
  transport = "udp";
  source = "10.0.0.1";
  priority = none;
  facility = none;
  severity = none;
  hostname = "router";
  app_name = "";
  proc_id = "";
  msg_id = "";
  tag = "gl-repeater";
  message = text;
  structured_data = none;
  raw = none;
}

abbrev pub down : Message
down = from_router "m1" "(repeater.lua:12) interface wan status offline" 100

abbrev pub up : Message
up = from_router "m2" "(repeater.lua:12) interface wan status online" 170

-- The failure is seen; its time has passed; the interface is up again.
abbrev pub s1 : Snapshot
s1 = observe platform cfg empty down true ""

abbrev pub s2 : Snapshot
s2 = (advance cfg s1 165).0

abbrev s3 : Snapshot
s3 = observe platform cfg s2 up true ""

abbrev the_id : String
the_id = "router\0wan\0100\0m1"

-- One outage from its first message to its end: the states that the incident goes through, and the
-- jobs that it leaves.
abbrev states : Snapshot → List State
states s = map (λ e. e.1.state) s.incidents

abbrev kinds : Snapshot → List Kind
kinds s = map (λ e. e.1.kind) s.jobs

outage_states :
    (states s1 ≡ State.pending_failure ∷ [])
    × (states s2 ≡ State.active ∷ [])
    × (states s3 ≡ State.pending_recovery ∷ [])
    × (states (advance cfg s3 200).0 ≡ State.resolved ∷ [])
unfolding observe classify classify_tag classify_netifd classify_repeater valid_repeater_prefix
    decimal go_space trim trim_left trim_right strip_prefix strip_suffix cut lookup insert remove
    tracker_key add_job primary_down_at escalate_fallbacks check scan next_due confirm_failure
    confirm_recovery fire advance_from advance append_evidence incident_id online offline settle
    observe_evidence
outage_states = (refl, refl, refl, refl)

distinct_1 : IsDistinct platform cfg empty (classify down "wan")
unfolding classify classify_tag classify_netifd classify_repeater valid_repeater_prefix decimal
    go_space trim trim_left trim_right strip_prefix strip_suffix cut lookup
distinct_1 = tt

distinct_2 : IsDistinct platform cfg s2 (classify up "wan")
unfolding observe classify classify_tag classify_netifd classify_repeater valid_repeater_prefix
    decimal go_space trim trim_left trim_right strip_prefix strip_suffix cut lookup insert remove
    tracker_key add_job primary_down_at escalate_fallbacks check scan next_due confirm_failure
    confirm_recovery fire advance_from advance append_evidence incident_id online offline settle
    observe_evidence
distinct_2 = tt

abbrev pub job : NotificationJob
job = new_job "router\0wan\0100\0m1:incident_opened" the_id Kind.incident_opened 160

pub job_found : lookup job.id s2.jobs ≡ some job
unfolding observe classify classify_tag classify_netifd classify_repeater valid_repeater_prefix
    decimal go_space trim trim_left trim_right strip_prefix strip_suffix cut lookup insert remove
    tracker_key add_job primary_down_at escalate_fallbacks check scan next_due confirm_failure
    confirm_recovery fire advance_from advance append_evidence incident_id online offline settle
    observe_evidence
job_found = refl

empty-IsConsistent : IsConsistent empty
empty-IsConsistent = record { keyed = tt; keyed_incidents = tt; shaped = tt; linked = tt }

s1-IsConsistent : IsConsistent s1
s1-IsConsistent = observe-IsConsistent platform cfg empty down true "" empty-IsConsistent distinct_1

-- The failure is seen, the program is started again with the state that was there, and its time passes.
abbrev seen : Snapshot
seen = (observe_saved saving platform cfg down true empty).0

abbrev started_again : Snapshot
started_again = record seen { trackers = migrate seen.incidents seen.trackers }

outage-Run :
    Run saving platform cfg
      ((tick saving platform cfg 165 started_again).0 ∷ started_again ∷ seen ∷ [])
      (tick saving platform cfg 165 started_again).0
unfolding observe classify classify_tag classify_netifd classify_repeater valid_repeater_prefix
    decimal go_space trim trim_left trim_right strip_prefix strip_suffix cut lookup insert remove
    tracker_key add_job primary_down_at escalate_fallbacks check scan next_due confirm_failure
    confirm_recovery fire advance_from advance append_evidence incident_id online offline settle
    observe_evidence
outage-Run =
    then_
      (load_started (loaded seen) (inr (Memᴰ.head refl)) refl
        (restarted (then_ begin (observed down true distinct_1))))
      (ticked 165)

Run-IsIntact_example : IsIntact (tick saving platform cfg 165 started_again).0
Run-IsIntact_example = Run-IsIntact saving platform cfg outage-Run

observe-IsConsistent_example : IsConsistent (observe platform cfg empty down true "")
observe-IsConsistent_example =
    observe-IsConsistent platform cfg empty down true "" empty-IsConsistent distinct_1

lookup-observe_example : lookup job.id (observe platform cfg s2 up true "").jobs ≡ some job
lookup-observe_example = lookup-observe platform cfg s2 up true "" job.id job job_found

next_due-IsEarliest_example :
    IsEarliest cfg s1.incidents 165 s1.trackers (next_due cfg s1.incidents s1.trackers 165)
next_due-IsEarliest_example = next_due-IsEarliest cfg s1.incidents 165 s1.trackers

advance_settles_example :
    next_due cfg (advance cfg s1 165).0.incidents (advance cfg s1 165).0.trackers 165 ≡ none
advance_settles_example = advance_settles cfg s1 165

-- The state after the failure is confirmed, with its one job.
abbrev with_job : Snapshot
with_job = record empty { jobs = (job.id, job) ∷ [] }

found : lookup job.id with_job.jobs ≡ some job
unfolding lookup
found = refl

unsaved :
    ((mark_notification_sent failing job.id "discord" "7" 170 with_job).1 ≢ none)
    × ((mark_notification_failed failing job.id "timeout" 230 false with_job).1 ≢ none)
unfolding mark_notification_sent mark_notification_failed lookup
unsaved = (λ e. cc, λ e. cc)

lookup-mark_notification_sent_example :
    lookup job.id (mark_notification_sent failing job.id "discord" "7" 170 with_job).0.jobs
    ≡ lookup job.id with_job.jobs
lookup-mark_notification_sent_example =
    lookup-mark_notification_sent failing job.id "discord" "7" 170 with_job unsaved.0 job.id

lookup-mark_notification_failed_example :
    lookup job.id (mark_notification_failed failing job.id "timeout" 230 false with_job).0.jobs
    ≡ lookup job.id with_job.jobs
lookup-mark_notification_failed_example =
    lookup-mark_notification_failed failing job.id "timeout" 230 false with_job unsaved.1 job.id

sent_saved : (mark_notification_sent saving job.id "discord" "7" 170 with_job).1 ≡ none
unfolding mark_notification_sent lookup
sent_saved = refl

failed_saved : (mark_notification_failed saving job.id "timeout" 230 false with_job).1 ≡ none
unfolding mark_notification_failed lookup
failed_saved = refl

mark_notification_sent-due_example :
    is_among job.id
      (due_notifications 300 (mark_notification_sent saving job.id "discord" "7" 170 with_job).0)
    ≡ false
mark_notification_sent-due_example =
    mark_notification_sent-due saving job.id "discord" "7" 170 300 with_job job (refl, tt) found
      sent_saved

mark_notification_failed-due_example :
    is_among job.id (
      due_notifications 230 (mark_notification_failed saving job.id "timeout" 230 false with_job).0)
    ≡ true
mark_notification_failed-due_example =
    mark_notification_failed-due saving job.id "timeout" 230 false 230 with_job job (refl, tt) found
      refl failed_saved
