-- ===== src/Tests/Worker.antt =====
-- internal/incidents/worker.go at concrete inputs.
use logthing.Prelude.{◌≤◌, ◌≡◌, refl, true, false, none, some, List, [], ◌∷◌, arith}
use logthing.Prelude.Text.{
  is_some, decimal, go_space, trim, trim_left, trim_right, strip_prefix, strip_suffix, cut,
}
use logthing.Prelude.Maps.{Map, lookup, insert, remove}
use logthing.Prelude.Sorting.{IsSorted, sort, insert_sorted}
use logthing.Incidents.Types.{NotificationJob, Cursor, tracker_key}
use logthing.Incidents.Classify.{
  classify, classify_tag, classify_netifd, classify_repeater, valid_repeater_prefix,
}
use logthing.Incidents.Jobs.{add_job, primary_down_at, escalate_fallbacks}
use logthing.Incidents.Due.{check, scan, next_due}
use logthing.Incidents.Advance.{confirm_failure, confirm_recovery, fire, advance_from, advance}
use logthing.Incidents.Observe.{
  append_evidence, incident_id, online, offline, settle, observe_evidence, observe,
}
use logthing.Incidents.Kept.{IsKeyed, advance-IsKept, observe-IsKept}
use logthing.Incidents.Service.{
  empty, Observation, observe_all, apply, tick, is_due, due_notifications, mark_notification_sent,
}
use logthing.Incidents.Rebuild.{rebuilt, rebuild}
use logthing.Incidents.Rebuild.Laws.{rebuild-jobs}
use logthing.Incidents.Worker.Notices.{
  Outside, delivered, notification_for, retry_delay, retry_delay_lem,
}
use logthing.Incidents.Worker.Dispatch.{dispatch_job, dispatch_jobs, dispatch}
use logthing.Incidents.Worker.Drains.{dispatch-due}
use logthing.Incidents.Worker.Reconcile.{
  StoredRecord, Visit, visited, Source, Worker, leb_text, at_or_before, is_eligible,
  observations_of, read, reconcile,
}
use logthing.Incidents.Worker.Reconcile.Order.{not_later, observations_of-IsSorted}
use logthing.Incidents.Worker.Reconcile.Settles.{reconcile-next_due, reconcile-due}
use logthing.Tests.Engine.{cfg, platform, saving, down, up, s1, s2, job, job_found}

-- A notifier that delivers everything.
abbrev outside : Outside
outside = record {
  hash = λ _. 7;
  duration = decimal;
  quote = λ s. s;
  between = λ later earlier. decimal later;
  send = λ _. delivered "discord" "1";
}

retry_delay_lem_example :
    (54000000000 ≤ retry_delay outside job.id 3) × (retry_delay outside job.id 3 ≤ 3960000000000)
retry_delay_lem_example = retry_delay_lem outside job.id 3 (omega arith)

s2-IsKeyed : IsKeyed s2.jobs
s2-IsKeyed =
    (advance-IsKept cfg s1 165).keyed ((observe-IsKept platform cfg empty down true "").keyed tt)

-- The whole log again, as one observation.
abbrev log : List Observation
log = record { message = down; notify_eligible = false; source_ref = "log:0" } ∷ []

found_again :
    is_some (lookup job.incident_id (rebuild saving platform cfg log [] 170 s2).0.incidents) ≡ true
unfolding observe classify classify_tag classify_netifd classify_repeater valid_repeater_prefix
    decimal go_space trim trim_left trim_right strip_prefix strip_suffix cut lookup insert remove
    tracker_key add_job primary_down_at escalate_fallbacks check scan next_due confirm_failure
    confirm_recovery fire advance_from advance append_evidence incident_id online offline settle
    observe_evidence rebuild rebuilt observe_all
found_again = refl

rebuild-jobs_example : lookup job.id (rebuild saving platform cfg log [] 170 s2).0.jobs ≡ some job
rebuild-jobs_example =
    rebuild-jobs saving platform cfg log [] 170 s2 job.id job job_found found_again

abbrev job_sent : NotificationJob
job_sent = record job { sent_at = some 170; adapter = "discord"; external_id = "1" }

dispatched : (dispatch saving outside "" 170 s2).1 ≡ none
unfolding observe classify classify_tag classify_netifd classify_repeater valid_repeater_prefix
    decimal go_space trim trim_left trim_right strip_prefix strip_suffix cut lookup insert remove
    tracker_key add_job primary_down_at escalate_fallbacks check scan next_due confirm_failure
    confirm_recovery fire advance_from advance append_evidence incident_id online offline settle
    observe_evidence due_notifications sort insert_sorted dispatch dispatch_jobs dispatch_job
    notification_for mark_notification_sent
dispatched = refl

found_sent : lookup job.id (dispatch saving outside "" 170 s2).0.jobs ≡ some job_sent
unfolding observe classify classify_tag classify_netifd classify_repeater valid_repeater_prefix
    decimal go_space trim trim_left trim_right strip_prefix strip_suffix cut lookup insert remove
    tracker_key add_job primary_down_at escalate_fallbacks check scan next_due confirm_failure
    confirm_recovery fire advance_from advance append_evidence incident_id online offline settle
    observe_evidence due_notifications sort insert_sorted dispatch dispatch_jobs dispatch_job
    notification_for mark_notification_sent
found_sent = refl

dispatch-due_example : is_due 170 job_sent ≡ false
dispatch-due_example =
    dispatch-due saving outside "" 170 s2 s2-IsKeyed dispatched job.id job_sent found_sent

abbrev records : List StoredRecord
records =
    record { message = up; file = "log"; offset = 80 }
    ∷ record { message = down; file = "log"; offset = 0 }
    ∷ []

abbrev src : Source
src = record { rebuilding = some "log"; records = records; next = [] }

observations_of-IsSorted_example : IsSorted not_later (observations_of 0 s2 src)
observations_of-IsSorted_example = observations_of-IsSorted 0 s2 src

abbrev visit : Map Cursor → Visit
visit _ = visited records (("log", record { offset = 160; fingerprint = "f" }) ∷ [])

abbrev worker : Worker
worker = record {
  engine = s2;
  health = record {
    running = true;
    last_reconciled_at = none;
    last_processed_at = none;
    last_error = "";
    pending_jobs = 0;
  };
}

reconciled : (reconcile saving platform cfg outside visit 0 "" 180 worker).1 ≡ none
unfolding observe classify classify_tag classify_netifd classify_repeater valid_repeater_prefix
    decimal go_space trim trim_left trim_right strip_prefix strip_suffix cut lookup insert remove
    tracker_key add_job primary_down_at escalate_fallbacks check scan next_due confirm_failure
    confirm_recovery fire advance_from advance append_evidence incident_id online offline settle
    observe_evidence due_notifications sort insert_sorted dispatch dispatch_jobs dispatch_job
    notification_for mark_notification_sent reconcile read observations_of is_eligible at_or_before
    leb_text apply observe_all tick
reconciled = refl

found_reconciled :
    lookup job.id (reconcile saving platform cfg outside visit 0 "" 180 worker).0.engine.jobs
    ≡ some (record job_sent { sent_at = some 180 })
unfolding observe classify classify_tag classify_netifd classify_repeater valid_repeater_prefix
    decimal go_space trim trim_left trim_right strip_prefix strip_suffix cut lookup insert remove
    tracker_key add_job primary_down_at escalate_fallbacks check scan next_due confirm_failure
    confirm_recovery fire advance_from advance append_evidence incident_id online offline settle
    observe_evidence due_notifications sort insert_sorted dispatch dispatch_jobs dispatch_job
    notification_for mark_notification_sent reconcile read observations_of is_eligible at_or_before
    leb_text apply observe_all tick
found_reconciled = refl

reconcile-next_due_example :
    let s = (reconcile saving platform cfg outside visit 0 "" 180 worker).0.engine in
    next_due cfg s.incidents s.trackers 180 ≡ none
reconcile-next_due_example =
    reconcile-next_due saving platform cfg outside visit 0 "" 180 worker s2-IsKeyed reconciled

reconcile-due_example : is_due 180 (record job_sent { sent_at = some 180 }) ≡ false
reconcile-due_example =
    reconcile-due saving platform cfg outside visit 0 "" 180 worker s2-IsKeyed reconciled job.id
      (record job_sent { sent_at = some 180 }) found_reconciled
