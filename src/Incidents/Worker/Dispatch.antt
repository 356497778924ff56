-- ===== src/Incidents/Worker/Dispatch.antt =====
-- `dispatch` of internal/incidents/worker.go: every job that is due is tried once.
use logthing.Prelude.{
  ℕ, ◌+◌, String, true, false, Option, none, some, List, [], ◌∷◌, ◌==◌, ltb, if◌then◌else◌,
}
use logthing.Prelude.Text.{concat}
use logthing.Incidents.Types.{Incident, NotificationJob, Snapshot}
use logthing.Incidents.Service.{
  Error, Saved, get, due_notifications, mark_notification_sent, mark_notification_failed,
}
use logthing.Incidents.Worker.Notices.{
  Notification, Outcome, delivered, send_error, other_error, Outside, NotificationResult,
  notification, unsupported, notification_for, retry_delay,
}

module _ (save : Snapshot → Option String) (o : Outside) (public_url : String) (now : ℕ) where
  abbrev pub linked : Incident → Notification → Notification
  linked i message =
      if public_url == ""
      then message
      else record message { link = concat (public_url ∷ "/?incident=" ∷ i.id ∷ []) }

  -- The time of the next attempt: the notifier's wish, if it has one.
  abbrev pub next_attempt : NotificationJob → ℕ → ℕ
  next_attempt job retry_after =
      if ltb 0 retry_after then now + retry_after else now + retry_delay o job.id (job.attempts + 1)

  abbrev pub mark_outcome : NotificationJob → Outcome → Snapshot → Saved
  mark_outcome job (delivered adapter external_id) s =
      mark_notification_sent save job.id adapter external_id now s
  mark_outcome job (send_error message permanent retry_after) s =
      mark_notification_failed save job.id message (next_attempt job retry_after) permanent s
  mark_outcome job (other_error message) s =
      mark_notification_failed save job.id message (next_attempt job 0) false s

  abbrev pub send_notification : NotificationJob → Incident → NotificationResult → Snapshot → Saved
  send_notification job i (unsupported message) s =
      mark_notification_failed save job.id message now true s
  send_notification job i (notification message) s = mark_outcome job (o.send (linked i message)) s

  abbrev pub dispatch_found : NotificationJob → Option Incident → Snapshot → Saved
  dispatch_found job none s = mark_notification_failed save job.id "incident not found" now true s
  dispatch_found job (some i) s = send_notification job i (notification_for o job i) s

  -- One round of the loop.
  unfoldable pub dispatch_job : NotificationJob → Snapshot → Saved
  dispatch_job job s = dispatch_found job (get job.incident_id s) s

  abbrev pub stop_or : Option Error → Snapshot → Saved → Saved
  stop_or none s later = later
  stop_or (some e) s later = (s, some e)

  -- The loop: the first error ends it.
  unfoldable pub dispatch_jobs : List NotificationJob → Snapshot → Saved
  dispatch_jobs [] s = (s, none)
  dispatch_jobs (job ∷ jobs) s =
      let (next, failed) = dispatch_job job s in stop_or failed next (dispatch_jobs jobs next)

  -- `dispatch`
  unfoldable pub dispatch : Snapshot → Saved
  unfolding dispatch_jobs
  dispatch s = dispatch_jobs (due_notifications now s) s
