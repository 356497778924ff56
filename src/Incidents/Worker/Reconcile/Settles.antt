-- ===== src/Incidents/Worker/Reconcile/Settles.antt =====
-- What `reconcile` of internal/incidents/worker.go leaves undone when it succeeds: nothing.
use logthing.Prelude.{
  ℕ, String, ◌≡◌, refl, ◌∙◌, Bool, true, false, Option, none, some, List, [], ◌∷◌, arith, if_both,
}
use logthing.Prelude.Text.{is_some}
use logthing.Prelude.Maps.{Map, lookup}
use logthing.Incidents.Types.{Config, Incident, NotificationJob, Cursor, Snapshot}
use logthing.Incidents.Due.{next_due}
use logthing.Incidents.Advance.{advance}
use logthing.Incidents.Advance.Settles.{advance_settles}
use logthing.Incidents.Observe.{Platform}
use logthing.Incidents.Kept.{IsKeyed, advance-IsKept}
use logthing.Incidents.Service.{
  Error, Saved, is_due, change_found, sent_job, failed_job, mark_notification_sent,
  mark_notification_failed, tick,
}
use logthing.Incidents.Rebuild.Laws.{apply-IsKeyed, rebuild-IsKeyed}
use logthing.Incidents.Worker.Notices.{
  Outcome, delivered, send_error, other_error, Outside, NotificationResult, notification,
  unsupported, notification_for,
}
use logthing.Incidents.Worker.Dispatch.{
  mark_outcome, send_notification, dispatch_found, dispatch_job, dispatch_jobs, dispatch, linked,
  stop_or,
}
use logthing.Incidents.Worker.Drains.{dispatch-due}
use logthing.Incidents.Worker.Reconcile.{
  Visit, Source, source, unread, ReadResult, Health, Worker, observations_of, read, take_in,
  after_dispatch, after_tick, after_apply, reconcile_read, reconcile,
}

-- The trackers and the incidents of the two states are the same.
abbrev IsSameWorld : Snapshot → Snapshot → Type 0
IsSameWorld s t = (t.trackers ≡ s.trackers) × (t.incidents ≡ s.incidents)

-- Marking and sending jobs leaves trackers and incidents alone.
module _ (save : Snapshot → Option String) (o : Outside) (public_url : String) (now : ℕ) where
  change_found-IsSameWorld :
      (id : String) (change : NotificationJob → NotificationJob) (s : Snapshot)
      (found : Option NotificationJob)
      → IsSameWorld s (change_found save id change s found).0
  change_found-IsSameWorld id change s none = (refl, refl)
  change_found-IsSameWorld id change s (some job) = (ground arith, ground arith)

  sent-IsSameWorld :
      (id adapter external_id : String) (s : Snapshot)
      → IsSameWorld s (mark_notification_sent save id adapter external_id now s).0
  unfolding mark_notification_sent
  sent-IsSameWorld id adapter external_id s =
      change_found-IsSameWorld id (sent_job adapter external_id now) s (lookup id s.jobs)

  failed-IsSameWorld :
      (id message : String) (next : ℕ) (permanent : Bool) (s : Snapshot)
      → IsSameWorld s (mark_notification_failed save id message next permanent s).0
  unfolding mark_notification_failed
  failed-IsSameWorld id message next permanent s =
      change_found-IsSameWorld id (failed_job message next permanent) s (lookup id s.jobs)

  mark_outcome-IsSameWorld :
      (job : NotificationJob) (outcome : Outcome) (s : Snapshot)
      → IsSameWorld s (mark_outcome save o public_url now job outcome s).0
  mark_outcome-IsSameWorld job (delivered adapter external_id) s =
      sent-IsSameWorld job.id adapter external_id s
  mark_outcome-IsSameWorld job (send_error message permanent retry_after) s =
      failed-IsSameWorld job.id message _ permanent s
  mark_outcome-IsSameWorld job (other_error message) s = failed-IsSameWorld job.id message _ false s

  dispatch_found-IsSameWorld :
      (job : NotificationJob) (found : Option Incident) (s : Snapshot)
      → IsSameWorld s (dispatch_found save o public_url now job found s).0
  dispatch_found-IsSameWorld job none s = failed-IsSameWorld job.id "incident not found" now true s
  dispatch_found-IsSameWorld job (some i) s = by_result (notification_for o job i)
    where
      by_result :
          (r : NotificationResult)
          → IsSameWorld s (send_notification save o public_url now job i r s).0
      by_result (unsupported message) = failed-IsSameWorld job.id message now true s
      by_result (notification message) =
          mark_outcome-IsSameWorld job (o.send (linked save o public_url now i message)) s

  dispatch_job-IsSameWorld :
      (job : NotificationJob) (s : Snapshot)
      → IsSameWorld s (dispatch_job save o public_url now job s).0
  unfolding dispatch_job
  dispatch_job-IsSameWorld job s =
      dispatch_found-IsSameWorld job (lookup job.incident_id s.incidents) s

  stop_or-IsSameWorld :
      (s : Snapshot) (failed : Option Error) (next : Snapshot) (later : Saved)
      → IsSameWorld s next
      → IsSameWorld next later.0
      → IsSameWorld s (stop_or save o public_url now failed next later).0
  stop_or-IsSameWorld s none next later (a, b) (c, d) = (c ∙ a, d ∙ b)
  stop_or-IsSameWorld s (some e) next later h k = h

  dispatch_jobs-IsSameWorld :
      (jobs : List NotificationJob) (s : Snapshot)
      → IsSameWorld s (dispatch_jobs save o public_url now jobs s).0
  unfolding dispatch_jobs
  dispatch_jobs-IsSameWorld [] s = (refl, refl)
  dispatch_jobs-IsSameWorld (job ∷ jobs) s =
      let (next, failed) = dispatch_job save o public_url now job s in
      stop_or-IsSameWorld s failed next (dispatch_jobs save o public_url now jobs next)
        (dispatch_job-IsSameWorld job s) (dispatch_jobs-IsSameWorld jobs next)

  dispatch-IsSameWorld : (s : Snapshot) → IsSameWorld s (dispatch save o public_url now s).0
  unfolding dispatch
  dispatch-IsSameWorld s = dispatch_jobs-IsSameWorld _ s

module _ (save : Snapshot → Option String) (p : Platform) (cfg : Config) (o : Outside)
    (visit : Map Cursor → Visit) (started_at : ℕ) (public_url : String) (now : ℕ) where
  take_in-IsKeyed :
      (src : Source) (s : Snapshot)
      → IsKeyed s.jobs
      → IsKeyed (take_in save p cfg o visit started_at public_url now src s).0.jobs
  take_in-IsKeyed src s h =
      let os = observations_of started_at s src in
      if_both (λ (r : Saved). IsKeyed r.0.jobs) (is_some src.rebuilding) _ _
        (λ _. rebuild-IsKeyed save p cfg os src.next now s h)
        (λ _. apply-IsKeyed save p cfg os src.next now s h)

  tick-advance : (s : Snapshot) → (tick save p cfg now s).0 ≡ (advance cfg s now).0
  unfolding tick
  tick-advance s = ground arith

  -- The engine and the outbox have nothing left to do at the time.
  record IsDone (s : Snapshot) : Type 0 where
    settled : next_due cfg s.incidents s.trackers now ≡ none
    sent : (k : String) (x : NotificationJob) → lookup k s.jobs ≡ some x → is_due now x ≡ false

  dispatch-IsDone :
      (s : Snapshot)
      → IsKeyed s.jobs
      → next_due cfg s.incidents s.trackers now ≡ none
      → (dispatch save o public_url now s).1 ≡ none
      → IsDone (dispatch save o public_url now s).0
  dispatch-IsDone s k e h =
      let (a, b) = dispatch-IsSameWorld save o public_url now s in
      record { settled = rw (a, b) e; sent = dispatch-due save o public_url now s k h }

  after_dispatch-IsDone :
      (src : Source) (health : Health) (r : Saved)
      → (r.1 ≡ none → IsDone r.0)
      → (after_dispatch save p cfg o visit started_at public_url now src health r).1 ≡ none
      → IsDone (after_dispatch save p cfg o visit started_at public_url now src health r).0.engine
  after_dispatch-IsDone src health (s, some e) d h = absurd (cc)
  after_dispatch-IsDone src health (s, none) d h = d refl

  after_tick-IsDone :
      (src : Source) (health : Health) (r : Saved)
      → IsKeyed r.0.jobs
      → next_due cfg r.0.incidents r.0.trackers now ≡ none
      → (after_tick save p cfg o visit started_at public_url now src health r).1 ≡ none
      → IsDone (after_tick save p cfg o visit started_at public_url now src health r).0.engine
  after_tick-IsDone src health (s, some e) k d h = absurd (cc)
  after_tick-IsDone src health (s, none) k d h =
      after_dispatch-IsDone src health (dispatch save o public_url now s) (dispatch-IsDone s k d) h

  after_apply-IsDone :
      (src : Source) (health : Health) (r : Saved)
      → IsKeyed r.0.jobs
      → (after_apply save p cfg o visit started_at public_url now src health r).1 ≡ none
      → IsDone (after_apply save p cfg o visit started_at public_url now src health r).0.engine
  after_apply-IsDone src health (s, some e) k h = absurd (cc)
  after_apply-IsDone src health (s, none) k h =
      after_tick-IsDone src health (tick save p cfg now s)
        (rw (tick-advance s) ((advance-IsKept cfg s now).keyed k))
        (rw (tick-advance s) (advance_settles cfg s now)) h

  reconcile_read-IsDone :
      (w : Worker) (r : ReadResult)
      → IsKeyed w.engine.jobs
      → (reconcile_read save p cfg o visit started_at public_url now w r).1 ≡ none
      → IsDone (reconcile_read save p cfg o visit started_at public_url now w r).0.engine
  reconcile_read-IsDone w (unread error) k h = absurd (cc)
  reconcile_read-IsDone w (source src) k h =
      after_apply-IsDone src w.health _ (take_in-IsKeyed src w.engine k) h

  reconcile-IsDone :
      (w : Worker)
      → IsKeyed w.engine.jobs
      → (reconcile save p cfg o visit started_at public_url now w).1 ≡ none
      → IsDone (reconcile save p cfg o visit started_at public_url now w).0.engine
  unfolding reconcile
  reconcile-IsDone w k h = reconcile_read-IsDone w (read cfg visit w.engine.cursors) k h

  -- When every job is stored under its identifier and `reconcile` returned no error, no tracker has
  -- a time that has come and none that is pending has lost its incident.
  pub reconcile-next_due :
      (w : Worker)
      → IsKeyed w.engine.jobs
      → (reconcile save p cfg o visit started_at public_url now w).1 ≡ none
      → let s = (reconcile save p cfg o visit started_at public_url now w).0.engine in
        next_due cfg s.incidents s.trackers now ≡ none
  reconcile-next_due w k h = (reconcile-IsDone w k h).settled

  -- When every job is stored under its identifier and `reconcile` returned no error, no job of the
  -- outbox is due at its time.
  pub reconcile-due :
      (w : Worker)
      → IsKeyed w.engine.jobs
      → (reconcile save p cfg o visit started_at public_url now w).1 ≡ none
      → (k : String) (x : NotificationJob)
      → lookup k (reconcile save p cfg o visit started_at public_url now w).0.engine.jobs ≡ some x
      → is_due now x ≡ false
  reconcile-due w k h = (reconcile-IsDone w k h).sent
