-- ===== src/Incidents/Worker/Drains.antt =====
-- What `dispatch` of internal/incidents/worker.go leaves of the jobs that were due.
use logthing.Prelude.{
  ℕ, ◌+◌, ◌<◌, String, ◌≡◌, refl, sym, ap, ◌∙◌, inl, inr, Bool, true, false, ◌||◌, Option, none,
  some, List, [], ◌∷◌, ◌==◌, eq_iff, ltb, keep, arith, Bool-cases,
}
use logthing.Prelude.Maps.{Map, lookup, lookup-insert}
use logthing.Prelude.Sorting.Order.{any-sort}
use logthing.Incidents.Types.{Incident, NotificationJob, Snapshot}
use logthing.Incidents.Kept.{IsKeyed}
use logthing.Incidents.Service.{
  Error, Saved, is_due, values, earlier_first, due_notifications, change_found, put_job, sent_job,
  failed_job, mark_notification_sent, mark_notification_failed,
}
use logthing.Incidents.Service.Outbox.{is_among, change_found-saved}
use logthing.Incidents.Worker.Notices.{
  Outcome, delivered, send_error, other_error, Outside, NotificationResult, notification,
  unsupported, notification_for, retry_delay_lem,
}
use logthing.Incidents.Worker.Dispatch.{
  next_attempt, mark_outcome, send_notification, dispatch_found, dispatch_job, dispatch_jobs,
  dispatch, linked, stop_or,
}

module _ (save : Snapshot → Option String) (now : ℕ) where
  -- If a call succeeded, a job that is due after it was due before, and is not the one that the call was about.
  abbrev Marks : String → Snapshot → Saved → Type 0
  Marks id s r =
      r.1 ≡ none
      → (k : String) (x : NotificationJob) → lookup k r.0.jobs ≡ some x
      → is_due now x ≡ true
      → ((id == k) ≡ false) × (lookup k s.jobs ≡ some x)

  change_found-Marks :
      (id : String) (change : NotificationJob → NotificationJob) (s : Snapshot)
      (found : Option NotificationJob)
      → ((job : NotificationJob) → is_due now (change job) ≡ false)
      → Marks id s (change_found save id change s found)
  change_found-Marks id change s none off h k x e d = absurd (cc)
  change_found-Marks id change s (some job) off h k x e d =
      let q = change_found-saved save id change s (some job) job refl h in
      let e' : lookup k (put_job save id (change job) s).jobs ≡ some x =
        sym (ap (λ (r : Snapshot). lookup k r.jobs) q) ∙ e in
      elim (Bool-cases (id == k)) [
        | inl same ↦
            let same_job : some (change job) ≡ some x =
              sym (lookup-insert id k (change job) s.jobs ∙ rw same refl) ∙ e' in
            absurd (ground (arith, off job, same_job))
        | inr other ↦ (other, sym (lookup-insert id k (change job) s.jobs ∙ rw other refl) ∙ e')
      ]

  sent-Marks :
      (id adapter external_id : String) (at : ℕ) (s : Snapshot)
      → Marks id s (mark_notification_sent save id adapter external_id at s)
  unfolding mark_notification_sent
  sent-Marks id adapter external_id at s =
      change_found-Marks id (sent_job adapter external_id at) s (lookup id s.jobs) (λ _. refl)

  failed-Marks :
      (id message : String) (next : ℕ) (permanent : Bool) (s : Snapshot)
      → (permanent || ltb now next) ≡ true
      → Marks id s (mark_notification_failed save id message next permanent s)
  unfolding mark_notification_failed
  failed-Marks id message next permanent s h =
      change_found-Marks id (failed_job message next permanent) s (lookup id s.jobs)
        (λ job. ground arith)

module _ (save : Snapshot → Option String) (o : Outside) (public_url : String) (now : ℕ) where
  next_attempt-lt :
      (job : NotificationJob) (retry_after : ℕ)
      → now < next_attempt save o public_url now job retry_after
  next_attempt-lt job retry_after =
      ground (arith, retry_delay_lem o job.id (job.attempts + 1) (omega arith))

  mark_outcome-Marks :
      (job : NotificationJob) (outcome : Outcome) (s : Snapshot)
      → Marks save now job.id s (mark_outcome save o public_url now job outcome s)
  mark_outcome-Marks job (delivered adapter external_id) s =
      sent-Marks save now job.id adapter external_id now s
  mark_outcome-Marks job (send_error message permanent retry_after) s =
      failed-Marks save now job.id message _ permanent s
        (ground (arith, next_attempt-lt job retry_after))
  mark_outcome-Marks job (other_error message) s =
      failed-Marks save now job.id message _ false s (ground (arith, next_attempt-lt job 0))

  send_notification-Marks :
      (job : NotificationJob) (i : Incident) (r : NotificationResult) (s : Snapshot)
      → Marks save now job.id s (send_notification save o public_url now job i r s)
  send_notification-Marks job i (unsupported message) s =
      failed-Marks save now job.id message now true s refl
  send_notification-Marks job i (notification message) s =
      mark_outcome-Marks job (o.send (linked save o public_url now i message)) s

  dispatch_found-Marks :
      (job : NotificationJob) (found : Option Incident) (s : Snapshot)
      → Marks save now job.id s (dispatch_found save o public_url now job found s)
  dispatch_found-Marks job none s =
      failed-Marks save now job.id "incident not found" now true s refl
  dispatch_found-Marks job (some i) s = send_notification-Marks job i (notification_for o job i) s

  dispatch_job-Marks :
      (job : NotificationJob) (s : Snapshot)
      → Marks save now job.id s (dispatch_job save o public_url now job s)
  unfolding dispatch_job
  dispatch_job-Marks job s = dispatch_found-Marks job (lookup job.incident_id s.incidents) s

  -- Every job that is due is in the list.
  abbrev AllAmong : List NotificationJob → Snapshot → Type 0
  AllAmong jobs s =
      (k : String) (x : NotificationJob)
      → lookup k s.jobs ≡ some x
      → is_due now x ≡ true
      → is_among k jobs ≡ true

  -- After the round for `job`, whose error ends the loop.
  continued :
      (job : NotificationJob) (jobs : List NotificationJob) (s : Snapshot)
      → AllAmong (job ∷ jobs) s
      → (failed : Option Error) (next : Snapshot) (later : Saved)
      → Marks save now job.id s (next, failed)
      → (k : String) (x : NotificationJob)
      → (AllAmong jobs next
          → later.1 ≡ none
          → lookup k later.0.jobs ≡ some x
          → is_due now x ≡ false)
      → (stop_or save o public_url now failed next later).1 ≡ none
      → lookup k (stop_or save o public_url now failed next later).0.jobs ≡ some x
      → is_due now x ≡ false
  continued job jobs s a (some error) next later m k x rest h e = absurd (cc)
  continued job jobs s a none next later m k x rest h e =
      rest
        (λ i y found due.
          let (other, before) = m refl i y found due in ground (arith, a i y before due, other))
        h e

  dispatch_jobs-due :
      (jobs : List NotificationJob) (s : Snapshot)
      → AllAmong jobs s
      → (dispatch_jobs save o public_url now jobs s).1 ≡ none
      → (k : String) (x : NotificationJob)
      → lookup k (dispatch_jobs save o public_url now jobs s).0.jobs ≡ some x
      → is_due now x ≡ false
  unfolding dispatch_jobs
  dispatch_jobs-due [] s a h k x e = ground (arith, a k x e)
  dispatch_jobs-due (job ∷ jobs) s a h k x e =
      let (next, failed) = dispatch_job save o public_url now job s in
      continued job jobs s a failed next (dispatch_jobs save o public_url now jobs next)
        (dispatch_job-Marks job s) k x (λ among ok. dispatch_jobs-due jobs next among ok k x) h e

  among-values :
      (k : String) (x : NotificationJob) (m : Map NotificationJob)
      → IsKeyed m
      → lookup k m ≡ some x
      → is_due now x ≡ true
      → is_among k (keep (is_due now) (values m)) ≡ true
  unfolding lookup
  among-values k x [] h e d = absurd (cc)
  among-values k x ((j, y) ∷ m) (same, h) e d = elim (Bool-cases (j == k)) [
    | inl eq ↦ ground (arith, (eq_iff j k).0 eq, eq_iff y.id k)
    | inr other ↦ ground (arith, among-values k x m h (ground arith) d)
  ]

  -- When every job is stored under its identifier and `dispatch` returned no error, no job of the
  -- outbox is due any more at that time.
  pub dispatch-due :
      (s : Snapshot)
      → IsKeyed s.jobs
      → (dispatch save o public_url now s).1 ≡ none
      → (k : String) (x : NotificationJob)
      → lookup k (dispatch save o public_url now s).0.jobs ≡ some x
      → is_due now x ≡ false
  unfolding dispatch due_notifications
  dispatch-due s keyed h k x e =
      dispatch_jobs-due (due_notifications now s) s
        (λ i y found due.
          any-sort earlier_first (λ (j : NotificationJob). j.id == i) _
          ∙ among-values i y s.jobs keyed found due)
        h k x e
