-- ===== src/Incidents/Service/Outbox.antt =====
-- The outbox of internal/incidents/engine.go: what marking a job does to it and to the others.
use logthing.Prelude.{
  ℕ, String, ◌≡◌, refl, ◌∙◌, ◌≢◌, Bool, false, not, ◌&&◌, Option, none, some, List, [], ◌∷◌, ◌==◌,
  eq_iff, leb, arith, any, keep, All,
}
use logthing.Prelude.Maps.{Map, lookup, insert, remove, lookup-insert, All-remove, All-lookup}
use logthing.Prelude.Sorting.Order.{any-sort}
use logthing.Incidents.Types.{NotificationJob, Snapshot}
use logthing.Incidents.Kept.{IsKeyed}
use logthing.Incidents.Service.{
  is_due, change_job, change_found, sent_job, failed_job, put_job, values, mark_notification_sent,
  mark_notification_failed, due_notifications, earlier_first,
}

-- The job is among those that are due.
abbrev pub is_among : String → List NotificationJob → Bool
is_among id = any (λ (job : NotificationJob). job.id == id)

is_among-absent :
    (id : String) (test : NotificationJob → Bool) (m : Map NotificationJob)
    → All (λ (e : String × NotificationJob). (e.1.id == id) ≡ false) m
    → is_among id (keep test (values m)) ≡ false
is_among-absent id test [] h = refl
is_among-absent id test ((j, job) ∷ m) (p, h) = ground (arith, is_among-absent id test m h)

-- After a write a job is found by a test if the new job passes it.
is_among-insert :
    (id : String) (test : NotificationJob → Bool) (job : NotificationJob) (m : Map NotificationJob)
    → job.id ≡ id
    → IsKeyed m
    → is_among id (keep test (values (insert id job m))) ≡ test job
unfolding insert
is_among-insert id test job m e h = ground (
  arith,
  eq_iff job.id id,
  is_among-absent id test (remove id m) (
      All-remove (λ (e : String × NotificationJob). e.1.id ≡ e.0)
        (λ (e : String × NotificationJob). (e.1.id == id) ≡ false) id m
        (λ j v n same. ground (arith, eq_iff v.id id)) h),
)

module _ (save : Snapshot → Option String) where
  pub change_found-saved :
      (id : String) (change : NotificationJob → NotificationJob) (s : Snapshot)
      (found : Option NotificationJob) (job : NotificationJob)
      → found ≡ some job
      → (change_found save id change s found).1 ≡ none
      → (change_found save id change s found).0 ≡ put_job save id (change job) s
  change_found-saved id change s none job e h = absurd (cc)
  change_found-saved id change s (some found) job e h = ground arith

  -- Marking a job, when the state is saved, changes that job alone.
  change_job-saved :
      (id : String) (change : NotificationJob → NotificationJob) (s : Snapshot)
      (job : NotificationJob)
      → lookup id s.jobs ≡ some job
      → (change_job save id change s).1 ≡ none
      → (change_job save id change s).0 ≡ put_job save id (change job) s
  change_job-saved id change s job e h = change_found-saved id change s (lookup id s.jobs) job e h

  -- A method that marks a job and returns an error leaves every job as it was.
  change_found-failed :
      (id : String) (change : NotificationJob → NotificationJob) (s : Snapshot)
      (found : Option NotificationJob)
      → found ≡ lookup id s.jobs
      → (change_found save id change s found).1 ≢ none
      → (j : String) → lookup j (change_found save id change s found).0.jobs ≡ lookup j s.jobs
  change_found-failed id change s none e h j = refl
  change_found-failed id change s (some job) e h j = ground (
    arith,
    lookup-insert id j job (put_job save id (change job) s).jobs,
    lookup-insert id j (change job) s.jobs,
    eq_iff id j,
  )

  -- If `MarkNotificationSent` returns an error, since there is no such job or the state was not
  -- saved, then every job is as it was.
  pub lookup-mark_notification_sent :
      (id adapter external_id : String) (at : ℕ) (s : Snapshot)
      → (mark_notification_sent save id adapter external_id at s).1 ≢ none
      → (j : String)
      → lookup j (mark_notification_sent save id adapter external_id at s).0.jobs ≡ lookup j s.jobs
  unfolding mark_notification_sent
  lookup-mark_notification_sent id adapter external_id at s =
      change_found-failed id (sent_job adapter external_id at) s (lookup id s.jobs) refl

  -- If `MarkNotificationFailed` returns an error, since there is no such job or the state was not
  -- saved, then every job is as it was.
  pub lookup-mark_notification_failed :
      (id message : String) (next : ℕ) (permanent : Bool) (s : Snapshot)
      → (mark_notification_failed save id message next permanent s).1 ≢ none
      → (j : String)
      → lookup j (mark_notification_failed save id message next permanent s).0.jobs
        ≡ lookup j s.jobs
  unfolding mark_notification_failed
  lookup-mark_notification_failed id message next permanent s =
      change_found-failed id (failed_job message next permanent) s (lookup id s.jobs) refl

  -- When every job is stored under its identifier and `MarkNotificationSent`, for a job that is
  -- there, returned no error, the job is not among the jobs due at any time.
  pub mark_notification_sent-due :
      (id adapter external_id : String) (at now : ℕ) (s : Snapshot) (job : NotificationJob)
      → IsKeyed s.jobs
      → lookup id s.jobs ≡ some job
      → (mark_notification_sent save id adapter external_id at s).1 ≡ none
      → is_among id
          (due_notifications now (mark_notification_sent save id adapter external_id at s).0)
        ≡ false
  unfolding mark_notification_sent due_notifications
  mark_notification_sent-due id adapter external_id at now s job k e h =
      rw (change_job-saved id (sent_job adapter external_id at) s job e h) (
        any-sort earlier_first (λ (j : NotificationJob). j.id == id) _
        ∙ is_among-insert id (is_due now) (sent_job adapter external_id at job) s.jobs
            (All-lookup (λ (e : String × NotificationJob). e.1.id ≡ e.0) id job s.jobs k e) k)

  -- When every job is stored under its identifier and `MarkNotificationFailed`, for a job that is
  -- there and was not sent, returned no error, the job is due from the time for the next attempt
  -- on, or never if the failure is permanent.
  pub mark_notification_failed-due :
      (id message : String) (next : ℕ) (permanent : Bool) (now : ℕ) (s : Snapshot)
      (job : NotificationJob)
      → IsKeyed s.jobs
      → lookup id s.jobs ≡ some job
      → job.sent_at ≡ none
      → (mark_notification_failed save id message next permanent s).1 ≡ none
      → is_among id
          (due_notifications now (mark_notification_failed save id message next permanent s).0)
        ≡ (not permanent && leb next now)
  unfolding mark_notification_failed due_notifications
  mark_notification_failed-due id message next permanent now s job k e unsent h =
      rw (change_job-saved id (failed_job message next permanent) s job e h) (
        any-sort earlier_first (λ (j : NotificationJob). j.id == id) _
        ∙ is_among-insert id (is_due now) (failed_job message next permanent job) s.jobs
            (All-lookup (λ (e : String × NotificationJob). e.1.id ≡ e.0) id job s.jobs k e) k
        ∙ ground (arith))
