-- ===== src/Incidents/Rebuild/Laws.antt =====
-- What `Rebuild` of internal/incidents/engine.go keeps of the outbox.
use logthing.Prelude.{
  ℕ, String, ◌≡◌, refl, ◌∙◌, inl, inr, true, Option, none, some, List, [], ◌∷◌, ◌==◌, arith,
  Bool-cases, if_both,
}
use logthing.Prelude.Text.{is_some}
use logthing.Prelude.Maps.{Map, lookup, lookup-insert, All-insert}
use logthing.Incidents.Types.{State, Config, Incident, NotificationJob, Cursor, Snapshot}
use logthing.Incidents.Jobs.{primary_down_at}
use logthing.Incidents.Observe.{Platform, observe}
use logthing.Incidents.Kept.{
  IsKept, IsKeyed, IsKept-refl, IsKept-trans, if-IsKept, add_job-IsKept, announce_fallback-IsKept,
  observe-IsKept,
}
use logthing.Incidents.Service.{Observation, observe_all, apply}
use logthing.Incidents.Rebuild.{
  renotified, restore_jobs, is_primary, rebuild_opened, rebuild_resolved, fails_later,
  escalate_later, rebuild_escalations, rebuild_incident, rebuild_jobs, fresh, rebuilt, rebuild,
}

lookup-restore_jobs :
    (incidents : Map Incident) (id : String) (job : NotificationJob)
    (old jobs : Map NotificationJob)
    → lookup id old ≡ some job
    → is_some (lookup job.incident_id incidents) ≡ true
    → lookup id (restore_jobs incidents old jobs) ≡ some job
unfolding restore_jobs lookup
lookup-restore_jobs incidents id job [] jobs e h = absurd (cc)
lookup-restore_jobs incidents id job ((k, j) ∷ rest) jobs e h = elim (Bool-cases (k == id)) [
  | inl same ↦
      let e' : j ≡ job = ground (arith) in
      rw (e', h) (lookup-insert k id job (restore_jobs incidents rest jobs) ∙ rw same refl)
  | inr other ↦ ground (
    arith,
    lookup-insert k id j (restore_jobs incidents rest jobs),
    lookup-restore_jobs incidents id job rest jobs (ground arith) h,
  )
]

restore_jobs-IsKeyed :
    (incidents : Map Incident) (old jobs : Map NotificationJob)
    → IsKeyed old
    → IsKeyed jobs
    → IsKeyed (restore_jobs incidents old jobs)
unfolding restore_jobs
restore_jobs-IsKeyed incidents [] jobs h k = k
restore_jobs-IsKeyed incidents ((id, job) ∷ rest) jobs (e, h) k =
    if_both IsKeyed (is_some (lookup job.incident_id incidents)) _ _
      (λ _.
        All-insert (λ (e : String × NotificationJob). e.1.id ≡ e.0)
          (λ (e : String × NotificationJob). e.1.id ≡ e.0) id job _ e (λ _ _ _ q. q)
          (restore_jobs-IsKeyed incidents rest jobs h k))
      (λ _. restore_jobs-IsKeyed incidents rest jobs h k)

module _ (cfg : Config) where
  rebuild_opened-IsKept :
      (incidents : Map Incident) (i : Incident) (at : ℕ) (jobs : Map NotificationJob)
      → IsKept jobs (rebuild_opened cfg incidents i at jobs)
  rebuild_opened-IsKept incidents i at jobs =
      if-IsKept (is_primary cfg i) jobs (add_job-IsKept _ jobs)
        (announce_fallback-IsKept cfg (primary_down_at cfg incidents i.hostname at) i at jobs)

  rebuild_resolved-IsKept :
      (state : State) (i : Incident) (at : Option ℕ) (jobs : Map NotificationJob)
      → IsKept jobs (rebuild_resolved cfg state i at jobs)
  rebuild_resolved-IsKept State.resolved i (some at) jobs = add_job-IsKept _ jobs
  rebuild_resolved-IsKept State.resolved i none jobs = IsKept-refl jobs
  rebuild_resolved-IsKept State.pending_failure i at jobs = IsKept-refl jobs
  rebuild_resolved-IsKept State.active i at jobs = IsKept-refl jobs
  rebuild_resolved-IsKept State.pending_recovery i at jobs = IsKept-refl jobs

  escalate_later-IsKept :
      (i : Incident) (at : ℕ) (primary : Incident) (failed : Option ℕ) (jobs : Map NotificationJob)
      → IsKept jobs (escalate_later cfg i at primary failed jobs)
  escalate_later-IsKept i at primary none jobs = IsKept-refl jobs
  escalate_later-IsKept i at primary (some failed) jobs =
      if-IsKept (fails_later cfg i at primary failed) jobs (add_job-IsKept _ jobs)
        (IsKept-refl jobs)

  rebuild_escalations-IsKept :
      (incidents : Map Incident) (i : Incident) (at : ℕ) (jobs : Map NotificationJob)
      → IsKept jobs (rebuild_escalations cfg incidents i at jobs)
  unfolding rebuild_escalations
  rebuild_escalations-IsKept [] i at jobs = IsKept-refl jobs
  rebuild_escalations-IsKept ((_, primary) ∷ rest) i at jobs =
      IsKept-trans (escalate_later-IsKept i at primary primary.activated_at jobs)
        (rebuild_escalations-IsKept rest i at _)

  rebuild_incident-IsKept :
      (incidents : Map Incident) (i : Incident) (at : Option ℕ) (jobs : Map NotificationJob)
      → IsKept jobs (rebuild_incident cfg incidents i at jobs)
  rebuild_incident-IsKept incidents i none jobs = IsKept-refl jobs
  rebuild_incident-IsKept incidents i (some at) jobs =
      let opened = rebuild_opened cfg incidents i at jobs in
      let reported =
        IsKept-trans (rebuild_opened-IsKept incidents i at jobs)
          (rebuild_resolved-IsKept i.state i i.resolved_at opened) in
      if-IsKept i.notify jobs
        (if-IsKept (is_primary cfg i) jobs reported
          (IsKept-trans reported (rebuild_escalations-IsKept incidents i at _)))
        (IsKept-refl jobs)

  rebuild_jobs-IsKept :
      (incidents rest : Map Incident) (jobs : Map NotificationJob)
      → IsKept jobs (rebuild_jobs cfg incidents rest jobs)
  unfolding rebuild_jobs
  rebuild_jobs-IsKept incidents [] jobs = IsKept-refl jobs
  rebuild_jobs-IsKept incidents ((_, i) ∷ rest) jobs =
      IsKept-trans (rebuild_incident-IsKept incidents i i.activated_at jobs)
        (rebuild_jobs-IsKept incidents rest _)

module _ (save : Snapshot → Option String) (p : Platform) (cfg : Config) where
  observe_all-IsKeyed :
      (observations : List Observation) (s : Snapshot)
      → IsKeyed s.jobs
      → IsKeyed (observe_all save p cfg observations s).jobs
  unfolding observe_all
  observe_all-IsKeyed [] s h = h
  observe_all-IsKeyed (o ∷ os) s h =
      observe_all-IsKeyed os (observe p cfg s o.message o.notify_eligible o.source_ref)
        ((observe-IsKept p cfg s o.message o.notify_eligible o.source_ref).keyed h)

  pub apply-IsKeyed :
      (observations : List Observation) (cursors : Map Cursor) (at : ℕ) (s : Snapshot)
      → IsKeyed s.jobs
      → IsKeyed (apply save p cfg observations cursors at s).0.jobs
  unfolding apply
  apply-IsKeyed observations cursors at s h = observe_all-IsKeyed observations s h

  pub rebuild-IsKeyed :
      (observations : List Observation) (cursors : Map Cursor) (at : ℕ) (s : Snapshot)
      → IsKeyed s.jobs
      → IsKeyed (rebuild save p cfg observations cursors at s).0.jobs
  unfolding rebuild rebuilt
  rebuild-IsKeyed observations cursors at s h =
      let start = fresh save p cfg cursors at in
      let seen = observe_all save p cfg observations start in
      let incidents = renotified s.incidents seen.incidents in
      (rebuild_jobs-IsKept cfg incidents incidents (restore_jobs incidents s.jobs seen.jobs)).keyed
        (restore_jobs-IsKeyed incidents s.jobs seen.jobs h
          (observe_all-IsKeyed observations start tt))

  -- After `Rebuild` every job of the old outbox whose incident was found again is in the outbox as
  -- it was, so that what was sent is not sent again.
  pub rebuild-jobs :
      (observations : List Observation) (cursors : Map Cursor) (at : ℕ) (s : Snapshot) (id : String)
      (job : NotificationJob)
      → lookup id s.jobs ≡ some job
      → is_some (lookup job.incident_id (rebuild save p cfg observations cursors at s).0.incidents)
        ≡ true
      → lookup id (rebuild save p cfg observations cursors at s).0.jobs ≡ some job
  unfolding rebuild rebuilt
  rebuild-jobs observations cursors at s id job e h =
      let seen = observe_all save p cfg observations (fresh save p cfg cursors at) in
      let incidents = renotified s.incidents seen.incidents in
      (rebuild_jobs-IsKept cfg incidents incidents (restore_jobs incidents s.jobs seen.jobs)).kept
        id job (lookup-restore_jobs incidents id job s.jobs seen.jobs e h)
