-- ===== src/Incidents/Kept.antt =====
-- The outbox of internal/incidents/engine.go only grows: no message and no time that passes
-- changes or drops a job that is there.
use logthing.Prelude.{
  ℕ, String, ◌≡◌, refl, ◌∙◌, inl, inr, Bool, true, false, Option, none, some, [], ◌∷◌, ◌==◌, eq_iff,
  arith, if◌then◌else◌, Option-cases, Bool-cases, All, if_both, ◌+◌,
}
use logthing.Prelude.Maps.{Map, lookup, insert, lookup-insert, All-insert}
use logthing.Model.{Message}
use logthing.Incidents.Classify.{Evidence, classify}
use logthing.Incidents.Observe.{
  Platform, tracker_at, is_stale, online, offline, settle, observe_evidence, observe_found, observe,
}
use logthing.Incidents.Types.{
  tracker_key, Config, Incident, NotificationJob, Tracker, Phase, Snapshot,
}
use logthing.Incidents.Jobs.{add_job, escalate_fallbacks, is_fallback_out, primary_down_at}
use logthing.Incidents.Advance.{
  announce_fallback, announce_failure, escalate_if_primary, announce_recovery, confirm_failure,
  confirm_recovery, fire, fire_phase, advance, activated, resolved_incident,
}
use logthing.Incidents.Advance.Settles.{advance_induction}

-- A job is stored under its identifier.
abbrev pub IsKeyed : Map NotificationJob → Type 0
IsKeyed jobs = All (λ (e : String × NotificationJob). e.1.id ≡ e.0) jobs

-- Every job of the one outbox is in the other, as it was.
pub record IsKept (old new : Map NotificationJob) : Type 0 where
  pub kept :
      (id : String) (job : NotificationJob) → lookup id old ≡ some job → lookup id new ≡ some job
  pub keyed : IsKeyed old → IsKeyed new

pub IsKept-refl : (jobs : Map NotificationJob) → IsKept jobs jobs
IsKept-refl jobs = record { kept = λ _ _ h. h; keyed = λ h. h }

pub IsKept-trans : {a b c : Map NotificationJob} → IsKept a b → IsKept b c → IsKept a c
IsKept-trans f g = record {
  kept = λ id job h. g.kept id job (f.kept id job h);
  keyed = λ h. g.keyed (f.keyed h);
}

insert-kept :
    (new job : NotificationJob) (id : String) (jobs : Map NotificationJob)
    → lookup new.id jobs ≡ none
    → lookup id jobs ≡ some job
    → lookup id (insert new.id new jobs) ≡ some job
insert-kept new job id jobs e h = elim (Bool-cases (new.id == id)) [
  | inl same ↦
      let q : new.id ≡ id = (eq_iff new.id id).0 same in
      absurd (let k : lookup id jobs ≡ none = rw (← q) e in cc)
  | inr other ↦ lookup-insert new.id id new jobs ∙ rw other h
]

pub add_job-IsKept :
    (job : NotificationJob) (jobs : Map NotificationJob) → IsKept jobs (add_job job jobs)
unfolding add_job
add_job-IsKept job jobs = elim (Option-cases (lookup job.id jobs)) [
  | inl e ↦
      rw (e, add_job)
        (record {
          kept = λ id old h. insert-kept job old id jobs e h;
          keyed =
              All-insert (λ (e : String × NotificationJob). e.1.id ≡ e.0)
                (λ (e : String × NotificationJob). e.1.id ≡ e.0) job.id job jobs refl
                (λ _ _ _ h. h);
        })
  | inr (found, e) ↦ rw (e, add_job) (IsKept-refl jobs)
]

-- A change that is made under a test.
pub if-IsKept :
    (b : Bool) (old : Map NotificationJob) {x y : Map NotificationJob}
    → IsKept old x
    → IsKept old y
    → IsKept old (if b then x else y)
if-IsKept true old h k = h
if-IsKept false old h k = k

module _ (cfg : Config) where
  escalate_fallbacks-IsKept :
      (incidents : Map Incident) (hostname primary_id : String) (at : ℕ)
      (jobs : Map NotificationJob)
      → IsKept jobs (escalate_fallbacks cfg incidents hostname primary_id at jobs)
  unfolding escalate_fallbacks
  escalate_fallbacks-IsKept [] hostname primary_id at jobs = IsKept-refl jobs
  escalate_fallbacks-IsKept ((_, i) ∷ rest) hostname primary_id at jobs =
      IsKept-trans
        (if-IsKept (is_fallback_out cfg hostname i) jobs (add_job-IsKept _ jobs) (IsKept-refl jobs))
        (escalate_fallbacks-IsKept rest hostname primary_id at _)

  pub announce_fallback-IsKept :
      (primary : Option Incident) (i : Incident) (at : ℕ) (jobs : Map NotificationJob)
      → IsKept jobs (announce_fallback cfg primary i at jobs)
  announce_fallback-IsKept none i at jobs = add_job-IsKept _ jobs
  announce_fallback-IsKept (some primary) i at jobs = add_job-IsKept _ jobs

  announce_failure-IsKept :
      (incidents : Map Incident) (i : Incident) (at : ℕ) (jobs : Map NotificationJob)
      → IsKept jobs (announce_failure cfg incidents i at jobs)
  announce_failure-IsKept incidents i at jobs =
      if-IsKept i.notify jobs
        (if-IsKept (i.interface == cfg.interface) jobs (add_job-IsKept _ jobs)
          (announce_fallback-IsKept (primary_down_at cfg incidents i.hostname at) i at jobs))
        (IsKept-refl jobs)

  escalate_if_primary-IsKept :
      (incidents : Map Incident) (i : Incident) (at : ℕ) (jobs : Map NotificationJob)
      → IsKept jobs (escalate_if_primary cfg incidents i at jobs)
  escalate_if_primary-IsKept incidents i at jobs =
      if-IsKept (i.interface == cfg.interface) jobs
        (escalate_fallbacks-IsKept incidents i.hostname i.id at jobs) (IsKept-refl jobs)

  announce_recovery-IsKept :
      (i : Incident) (at : ℕ) (jobs : Map NotificationJob)
      → IsKept jobs (announce_recovery cfg i at jobs)
  announce_recovery-IsKept i at jobs =
      if-IsKept i.notify jobs (add_job-IsKept _ jobs) (IsKept-refl jobs)

  fire_phase-IsKept :
      (phase : Phase) (s : Snapshot) (key : String) (t : Tracker) (found : Option Incident)
      → IsKept s.jobs (fire_phase cfg phase s key t found).jobs
  unfolding confirm_failure confirm_recovery
  fire_phase-IsKept Phase.unset s key t found = IsKept-refl s.jobs
  fire_phase-IsKept Phase.healthy s key t found = IsKept-refl s.jobs
  fire_phase-IsKept Phase.active s key t found = IsKept-refl s.jobs
  fire_phase-IsKept Phase.pending_failure s key t none = IsKept-refl s.jobs
  fire_phase-IsKept Phase.pending_recovery s key t none = IsKept-refl s.jobs
  fire_phase-IsKept Phase.pending_failure s key t (some i) =
      let new = activated t i in
      let incidents = insert new.id new s.incidents in
      let at = t.pending_since + i.down_after in
      IsKept-trans (announce_failure-IsKept incidents new at s.jobs)
        (escalate_if_primary-IsKept incidents new at (announce_failure cfg incidents new at s.jobs))
  fire_phase-IsKept Phase.pending_recovery s key t (some i) =
      announce_recovery-IsKept (resolved_incident t i) (t.recovery_since + i.recovered_after) s.jobs

  fire-IsKept : (s : Snapshot) (key : String) (t : Tracker) → IsKept s.jobs (fire cfg s key t).jobs
  unfolding fire
  fire-IsKept s key t = fire_phase-IsKept t.phase s key t (lookup t.incident_id s.incidents)

  pub advance-IsKept : (s : Snapshot) (now : ℕ) → IsKept s.jobs (advance cfg s now).0.jobs
  advance-IsKept s now =
      advance_induction cfg (λ x. IsKept s.jobs x.jobs) now
        (λ x key t _ h. IsKept-trans h (fire-IsKept x key t)) s (IsKept-refl s.jobs)

module _ (p : Platform) (cfg : Config) where
  online-jobs :
      (phase : Phase) (e : Evidence) (key : String) (t : Tracker) (s : Snapshot)
      → (online phase e key t s).jobs ≡ s.jobs
  unfolding online
  online-jobs Phase.unset e key t s = refl
  online-jobs Phase.healthy e key t s = refl
  online-jobs Phase.pending_failure e key t s = refl
  online-jobs Phase.active e key t s = refl
  online-jobs Phase.pending_recovery e key t s = refl

  offline-jobs :
      (phase : Phase) (e : Evidence) (eligible : Bool) (key : String) (t : Tracker) (s : Snapshot)
      → (offline p cfg phase e eligible key t s).jobs ≡ s.jobs
  unfolding offline
  offline-jobs Phase.unset e eligible key t s = refl
  offline-jobs Phase.healthy e eligible key t s = refl
  offline-jobs Phase.pending_failure e eligible key t s = refl
  offline-jobs Phase.active e eligible key t s = refl
  offline-jobs Phase.pending_recovery e eligible key t s = refl

  settle-jobs :
      (e : Evidence) (eligible : Bool) (key : String) (s : Snapshot)
      → (settle p cfg e eligible key s).jobs ≡ s.jobs
  unfolding settle
  settle-jobs e eligible key s =
      let current = tracker_at s.trackers key in
      let t = record current { last_evidence_at = e.at } in
      ground
        (arith, online-jobs current.phase e key t s, offline-jobs current.phase e eligible key t s)

  observe_evidence-IsKept :
      (s : Snapshot) (e : Evidence) (eligible : Bool)
      → IsKept s.jobs (observe_evidence p cfg s e eligible).jobs
  unfolding observe_evidence
  observe_evidence-IsKept s e eligible =
      let key = tracker_key e.hostname e.iface in
      let current = tracker_at s.trackers key in
      if_both (λ (x : Snapshot). IsKept s.jobs x.jobs) (is_stale e current) _ _
        (λ _. IsKept-refl s.jobs)
        (λ _.
          if_both (λ (x : Snapshot). IsKept s.jobs x.jobs) e.observe_only _ _
            (λ _. IsKept-refl s.jobs)
            (λ _.
              rw (settle-jobs e eligible key (advance cfg s e.at).0) (advance-IsKept cfg s e.at)))

  observe_found-IsKept :
      (s : Snapshot) (found : Option Evidence) (eligible : Bool) (source_ref : String)
      → IsKept s.jobs (observe_found p cfg s found eligible source_ref).jobs
  observe_found-IsKept s none eligible source_ref = IsKept-refl s.jobs
  observe_found-IsKept s (some e) eligible source_ref =
      observe_evidence-IsKept s (record e { source_ref = source_ref }) eligible

  pub observe-IsKept :
      (s : Snapshot) (message : Message) (eligible : Bool) (source_ref : String)
      → IsKept s.jobs (observe p cfg s message eligible source_ref).jobs
  unfolding observe
  observe-IsKept s message eligible source_ref =
      observe_found-IsKept s (classify message cfg.interface) eligible source_ref

  -- No message changes or drops a job of the outbox.
  pub lookup-observe :
      (s : Snapshot) (message : Message) (eligible : Bool) (source_ref : String) (id : String)
      (job : NotificationJob)
      → lookup id s.jobs ≡ some job
      → lookup id (observe p cfg s message eligible source_ref).jobs ≡ some job
  lookup-observe s message eligible source_ref = (observe-IsKept s message eligible source_ref).kept
