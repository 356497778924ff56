-- ===== src/Incidents/Service/Runs.antt =====
-- The methods of `Service` in internal/incidents/engine.go that change its state, as the steps of a
-- relation, and what holds after any number of them.
use logthing.Prelude.{
  ℕ, String, ◌≡◌, refl, ◌∙◌, Bool, Option, none, some, List, [], ◌∷◌, All, if_both, eqb,
}
use logthing.Prelude.Maps.{Map, lookup, insert, All-lookup, All-insert}
use logthing.Model.{Message}
use logthing.Incidents.Types.{Config, NotificationJob, Cursor, Snapshot}
use logthing.Incidents.Classify.{classify}
use logthing.Incidents.Advance.{advance}
use logthing.Incidents.Observe.{Platform, observe}
use logthing.Incidents.Consistent.{IsConsistent}
use logthing.Incidents.Consistent.Advance.{advance-IsConsistent}
use logthing.Incidents.Consistent.Observe.{IsDistinct, observe-IsConsistent}
use logthing.Incidents.Kept.{advance-IsKept, observe-IsKept}
use logthing.Incidents.Rebuild.{fresh, rebuilt, rebuild}
use logthing.Incidents.Rebuild.Laws.{rebuild-IsKeyed}
use logthing.Incidents.Rebuild.Consistent.{renotified-IsConsistent}
use logthing.Incidents.Service.Intact.{IsIntact, IsAmong, load-StartsIntact}
use logthing.Incidents.Service.{
  Error, Loaded, started, load, replace_snapshot, keep_or_restore, empty, change_found, sent_job,
  failed_job, put_job, mark_notification_sent, mark_notification_failed, set_cursors, observe_saved,
  tick, Observation, observe_all, apply,
}

module _ (save : Snapshot → Option String) (p : Platform) (cfg : Config) where
  -- The condition for every message of a batch, on the state that it comes to.
  abbrev AllDistinct : List Observation → Snapshot → Type 0
  AllDistinct [] s = Unit
  AllDistinct (o ∷ os) s =
      IsDistinct p cfg s (classify o.message cfg.interface)
      × AllDistinct os (observe p cfg s o.message o.notify_eligible o.source_ref)

  -- One call. A message comes with the condition that the identifier of the incident that it would
  -- open is not that of an incident of another host or interface; a state that is put in place of the
  -- old one is intact itself.
  pub data Step : Snapshot → Snapshot → Type 0 where
    replaced :
        (state : Snapshot) {s : Snapshot} → IsIntact state → Step s (replace_snapshot save state).0
    observed :
        (message : Message) (eligible : Bool) {s : Snapshot}
        → IsDistinct p cfg s (classify message cfg.interface)
        → Step s (observe_saved save p cfg message eligible s).0
    applied :
        (observations : List Observation) (cursors : Map Cursor) (at : ℕ) {s : Snapshot}
        → AllDistinct observations s
        → Step s (apply save p cfg observations cursors at s).0
    rebuilt_anew :
        (observations : List Observation) (cursors : Map Cursor) (at : ℕ) {s : Snapshot}
        → AllDistinct observations (fresh save p cfg cursors at)
        → Step s (rebuild save p cfg observations cursors at s).0
    ticked : (now : ℕ) {s : Snapshot} → Step s (tick save p cfg now s).0
    sent :
        (id adapter external_id : String) (at : ℕ) {s : Snapshot}
        → Step s (mark_notification_sent save id adapter external_id at s).0
    failed :
        (id message : String) (next : ℕ) (permanent : Bool) {s : Snapshot}
        → Step s (mark_notification_failed save id message next permanent s).0
    read_on : (cursors : Map Cursor) {s : Snapshot} → Step s (set_cursors save cursors s).0

  -- Any number of calls, the last one first, with the states after each of them. The program may be
  -- started again, and the new service loads a state that one had before.
  pub data Run : List Snapshot → Snapshot → Type 0 where
    begin : Run [] empty
    then_ : {past : List Snapshot} {s s' : Snapshot} → Run past s → Step s s' → Run (s' ∷ past) s'
    restarted : {past : List Snapshot} {s : Snapshot} → Run past s → Run past empty
    load_started :
        (stored : Loaded) {past : List Snapshot} {s s' : Snapshot}
        → IsAmong past stored
        → load stored s ≡ started s'
        → Run past s
        → Run (s' ∷ past) s'

  -- Trackers and incidents that stay keep their conditions.
  with_jobs-IsConsistent :
      (s : Snapshot) (jobs : Map NotificationJob)
      → IsConsistent s
      → IsConsistent (record s { jobs = jobs })
  with_jobs-IsConsistent s jobs c = record {
    keyed = c.keyed;
    keyed_incidents = c.keyed_incidents;
    shaped = c.shaped;
    linked = c.linked;
  }

  with_cursors-IsConsistent :
      (s : Snapshot) (cursors : Map Cursor)
      → IsConsistent s
      → IsConsistent (record s { cursors = cursors })
  with_cursors-IsConsistent s cursors c = record {
    keyed = c.keyed;
    keyed_incidents = c.keyed_incidents;
    shaped = c.shaped;
    linked = c.linked;
  }

  with_version-IsConsistent :
      (s : Snapshot) (version : ℕ) → IsConsistent s → IsConsistent (record s { version = version })
  with_version-IsConsistent s version c = record {
    keyed = c.keyed;
    keyed_incidents = c.keyed_incidents;
    shaped = c.shaped;
    linked = c.linked;
  }

  put_job-IsIntact :
      (id : String) (job : NotificationJob) (s : Snapshot)
      → job.id ≡ id
      → IsIntact s
      → IsIntact (put_job save id job s)
  put_job-IsIntact id job s e h = record {
    consistent = with_jobs-IsConsistent s (insert id job s.jobs) h.consistent;
    keyed_jobs =
        All-insert (λ (e : String × NotificationJob). e.1.id ≡ e.0)
          (λ (e : String × NotificationJob). e.1.id ≡ e.0) id job s.jobs e (λ _ _ _ k. k)
          h.keyed_jobs;
  }

  change_found-IsIntact :
      (id : String) (change : NotificationJob → NotificationJob)
      → ((job : NotificationJob) → (change job).id ≡ job.id)
      → (s : Snapshot) (found : Option NotificationJob) → lookup id s.jobs ≡ found
      → IsIntact s
      → IsIntact (change_found save id change s found).0
  change_found-IsIntact id change same s none e h = h
  change_found-IsIntact id change same s (some job) e h =
      let named : job.id ≡ id =
        All-lookup (λ (e : String × NotificationJob). e.1.id ≡ e.0) id job s.jobs h.keyed_jobs e in
      let next = put_job save id (change job) s in
      let k = put_job-IsIntact id (change job) s (same job ∙ named) h in
      restored (save next) next k (put_job-IsIntact id job next named k)
    where
      restored :
          (r : Option String) (next : Snapshot)
          → IsIntact next
          → IsIntact (put_job save id job next)
          → IsIntact (keep_or_restore save id job next r).0
      restored none next k l = k
      restored (some message) next k l = l

  observe_all-IsIntact :
      (observations : List Observation) (s : Snapshot)
      → AllDistinct observations s
      → IsIntact s
      → IsIntact (observe_all save p cfg observations s)
  unfolding observe_all
  observe_all-IsIntact [] s d h = h
  observe_all-IsIntact (o ∷ os) s (d, ds) h =
      observe_all-IsIntact os (observe p cfg s o.message o.notify_eligible o.source_ref) ds
        (record {
          consistent =
              observe-IsConsistent p cfg s o.message o.notify_eligible o.source_ref h.consistent d;
          keyed_jobs =
              (observe-IsKept p cfg s o.message o.notify_eligible o.source_ref).keyed h.keyed_jobs;
        })

  Step-IsIntact : {s s' : Snapshot} → Step s s' → IsIntact s → IsIntact s'
  unfolding mark_notification_sent mark_notification_failed tick apply
  Step-IsIntact {s} (replaced state k) h =
      if_both IsIntact (eqb state.version 0) _ _
        (λ _. record {
          consistent = with_version-IsConsistent state 1 k.consistent;
          keyed_jobs = k.keyed_jobs;
        })
        (λ _. k)
  Step-IsIntact {s} (observed message eligible d) h = record {
    consistent = observe-IsConsistent p cfg s message eligible "" h.consistent d;
    keyed_jobs = (observe-IsKept p cfg s message eligible "").keyed h.keyed_jobs;
  }
  Step-IsIntact {s} (applied observations cursors at d) h =
      let k = observe_all-IsIntact observations s d h in
      record {
        consistent = record {
          keyed = k.consistent.keyed;
          keyed_incidents = k.consistent.keyed_incidents;
          shaped = k.consistent.shaped;
          linked = k.consistent.linked;
        };
        keyed_jobs = k.keyed_jobs;
      }
  Step-IsIntact {s} (rebuilt_anew observations cursors at d) h =
      let start = fresh save p cfg cursors at in
      let seen = observe_all-IsIntact observations start d (record {
        consistent = record { keyed = tt; keyed_incidents = tt; shaped = tt; linked = tt };
        keyed_jobs = tt;
      }) in
      record {
        consistent =
            unfold rebuild rebuilt in
            renotified-IsConsistent s.incidents (observe_all save p cfg observations start)
              seen.consistent _;
        keyed_jobs = rebuild-IsKeyed save p cfg observations cursors at s h.keyed_jobs;
      }
  Step-IsIntact {s} (ticked now) h =
      let k : IsIntact (advance cfg s now).0 = record {
        consistent = advance-IsConsistent cfg now s h.consistent;
        keyed_jobs = (advance-IsKept cfg s now).keyed h.keyed_jobs;
      } in
      if_both (λ (r : Snapshot × Option Error). IsIntact r.0) (advance cfg s now).1 _ _ (λ _. k)
        (λ _. k)
  Step-IsIntact {s} (sent id adapter external_id at) h =
      change_found-IsIntact id (sent_job adapter external_id at) (λ _. refl) s (lookup id s.jobs)
        refl h
  Step-IsIntact {s} (failed id message next permanent) h =
      change_found-IsIntact id (failed_job message next permanent) (λ _. refl) s (lookup id s.jobs)
        refl h
  Step-IsIntact {s} (read_on cursors) h = record {
    consistent = with_cursors-IsConsistent s cursors h.consistent;
    keyed_jobs = h.keyed_jobs;
  }

  empty-IsIntact : IsIntact empty
  empty-IsIntact = record {
    consistent = record { keyed = tt; keyed_incidents = tt; shaped = tt; linked = tt };
    keyed_jobs = tt;
  }

  Run-All_IsIntact :
      {past : List Snapshot} {s : Snapshot} → Run past s → All IsIntact past × IsIntact s
  Run-All_IsIntact begin = (tt, empty-IsIntact)
  Run-All_IsIntact (then_ run step) =
      let (hs, h) = Run-All_IsIntact run in let k = Step-IsIntact step h in ((k, hs), k)
  Run-All_IsIntact (restarted run) = ((Run-All_IsIntact run).0, empty-IsIntact)
  Run-All_IsIntact {s = s'} (load_started stored {past} {s} m e run) =
      let (hs, h) = Run-All_IsIntact run in
      let k : IsIntact s' = rw e at (load-StartsIntact past stored s m hs h) in ((k, hs), k)

  -- Whatever calls are made on a new service, however often the program is started again, and whether
  -- or not the state can be saved, trackers and incidents are consistent after them and every job is
  -- stored under its identifier, if what is loaded is nothing, a state without a version, or a state
  -- that was there after an earlier call, every state that is put in place of the old one is so
  -- itself, and no message of connectivity comes when an incident of another host or interface has
  -- the identifier that an incident of the message would have.
  pub Run-IsIntact : {past : List Snapshot} {s : Snapshot} → Run past s → IsIntact s
  Run-IsIntact run = (Run-All_IsIntact run).1
