-- ===== src/Incidents/Rebuild/Consistent.antt =====
-- `Rebuild` of internal/incidents/engine.go changes only which incidents are to be reported, so that
-- trackers and incidents stay consistent.
use mathlib.Core.Path.{subst}
use mathlib.Core.Option
use logthing.Prelude.{ℕ, String, ◌≡◌, refl, sym, ap, ◌∙◌, Bool, ◌||◌, Option, none, some}
use logthing.Prelude.Maps.{Map, lookup, lookup-map, map-IsMap, map-All}
use logthing.Incidents.Types.{State, Phase, Incident, Tracker, NotificationJob, Snapshot}
use logthing.Incidents.Consistent.{
  IsConsistent, IsRecovering, IsRecovered, HasShape, IsShaped, LinkOf, IsLinked,
}
use logthing.Incidents.Rebuild.{keep_notify, renotified, notify_as, retracked}

-- Only the field `notify` is written.
abbrev kept_notify : Incident → Option Incident → Bool
kept_notify i none = i.notify
kept_notify i (some old) = i.notify || old.notify

keep_notify_lem :
    (i : Incident) (o : Option Incident) → keep_notify i o ≡ record i { notify = kept_notify i o }
keep_notify_lem i none = refl
keep_notify_lem i (some old) = refl

abbrev tracked_notify : Tracker → Option Incident → Bool
tracked_notify t none = t.notify
tracked_notify t (some i) = i.notify

notify_as_lem :
    (t : Tracker) (o : Option Incident) → notify_as t o ≡ record t { notify = tracked_notify t o }
notify_as_lem t none = refl
notify_as_lem t (some i) = refl

with_notify-HasShape :
    (s : State) (i : Incident) (b : Bool) → HasShape s i → HasShape s (record i { notify = b })
with_notify-HasShape State.pending_failure i b h = h
with_notify-HasShape State.active i b h = h
with_notify-HasShape State.pending_recovery i b (a, h) =
    (a, recovering i i.recovery_first_at i.resolved_at h)
  where
    recovering :
        (i : Incident) (x y : Option ℕ)
        → IsRecovering i x y
        → IsRecovering (record i { notify = b }) x y
    recovering i none y h = absurd h
    recovering i (some x) none h = h
    recovering i (some x) (some y) h = absurd h
with_notify-HasShape State.resolved i b (a, h) =
    (a, recovered i i.recovery_first_at i.resolved_at h)
  where
    recovered :
        (i : Incident) (x y : Option ℕ)
        → IsRecovered i x y
        → IsRecovered (record i { notify = b }) x y
    recovered i none y h = absurd h
    recovered i (some x) none h = absurd h
    recovered i (some x) (some y) h = h

with_notify-LinkOf :
    (key : String) (t : Tracker) (a : Bool) (f : Incident → Bool) (phase : Phase)
    (found : Option Incident)
    → LinkOf key t phase found
    → LinkOf key
        (record t { notify = a })
        phase
        (Option.map (λ (i : Incident). record i { notify = f i }) found)
with_notify-LinkOf key t a f Phase.unset found l = tt
with_notify-LinkOf key t a f Phase.healthy found l = tt
with_notify-LinkOf key t a f Phase.pending_failure none l = l
with_notify-LinkOf key t a f Phase.pending_failure (some i) l = l
with_notify-LinkOf key t a f Phase.active none l = l
with_notify-LinkOf key t a f Phase.active (some i) l = l
with_notify-LinkOf key t a f Phase.pending_recovery none l = l
with_notify-LinkOf key t a f Phase.pending_recovery (some i) l = l

map_keep :
    (o found : Option Incident)
    → Option.map (λ i. keep_notify i o) found
      ≡ Option.map (λ (i : Incident). record i { notify = kept_notify i o }) found
map_keep o none = refl
map_keep o (some i) = ap some (keep_notify_lem i o)

module _ (previous : Map Incident) (s : Snapshot) (c : IsConsistent s) where
  abbrev keep : String → Incident → Incident
  keep k i = keep_notify i (lookup k previous)

  abbrev incidents : Map Incident
  incidents = renotified previous s.incidents

  abbrev track : String → Tracker → Tracker
  track k t = notify_as t (lookup t.incident_id incidents)

  keep-IsShaped : (k : String) (i : Incident) → IsShaped (k, i) → IsShaped (k, keep k i)
  keep-IsShaped k i (e, h) =
      subst (λ x. IsShaped (k, x)) (sym (keep_notify_lem i (lookup k previous)))
        (e, with_notify-HasShape i.state i (kept_notify i (lookup k previous)) h)

  track-IsLinked :
      (k : String) (t : Tracker) → IsLinked s.incidents (k, t) → IsLinked incidents (k, track k t)
  track-IsLinked k t l =
      let a = tracked_notify t (lookup t.incident_id incidents) in
      let o = lookup t.incident_id previous in
      subst (λ x. IsLinked incidents (k, x))
        (sym (notify_as_lem t (lookup t.incident_id incidents)))
        (subst (LinkOf k (record t { notify = a }) t.phase)
          (sym (
            lookup-map keep t.incident_id s.incidents
            ∙ map_keep o (lookup t.incident_id s.incidents)))
          (with_notify-LinkOf k t a (λ i. kept_notify i o) t.phase
            (lookup t.incident_id s.incidents) l))

  pub renotified-IsConsistent :
      (jobs : Map NotificationJob)
      → IsConsistent (record s {
        incidents = incidents;
        trackers = retracked incidents s.trackers;
        jobs = jobs;
      })
  renotified-IsConsistent jobs = record {
    keyed = map-IsMap track s.trackers c.keyed;
    keyed_incidents = map-IsMap keep s.incidents c.keyed_incidents;
    shaped = map-All keep IsShaped IsShaped keep-IsShaped s.incidents c.shaped;
    linked =
        map-All track (IsLinked s.incidents) (IsLinked incidents) track-IsLinked s.trackers
          c.linked;
  }
