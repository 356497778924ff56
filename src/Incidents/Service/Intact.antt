-- ===== src/Incidents/Service/Intact.antt =====
-- What holds of the state of internal/incidents/engine.go between two calls, and that `Load`, which
-- changes trackers of an older rule version, leaves it so.
use mathlib.Core.List.{Memᴰ}
use logthing.Prelude.{
  String, Bool, true, not, eqb, Option, none, some, if_both, List, All, All-mem, ◌≡◌, ◌⊎◌, inl, inr,
  arith,
}
use logthing.Prelude.Maps.{Map, lookup, map-IsMap, map-All}
use logthing.Incidents.Types.{Phase, Incident, Tracker, Snapshot}
use logthing.Incidents.Consistent.{IsConsistent, LinkOf, IsLinked}
use logthing.Incidents.Kept.{IsKeyed}
use logthing.Incidents.Service.{
  migrate_found, migrate, Loaded, no_persistence, load_failed, loaded, LoadResult, started,
  load_error, unsupported, load,
}

-- Whether a tracker is down plays no part in its link to an incident.
with_reachable-LinkOf :
    (key : String) (t : Tracker) (b : Bool) (phase : Phase) (found : Option Incident)
    → LinkOf key t phase found
    → LinkOf key (record t { reachability_down = b }) phase found
with_reachable-LinkOf key t b Phase.unset found l = tt
with_reachable-LinkOf key t b Phase.healthy found l = tt
with_reachable-LinkOf key t b Phase.pending_failure none l = l
with_reachable-LinkOf key t b Phase.pending_failure (some i) l = l
with_reachable-LinkOf key t b Phase.active none l = l
with_reachable-LinkOf key t b Phase.active (some i) l = l
with_reachable-LinkOf key t b Phase.pending_recovery none l = l
with_reachable-LinkOf key t b Phase.pending_recovery (some i) l = l

migrate_found-IsLinked :
    (incidents : Map Incident) (key : String) (t : Tracker) (found : Option Incident)
    → IsLinked incidents (key, t)
    → IsLinked incidents (key, migrate_found t found)
migrate_found-IsLinked incidents key t none l = l
migrate_found-IsLinked incidents key t (some i) l =
    if_both (λ u. IsLinked incidents (key, u)) _ _ _
      (λ _. with_reachable-LinkOf key t true t.phase (lookup t.incident_id incidents) l) (λ _. l)

migrate-IsConsistent :
    (s : Snapshot)
    → IsConsistent s
    → IsConsistent (record s { trackers = migrate s.incidents s.trackers })
migrate-IsConsistent s c =
    let track = λ (k : String) (t : Tracker). migrate_found t (lookup t.incident_id s.incidents) in
    record {
      keyed = map-IsMap track s.trackers c.keyed;
      keyed_incidents = c.keyed_incidents;
      shaped = c.shaped;
      linked =
          map-All track (IsLinked s.incidents) (IsLinked s.incidents)
            (λ k t l. migrate_found-IsLinked s.incidents k t (lookup t.incident_id s.incidents) l)
            s.trackers c.linked;
    }

-- What holds of a state between two calls.
pub record IsIntact (s : Snapshot) : Type 0 where
  pub consistent : IsConsistent s
  pub keyed_jobs : IsKeyed s.jobs

-- What is loaded is nothing, a state without a version, which is not taken, or one of these states.
abbrev pub IsAmong : List Snapshot → Loaded → Type 0
IsAmong past no_persistence = Unit
IsAmong past (load_failed message) = Unit
IsAmong past (loaded state) = (state.version ≡ 0) ⊎ Memᴰ state past

-- What a load leaves behind.
abbrev StartsIntact : LoadResult → Type 0
StartsIntact (started s) = IsIntact s
StartsIntact (load_error message) = Unit
StartsIntact (unsupported version) = Unit

pub load-StartsIntact :
    (past : List Snapshot) (stored : Loaded) (s : Snapshot)
    → IsAmong past stored
    → All IsIntact past
    → IsIntact s
    → StartsIntact (load stored s)
load-StartsIntact past no_persistence s m hs h = h
load-StartsIntact past (load_failed message) s m hs h = tt
load-StartsIntact past (loaded state) s (inl none_there) hs h =
    let e : eqb state.version 0 ≡ true = ground arith in rw e h
load-StartsIntact past (loaded state) s (inr m) hs h =
    let k = All-mem IsIntact state past hs m in
    if_both StartsIntact (eqb state.version 0) _ _ (λ _. h)
      (λ _.
        if_both StartsIntact (not (eqb state.version 1)) _ _ (λ _. tt)
          (λ _. record {
            consistent = migrate-IsConsistent state k.consistent;
            keyed_jobs = k.keyed_jobs;
          }))
