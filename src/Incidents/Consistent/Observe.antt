-- ===== src/Incidents/Consistent/Observe.antt =====
-- `observeLocked` keeps trackers and incidents consistent.
use logthing.Prelude.{ℕ, ◌≤◌, ◌≡◌, false, String, Bool, Option, none, some, arith, if_both}
use logthing.Prelude.Maps.{lookup}
use logthing.Model.{Message}
use logthing.Incidents.Types.{Phase, Config, Incident, Tracker, Snapshot, tracker_key}
use logthing.Incidents.Classify.{Evidence, classify}
use logthing.Incidents.Advance.{advance}
use logthing.Incidents.Observe.{
  Platform, tracker_at, evidence_id, is_stale, or_healthy, observe_evidence, observe_found, observe,
}
use logthing.Incidents.Consistent.{IsConsistent, LinkOf, OwnedBy}
use logthing.Incidents.Consistent.Settle.{
  tracker_at-IsLinked, tracker-IsConsistent, settle-IsConsistent,
}
use logthing.Incidents.Consistent.Ready.{advance-IsReady}

module _ (p : Platform) (cfg : Config) where
  -- The tests of staleness: a tracker with no evidence, or with none after `at`.
  not_stale-le : (e : Evidence) (t : Tracker) → is_stale e t ≡ false → t.last_evidence_at ≤ e.at
  not_stale-le e t h = ground arith

  or_healthy-IsLinked :
      (key : String) (t : Tracker) (at : ℕ) (phase : Phase) (o : Option Incident)
      → t.last_evidence_at ≤ at
      → LinkOf key t phase o
      → LinkOf key
          (record t { phase = or_healthy phase; last_evidence_at = at })
          (or_healthy phase)
          o
  or_healthy-IsLinked key t at Phase.unset o le l = tt
  or_healthy-IsLinked key t at Phase.healthy o le l = tt
  or_healthy-IsLinked key t at Phase.pending_failure none le l = l
  or_healthy-IsLinked key t at Phase.active none le l = l
  or_healthy-IsLinked key t at Phase.pending_recovery none le l = l
  or_healthy-IsLinked key t at Phase.pending_failure (some i) le ((same, k, a), st, since) =
      ((same, k, omega arith), st, since)
  or_healthy-IsLinked key t at Phase.active (some i) le ((same, k, a), st) =
      ((same, k, omega arith), st)
  or_healthy-IsLinked key t at Phase.pending_recovery (some i) le ((same, k, a), st, since) =
      ((same, k, omega arith), st, since)

  observe_evidence-IsConsistent :
      (s : Snapshot) (e : Evidence) (eligible : Bool)
      → IsConsistent s
      → OwnedBy (tracker_key e.hostname e.iface) (lookup (evidence_id p cfg e) s.incidents)
      → IsConsistent (observe_evidence p cfg s e eligible)
  unfolding observe_evidence
  observe_evidence-IsConsistent s e eligible c owned =
      let key = tracker_key e.hostname e.iface in
      let current = tracker_at s.trackers key in
      if_both IsConsistent (is_stale e current) _ _ (λ _. c)
        (λ fresh.
          let le = not_stale-le e current fresh in
          if_both IsConsistent e.observe_only _ _
            (λ _.
              tracker-IsConsistent s key
                (record current { phase = or_healthy current.phase; last_evidence_at = e.at }) c
                (or_healthy-IsLinked key current e.at current.phase _ le
                  (tracker_at-IsLinked s key c)))
            (λ _.
              let r =
                advance-IsReady p cfg key (evidence_id p cfg e) e.at e.at s
                  (record { consistent = c; owned = owned; later = le }) in
              settle-IsConsistent p cfg (advance cfg s e.at).0 e eligible r.consistent r.owned
                r.later))

  -- No other host or interface has an incident with the identifier that an incident of this
  -- message would have.
  abbrev pub IsDistinct : Snapshot → Option Evidence → Type 0
  IsDistinct s none = Unit
  IsDistinct s (some e) =
      OwnedBy (tracker_key e.hostname e.iface) (lookup (evidence_id p cfg e) s.incidents)

  observe_found-IsConsistent :
      (s : Snapshot) (o : Option Evidence) (eligible : Bool) (source_ref : String)
      → IsConsistent s
      → IsDistinct s o
      → IsConsistent (observe_found p cfg s o eligible source_ref)
  observe_found-IsConsistent s none eligible source_ref c d = c
  observe_found-IsConsistent s (some e) eligible source_ref c d =
      observe_evidence-IsConsistent s (record e { source_ref = source_ref }) eligible c d

  -- `observeLocked` keeps the state consistent, for every message, unless the message would open
  -- an incident under an identifier that an incident of another host or interface has.
  pub observe-IsConsistent :
      (s : Snapshot) (message : Message) (eligible : Bool) (source_ref : String)
      → IsConsistent s
      → IsDistinct s (classify message cfg.interface)
      → IsConsistent (observe p cfg s message eligible source_ref)
  unfolding observe
  observe-IsConsistent s message eligible source_ref c d =
      observe_found-IsConsistent s (classify message cfg.interface) eligible source_ref c d
