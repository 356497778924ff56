-- ===== src/Incidents/Observe.antt =====
-- `observeLocked` of internal/incidents/engine.go: one message of the log is taken in.
use logthing.Prelude.{
  ℕ, String, Bool, false, not, ◌&&◌, ◌||◌, Option, none, some, List, [], ◌∷◌, ◌++◌, ◌==◌, ltb, eqb,
  if◌then◌else◌,
}
use logthing.Prelude.Text.{concat}
use logthing.Prelude.Maps.{Map, lookup, insert, remove}
use logthing.Model.{Message}
use logthing.Incidents.Types.{
  State, Phase, Config, Incident, Tracker, zero_tracker, healthy_tracker, Snapshot, tracker_key,
}
use logthing.Incidents.Classify.{Evidence, classify}
use logthing.Incidents.Advance.{advance}

-- `appendEvidence`
abbrev ends_with : List String → String → Bool
ends_with [] id = false
ends_with (x ∷ []) id = x == id
ends_with (x ∷ y ∷ ids) id = ends_with (y ∷ ids) id

unfoldable pub append_evidence : List String → String → List String
append_evidence ids id = if id == "" then ids else if ends_with ids id then ids else ids ++ id ∷ []

-- What the program takes from the packages crypto/sha256, encoding/hex and time.
pub record Platform : Type 0 where
  -- The first eight bytes of the SHA-256 of a text, in hexadecimal.
  pub digest : String → String
  -- A time in the format RFC3339Nano.
  pub format_time : ℕ → String

abbrev or_zero : Option Tracker → Tracker
or_zero none = zero_tracker
or_zero (some t) = t

-- `s.state.Trackers[key]`
abbrev pub tracker_at : Map Tracker → String → Tracker
tracker_at trackers key = or_zero (lookup key trackers)

-- The evidence is added to the incident of the tracker, if that is there.
abbrev pub add_evidence : Evidence → Incident → Incident
add_evidence e i = record i {
  last_evidence_at = e.at;
  evidence_ids = append_evidence i.evidence_ids e.message_id;
  evidence_refs = append_evidence i.evidence_refs e.source_ref;
}

abbrev store_found : Option Incident → (Incident → Incident) → Map Incident → Map Incident
store_found none change incidents = incidents
store_found (some i) change incidents = insert i.id (change i) incidents

-- An incident that is there is changed. No change touches the identifier.
abbrev pub update_incident : String → (Incident → Incident) → Map Incident → Map Incident
update_incident id change incidents = store_found (lookup id incidents) change incidents

module _ (p : Platform) where
  -- `incidentID`
  unfoldable pub incident_id : String → String → ℕ → String → String
  incident_id hostname iface started message_id =
      p.digest
        (concat (hostname ∷ "\0" ∷ iface ∷ "\0" ∷ p.format_time started ∷ "\0" ∷ message_id ∷ []))

abbrev pub put : String → Tracker → Map Incident → Snapshot → Snapshot
put key t incidents s = record s { trackers = insert key t s.trackers; incidents = incidents }

abbrev pub still_down : Evidence → Tracker → Tracker
still_down e t = record t { reachability_down = t.reachability_down || e.reachability }

-- `case true` of the switch: the interface is up.
unfoldable pub online : Phase → Evidence → String → Tracker → Snapshot → Snapshot
online Phase.unset e key t s = put key (healthy_tracker e.at) s.incidents s
online Phase.healthy e key t s = put key t s.incidents s
online Phase.pending_failure e key t s =
    put key (healthy_tracker e.at) (remove t.incident_id s.incidents) s
online Phase.active e key t s =
    put key (record t { phase = Phase.pending_recovery; recovery_since = e.at })
      (update_incident t.incident_id
        (λ i. record (add_evidence e i) {
          state = State.pending_recovery;
          recovery_first_at = some e.at;
        })
        s.incidents)
      s
online Phase.pending_recovery e key t s =
    put key t (update_incident t.incident_id (add_evidence e) s.incidents) s

abbrev pub or_healthy : Phase → Phase
or_healthy Phase.unset = Phase.healthy
or_healthy other = other

-- The evidence is older than what the tracker has seen.
abbrev pub is_stale : Evidence → Tracker → Bool
is_stale e t = not (eqb t.last_evidence_at 0) && ltb e.at t.last_evidence_at

-- Reachability found the interface down, and a link that comes up does not tell otherwise.
abbrev pub is_outranked : Config → Evidence → Tracker → Bool
is_outranked cfg e t =
    e.online && e.iface == cfg.interface && t.reachability_down && not e.reachability

module _ (p : Platform) (cfg : Config) where
  abbrev pub evidence_id : Evidence → String
  evidence_id e = incident_id p e.hostname e.iface e.at e.message_id

  -- The tracker and the incident of a failure that is not yet confirmed.
  abbrev pub failing_tracker : Evidence → Bool → Tracker
  failing_tracker e eligible = record {
    phase = Phase.pending_failure;
    pending_since = e.at;
    recovery_since = 0;
    last_evidence_at = e.at;
    start_message_id = e.message_id;
    start_source_ref = e.source_ref;
    incident_id = evidence_id e;
    notify = eligible;
    reachability_down = e.reachability;
  }

  abbrev pub new_incident : Evidence → Bool → Incident
  new_incident e eligible = record {
    id = evidence_id e;
    rule_version = 3;
    hostname = e.hostname;
    interface = e.iface;
    state = State.pending_failure;
    started_at = e.at;
    activated_at = none;
    recovery_first_at = none;
    resolved_at = none;
    last_evidence_at = e.at;
    evidence_ids = append_evidence [] e.message_id;
    evidence_refs = append_evidence [] e.source_ref;
    down_after = cfg.down_after;
    recovered_after = cfg.recovered_after;
    notify = eligible;
  }

  -- `case false` of the switch: the interface is down.
  unfoldable pub offline : Phase → Evidence → Bool → String → Tracker → Snapshot → Snapshot
  offline Phase.pending_failure e eligible key t s =
      let t' = record (still_down e t) { notify = t.notify || eligible } in
      put key t'
        (update_incident t.incident_id (λ i. record (add_evidence e i) { notify = t'.notify })
          s.incidents)
        s
  offline Phase.active e eligible key t s =
      put key (still_down e t) (update_incident t.incident_id (add_evidence e) s.incidents) s
  offline Phase.pending_recovery e eligible key t s =
      put key (record (still_down e t) { phase = Phase.active; recovery_since = 0 })
        (update_incident t.incident_id
          (λ i. record (add_evidence e i) { state = State.active; recovery_first_at = none })
          s.incidents)
        s
  offline _ e eligible key t s =
      put key (failing_tracker e eligible)
        (insert (evidence_id e) (new_incident e eligible) s.incidents) s

  -- What follows `advanceLocked`, on the state that it leaves.
  unfoldable pub settle : Evidence → Bool → String → Snapshot → Snapshot
  unfolding offline online
  settle e eligible key s =
      let current = tracker_at s.trackers key in
      let t = record current { last_evidence_at = e.at } in
      if is_outranked cfg e current
      then s
      else if e.online
      then online current.phase e key t s
      else offline current.phase e eligible key t s

  unfoldable pub observe_evidence : Snapshot → Evidence → Bool → Snapshot
  observe_evidence s e eligible =
      let key = tracker_key e.hostname e.iface in
      let current = tracker_at s.trackers key in
      if is_stale e current
      then s
      else if e.observe_only
      then record s {
        trackers =
            insert key
              (record current { phase = or_healthy current.phase; last_evidence_at = e.at })
              s.trackers;
      }
      else settle e eligible key (advance cfg s e.at).0

  abbrev pub observe_found : Snapshot → Option Evidence → Bool → String → Snapshot
  observe_found s none eligible source_ref = s
  observe_found s (some e) eligible source_ref =
      observe_evidence s (record e { source_ref = source_ref }) eligible

  unfoldable pub observe : Snapshot → Message → Bool → String → Snapshot
  observe s message eligible source_ref =
      observe_found s (classify message cfg.interface) eligible source_ref
