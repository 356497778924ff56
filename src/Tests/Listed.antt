-- ===== src/Tests/Listed.antt =====
-- `handleIncidents` of internal/api/router.go at a concrete state.
use logthing.Prelude.{String, ◌≡◌, true, false, none, [], ◌∷◌}
use logthing.Prelude.Sorting.{sort, IsSorted}
use logthing.Frontend.Api.{ListedState, incidents_query}
use logthing.Incidents.Types.{State, Incident, Snapshot}
use logthing.Incidents.Service.{empty, paged, later_first, notifications_for}
use logthing.Api.Incidents.{incidents, handle_incidents}
use logthing.Api.Incidents.Listed.{asked, AreOf, handle_incidents-listed}

abbrev outage : State → Incident
outage state = record {
  id = "i";
  rule_version = 1;
  hostname = "router";
  interface = "wan";
  state = state;
  started_at = 5;
  activated_at = none;
  recovery_first_at = none;
  resolved_at = none;
  last_evidence_at = 5;
  evidence_ids = [];
  evidence_refs = [];
  down_after = 60;
  recovered_after = 30;
  notify = true;
}

abbrev state : Snapshot
state = record empty {
  incidents = ("i", outage State.pending_recovery) ∷ ("j", outage State.resolved) ∷ [];
}

handle_incidents-listed_example :
    (handle_incidents state (incidents_query ListedState.active)
      ≡ incidents
          ((outage State.pending_recovery, []) ∷ [])
          (record { count = 1; limit = 100; offset = 0; has_more = false }))
    × IsSorted later_first (asked ListedState.active state)
    × ((id : String) → AreOf id (notifications_for id state))
unfolding sort paged
handle_incidents-listed_example = handle_incidents-listed state ListedState.active
