-- ===== src/Incidents/Types.antt =====
-- The data of internal/incidents/engine.go. Durations and times are numbers of nanoseconds.
use logthing.Prelude.{ℕ, String, Bool, false, Option, List, [], ◌∷◌}
use logthing.Prelude.Maps.{Map}
use logthing.Prelude.Text.{concat}

pub data State : Type 0 where
  pending_failure active pending_recovery resolved : State

-- `notification.Kind`, with any other text that a stored job may have for it.
pub data Kind : Type 0 where
  incident_opened incident_resolved fallback_opened fallback_resolved fallback_escalated test : Kind
  other : String → Kind

abbrev pub kind_text : Kind → String
kind_text incident_opened = "incident_opened"
kind_text incident_resolved = "incident_resolved"
kind_text fallback_opened = "fallback_opened"
kind_text fallback_resolved = "fallback_resolved"
kind_text fallback_escalated = "fallback_escalated"
kind_text test = "test"
kind_text (other text) = text

pub record Config : Type 0 where
  pub interface : String
  pub down_after : ℕ
  pub recovered_after : ℕ

pub record Incident : Type 0 where
  pub id : String
  pub rule_version : ℕ
  pub hostname : String
  pub interface : String
  pub state : State
  pub started_at : ℕ
  pub activated_at : Option ℕ
  pub recovery_first_at : Option ℕ
  pub resolved_at : Option ℕ
  pub last_evidence_at : ℕ
  pub evidence_ids : List String
  pub evidence_refs : List String
  pub down_after : ℕ
  pub recovered_after : ℕ
  pub notify : Bool

pub record NotificationJob : Type 0 where
  pub id : String
  pub incident_id : String
  pub kind : Kind
  pub created_at : ℕ
  pub attempts : ℕ
  pub next_at : ℕ
  pub last_error : String
  pub sent_at : Option ℕ
  pub adapter : String
  pub external_id : String
  pub permanent : Bool

-- `unset` is the empty text, which the zero value of `tracker` has.
pub data Phase : Type 0 where
  unset healthy pending_failure active pending_recovery : Phase

pub record Tracker : Type 0 where
  pub phase : Phase
  pub pending_since : ℕ
  pub recovery_since : ℕ
  pub last_evidence_at : ℕ
  pub start_message_id : String
  pub start_source_ref : String
  pub incident_id : String
  pub notify : Bool
  pub reachability_down : Bool

-- What reading a key that is not in the map of trackers gives.
abbrev pub zero_tracker : Tracker
zero_tracker = record {
  phase = unset;
  pending_since = 0;
  recovery_since = 0;
  last_evidence_at = 0;
  start_message_id = "";
  start_source_ref = "";
  incident_id = "";
  notify = false;
  reachability_down = false;
}

-- `tracker{Phase: phaseHealthy, LastEvidenceAt: at}`
abbrev pub healthy_tracker : ℕ → Tracker
healthy_tracker at = record zero_tracker { phase = healthy; last_evidence_at = at }

-- `storage.Cursor`
pub record Cursor : Type 0 where
  pub offset : ℕ
  pub fingerprint : String

pub record Snapshot : Type 0 where
  pub version : ℕ
  pub bootstrapped : Bool
  pub last_checkpoint_at : ℕ
  pub trackers : Map Tracker
  pub incidents : Map Incident
  pub jobs : Map NotificationJob
  pub cursors : Map Cursor

-- `hostname + "\x00" + iface`
unfoldable pub tracker_key : String → String → String
tracker_key hostname iface = concat (hostname ∷ "\0" ∷ iface ∷ [])
