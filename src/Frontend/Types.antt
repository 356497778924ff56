-- ===== src/Frontend/Types.antt =====
-- frontend/src/types.ts. An optional field is an `Option`; a JSON object that is only shown is the
-- list of its keys and their texts. Field names that antt reserves are changed: `data` is `items`.
use logthing.Prelude.{ℕ, String, Bool, Option, List}
use logthing.Prelude.Int.{ℤ}
use logthing.Prelude.Maps.{Map}

pub record SyslogMessage : Type 0 where
  pub id : String
  pub received_at : String
  pub timestamp : Option String
  pub transport : Option String
  pub source : Option String
  pub priority : Option ℤ
  pub facility : Option ℤ
  pub severity : Option ℤ
  pub hostname : Option String
  pub app_name : Option String
  pub proc_id : Option String
  pub msg_id : Option String
  pub tag : Option String
  pub message : Option String
  pub structured_data : Option (Map String)
  pub raw : Option (Map String)

pub record Meta : Type 0 where
  pub count : ℕ
  pub limit : ℕ
  pub offset : ℕ
  pub has_more : Bool

pub record MessagesResponse : Type 0 where
  pub items : List SyslogMessage
  pub meta : Meta

pub record ImportMessagesResponse : Type 0 where
  pub status : String
  pub imported : ℕ
  pub skipped : ℕ

pub data DeliveryKind : Type 0 where
  incident_opened incident_resolved fallback_opened fallback_resolved fallback_escalated :
      DeliveryKind

pub record NotificationDelivery : Type 0 where
  pub id : String
  pub kind : DeliveryKind
  pub attempts : ℕ
  pub last_error : Option String
  pub sent_at : Option String
  pub adapter : Option String
  pub permanent : Option Bool

pub data IncidentState : Type 0 where
  pending_failure active pending_recovery resolved : IncidentState

pub record Incident : Type 0 where
  pub id : String
  pub rule_version : ℕ
  pub hostname : String
  pub interface : String
  pub state : IncidentState
  pub started_at : String
  pub activated_at : Option String
  pub recovery_first_at : Option String
  pub resolved_at : Option String
  pub last_evidence_at : String
  pub evidence_ids : List String
  pub evidence_refs : Option (List String)
  pub down_after : ℕ
  pub recovered_after : ℕ
  pub deliveries : List NotificationDelivery

pub record IncidentsResponse : Type 0 where
  pub items : List Incident
  pub meta : Meta

pub record IncidentHealth : Type 0 where
  pub running : Bool
  pub stale : Bool
  pub last_reconciled_at : Option String
  pub last_processed_at : Option String
  pub last_error : Option String
  pub pending_jobs : ℕ
