-- ===== src/Incidents/Jobs.antt =====
-- The outbox of internal/incidents/engine.go: `enqueueLocked`, `enqueueFallbackEscalationLocked`,
-- `primaryDownAtLocked` and `escalateFallbacksLocked`.
use logthing.Prelude.{
  ℕ, String, Bool, true, false, not, ◌&&◌, Option, none, some, [], ◌∷◌, ◌==◌, ltb, if◌then◌else◌,
}
use logthing.Prelude.Maps.{Map, lookup, insert}
use logthing.Prelude.Text.{concat}
use logthing.Incidents.Types.{
  State, Kind, fallback_escalated, kind_text, Config, Incident, NotificationJob,
}

abbrev pub job_id : String → Kind → String
job_id incident_id kind = concat (incident_id ∷ ":" ∷ kind_text kind ∷ [])

abbrev escalation_id : String → String → String
escalation_id fallback_id primary_id =
    concat (fallback_id ∷ ":" ∷ kind_text fallback_escalated ∷ ":" ∷ primary_id ∷ [])

abbrev pub new_job : String → String → Kind → ℕ → NotificationJob
new_job id incident_id kind at = record {
  id = id;
  incident_id = incident_id;
  kind = kind;
  created_at = at;
  attempts = 0;
  next_at = at;
  last_error = "";
  sent_at = none;
  adapter = "";
  external_id = "";
  permanent = false;
}

-- A job that the outbox has is left as it is.
unfoldable pub add_job : NotificationJob → Map NotificationJob → Map NotificationJob
add_job job jobs = elim (lookup job.id jobs) [ none ↦ insert job.id job jobs | some _ ↦ jobs ]

abbrev pub enqueue : String → Kind → ℕ → Map NotificationJob → Map NotificationJob
enqueue incident_id kind at = add_job (new_job (job_id incident_id kind) incident_id kind at)

abbrev pub enqueue_escalation : String → String → ℕ → Map NotificationJob → Map NotificationJob
enqueue_escalation fallback_id primary_id at =
    add_job (new_job (escalation_id fallback_id primary_id) fallback_id fallback_escalated at)

-- `at.Before(*t)`, true if there is no time.
abbrev pub before_or_none : ℕ → Option ℕ → Bool
before_or_none at none = true
before_or_none at (some t) = ltb at t

-- The time is there and not after `at`.
abbrev reached : ℕ → Option ℕ → Bool
reached at none = false
reached at (some t) = not (ltb at t)

abbrev is_outage : State → Bool
is_outage State.active = true
is_outage State.pending_recovery = true
is_outage _ = false

module _ (cfg : Config) where
  -- An outage of the primary interface covers the time.
  abbrev is_primary_down : String → ℕ → Incident → Bool
  is_primary_down hostname at i =
      i.hostname == hostname
      && i.interface == cfg.interface
      && reached at i.activated_at
      && before_or_none at i.resolved_at

  unfoldable pub primary_down_at : Map Incident → String → ℕ → Option Incident
  primary_down_at [] hostname at = none
  primary_down_at ((_, i) ∷ rest) hostname at =
      let later = primary_down_at rest hostname at in
      if is_primary_down hostname at i then some i else later

  -- An outage of a backup of the host, which is to be reported.
  abbrev pub is_fallback_out : String → Incident → Bool
  is_fallback_out hostname i =
      i.hostname == hostname && not (i.interface == cfg.interface) && i.notify && is_outage i.state

  unfoldable pub escalate_fallbacks :
      Map Incident → String → String → ℕ → Map NotificationJob → Map NotificationJob
  escalate_fallbacks [] hostname primary_id at jobs = jobs
  escalate_fallbacks ((_, i) ∷ rest) hostname primary_id at jobs =
      escalate_fallbacks rest hostname primary_id at
        (if is_fallback_out hostname i then enqueue_escalation i.id primary_id at jobs else jobs)
