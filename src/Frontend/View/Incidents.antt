-- ===== src/Frontend/View/Incidents.antt =====
-- The page of the incidents, and `IncidentTable`, of frontend/src/App.tsx.
use logthing.Prelude.{
  ℕ, String, Bool, false, not, ◌&&◌, Option, none, some, List, [], ◌∷◌, length, eqb, ltb,
  if◌then◌else◌,
}
use logthing.Prelude.Text.{concat, decimal}
use logthing.Frontend.Types.{
  Incident, IncidentState, pending_failure, active, pending_recovery, resolved, IncidentHealth,
}
use logthing.Frontend.Labels.{
  state_label, duration_between, delivery_label, truthy, current_incidents, resolved_incidents,
}
use logthing.Frontend.App.{App, Notice, success, error}
use logthing.Frontend.App.Step.{navigated, test_notification_started}
use logthing.Frontend.Html.{
  attr, flag, on, calls, shows_evidence, Html, nothing, text, el, class_name, tag_text, box, icon,
  icon_with, each,
}
use logthing.Frontend.View.Texts.{Browser, optional_text, plural, format_date}

-- `incident.state`, as a text.
abbrev pub state_name : IncidentState → String
state_name pending_failure = "pending_failure"
state_name active = "active"
state_name pending_recovery = "pending_recovery"
state_name resolved = "resolved"

abbrev pub state_badge : IncidentState → Html
state_badge state =
    el "span" (class_name (concat ("state-badge " ∷ state_name state ∷ [])) ∷ [])
      (text (state_label state) ∷ [])

-- `evidence_ids[0]`
abbrev first_evidence : List String → Option String
first_evidence [] = none
first_evidence (id ∷ _) = some id

abbrev health_running : Option IncidentHealth → Bool
health_running none = false
health_running (some h) = h.running

abbrev health_stale : Option IncidentHealth → Bool
health_stale none = false
health_stale (some h) = h.stale

abbrev health_error : Option IncidentHealth → Option String
health_error none = none
health_error (some h) = h.last_error

abbrev pub pending_jobs : Option IncidentHealth → ℕ
pending_jobs none = 0
pending_jobs (some h) = h.pending_jobs

-- Without a state of the analysis the number is not 1, which the plural asks for.
abbrev queued_text : Option IncidentHealth → String
queued_text h =
    concat (decimal (pending_jobs h) ∷ " notification" ∷ plural (pending_jobs h) ∷ " queued" ∷ [])

abbrev analysis_title : App → String
analysis_title s =
    if truthy s.incident_load_error
    then "Incident status unavailable"
    else if truthy (health_error s.incident_health)
    then "Incident analysis failed"
    else if health_stale s.incident_health
    then "Incident analysis is stale"
    else if health_running s.incident_health
    then "Incident analysis is healthy"
    else "Incident analysis is stopped"

abbrev analysis_detail : App → String
analysis_detail s =
    if truthy s.incident_load_error
    then optional_text s.incident_load_error
    else if truthy (health_error s.incident_health)
    then optional_text (health_error s.incident_health)
    else queued_text s.incident_health

abbrev analysis_class : Option IncidentHealth → String
analysis_class h =
    if health_running h && not (health_stale h) && not (truthy (health_error h))
    then "analysis-status healthy"
    else "analysis-status unhealthy"

unfoldable pub analysis_status : App → Html
analysis_status s =
    el "section" (class_name (analysis_class s.incident_health) ∷ [])
      (tag_text "strong" (analysis_title s) ∷ tag_text "span" (analysis_detail s) ∷ [])

abbrev notice_class : Notice → String
notice_class (success _) = "notice-banner inline-result"
notice_class (error _) = "error-banner inline-result"

abbrev notice_title : Notice → String
notice_title (success _) = "Notification test passed"
notice_title (error _) = "Notification test failed"

abbrev notice_message : Notice → String
notice_message (success message) = message
notice_message (error message) = message

unfoldable pub notification_banner : Option Notice → Html
notification_banner none = nothing
notification_banner (some n) =
    el "div" (class_name (notice_class n) ∷ attr "role" "status" ∷ [])
      (tag_text "strong" (notice_title n) ∷ tag_text "span" (notice_message n) ∷ [])

unfoldable pub page_heading : App → Html
page_heading s = el "div" (class_name "page-heading" ∷ []) (
    el "div" [] (
      el "button" (class_name "back-link" ∷ attr "type" "button" ∷ on (calls (navigated "/")) ∷ [])
        (icon "ArrowLeft" 16 ∷ text " Messages" ∷ [])
      ∷ el "h2" [] (icon "CircleAlert" 21 ∷ text " Connectivity incidents" ∷ [])
      ∷ tag_text "p"
          "Primary WAN outages and monitored Starlink or 4G backup failures reported by GL.iNet routers."
      ∷ [])
    ∷ el "button"
        (class_name "command-button secondary-command"
          ∷ attr "type" "button"
          ∷ flag "disabled" s.sending_notification
          ∷ on (calls test_notification_started)
          ∷ [])
        (icon_with "Bell" 16 (if s.sending_notification then "spin" else "")
          ∷ text " Test notification"
          ∷ [])
    ∷ [])

abbrev pub evidence_button : List String → Html
evidence_button ids =
    el "button"
      (class_name "evidence-button"
        ∷ attr "type" "button"
        ∷ on (shows_evidence (first_evidence ids))
        ∷ flag "disabled" (eqb (length ids) 0)
        ∷ [])
      (text (decimal (length ids)) ∷ text " event" ∷ text (plural (length ids)) ∷ [])

module _ (browser : Browser) where
  abbrev duration_text : Incident → String
  duration_text i = duration_between browser.date_parse browser.now i.started_at i.resolved_at

  abbrev date_or_dash : Option String → String
  date_or_dash value = if truthy value then format_date browser (optional_text value) else "—"

  unfoldable pub incident_row : Incident → Html
  incident_row i = el "tr" (class_name (state_name i.state) ∷ []) (
      el "td" [] (
        tag_text "strong" i.hostname
        ∷ el "span" (class_name "cell-detail" ∷ []) (text i.interface ∷ [])
        ∷ [])
      ∷ el "td" [] (state_badge i.state ∷ [])
      ∷ tag_text "td" (format_date browser i.started_at)
      ∷ tag_text "td" (date_or_dash i.activated_at)
      ∷ tag_text "td" (date_or_dash i.resolved_at)
      ∷ tag_text "td" (duration_text i)
      ∷ tag_text "td" (delivery_label i.deliveries)
      ∷ el "td" [] (evidence_button i.evidence_ids ∷ [])
      ∷ [])

  -- `IncidentTable`
  unfoldable pub incident_table : List Incident → Html
  incident_table incidents = el "div" (class_name "incident-table-wrap" ∷ []) (
      el "table" (class_name "incident-table" ∷ []) (
        el "thead" [] (
          el "tr" [] (
            each (tag_text "th") (
              "Host / interface" ∷ "Status" ∷ "Detected" ∷ "Outage confirmed" ∷ "Recovered"
              ∷ "Duration" ∷ "Notification" ∷ "Evidence" ∷ [])
            ∷ [])
          ∷ [])
        ∷ el "tbody" [] (each incident_row incidents ∷ [])
        ∷ [])
      ∷ [])

  abbrev pub table_or : String → String → List Incident → Html
  table_or class content incidents =
      if ltb 0 (length incidents) then incident_table incidents else box class content

  unfoldable pub current_section : List Incident → Html
  current_section incidents =
      el "section"
        (class_name "incident-section" ∷ attr "aria-labelledby" "current-incidents-heading" ∷ [])
        (el "div" (class_name "section-heading" ∷ []) (
            el "div" [] (
              el "h3" (attr "id" "current-incidents-heading" ∷ []) (text "Current incidents" ∷ [])
              ∷ tag_text "p"
                  "Failures being confirmed, active outages, and recoveries being confirmed."
              ∷ [])
            ∷ el "span"
                (class_name
                    (if ltb 0 (length incidents) then "count-badge alert" else "count-badge clear")
                  ∷ [])
                (text (decimal (length incidents)) ∷ [])
            ∷ [])
          ∷ table_or "active-clear" "No current connectivity incidents" incidents
          ∷ [])

  unfoldable pub history_section : List Incident → Html
  history_section incidents =
      el "section"
        (class_name "incident-section" ∷ attr "aria-labelledby" "incident-history-heading" ∷ [])
        (el "div" (class_name "section-heading" ∷ []) (
            el "div" [] (
              el "h3" (attr "id" "incident-history-heading" ∷ []) (text "Incident history" ∷ [])
              ∷ tag_text "p" "Most recent resolved incidents, newest first."
              ∷ [])
            ∷ el "span" (class_name "count-badge" ∷ []) (text (decimal (length incidents)) ∷ [])
            ∷ [])
          ∷ table_or "empty-state" "No resolved incidents" incidents
          ∷ [])

  unfoldable pub incidents_page : App → Html
  incidents_page s = el "main" (class_name "incidents-page" ∷ []) (
      page_heading s
      ∷ analysis_status s
      ∷ notification_banner s.notification_result
      ∷ current_section (current_incidents s.incidents)
      ∷ history_section (resolved_incidents s.incidents)
      ∷ [])
