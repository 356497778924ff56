-- ===== src/Frontend/View/Messages.antt =====
-- The page of the messages, and the whole of what `App` of frontend/src/App.tsx returns.
use logthing.Prelude.{
  ℕ, String, Bool, not, Option, none, some, List, [], ◌∷◌, ◌==◌, length, eqb, ltb, if◌then◌else◌,
}
use logthing.Prelude.Text.{concat, decimal}
use logthing.Frontend.Types.{SyslogMessage, Incident}
use logthing.Frontend.Labels.{duration_between, truthy, current_incidents}
use logthing.Frontend.App.{App}
use logthing.Frontend.App.Step.{navigated}
use logthing.Frontend.Html.{
  attr, on, calls, Html, text, nodes, el, class_name, tag_text, box, icon, each, when,
}
use logthing.Frontend.View.Texts.{
  Browser, number_text, optional_text, plural, format_date, format_optional_date, format_json,
  latest_received,
}
use logthing.Frontend.View.Incidents.{state_name, state_badge, incidents_page}
use logthing.Frontend.View.Toolbar.{toolbar}

abbrev pub banner : String → Option String → Html
banner class value = when (truthy value) (box class (optional_text value))

abbrev pub summary_title : Option String → List Incident → String
summary_title failure current =
    if truthy failure
    then "Connectivity status unavailable"
    else if ltb 0 (length current)
    then concat
        (decimal (length current) ∷ " current connectivity incident" ∷ plural (length current) ∷ [])
    else "Primary WAN and monitored backups are healthy"

abbrev summary_detail : Option String → List Incident → String
summary_detail failure current =
    if truthy failure
    then "Open the incidents page for the error details."
    else if ltb 0 (length current)
    then "Current outage status from the incident analyser."
    else "No outage is active or being confirmed."

abbrev nav_class : Bool → String
nav_class active = if active then "active" else ""

abbrev numeric : String → Html
numeric content = el "td" (class_name "numeric" ∷ []) (text content ∷ [])

abbrev pub no_messages : Html
no_messages = el "tr" [] (
    el "td" (class_name "empty" ∷ attr "colSpan" "14" ∷ []) (text "No matching messages" ∷ []) ∷ [])

abbrev column_names : List String
column_names =
    "Received" ∷ "Timestamp" ∷ "Host" ∷ "App" ∷ "Proc" ∷ "Msg ID" ∷ "Facility" ∷ "Severity"
    ∷ "Priority" ∷ "Tag" ∷ "Source" ∷ "Transport" ∷ "Structured" ∷ "Message" ∷ []

abbrev pub build_line : String → Html
build_line id =
    when (not (id == ""))
      (el "p" (class_name "text-xs opacity-50" ∷ []) (text "Build: " ∷ text id ∷ []))

abbrev pub navigation : String → Html
navigation route =
    el "nav" (class_name "primary-nav" ∷ attr "aria-label" "Primary navigation" ∷ []) (
      el "button"
        (class_name (nav_class (not (route == "/incidents")))
          ∷ attr "type" "button"
          ∷ on (calls (navigated "/"))
          ∷ [])
        (text "Messages" ∷ [])
      ∷ el "button"
          (class_name (nav_class (route == "/incidents"))
            ∷ attr "type" "button"
            ∷ on (calls (navigated "/incidents"))
            ∷ [])
          (text "Incidents" ∷ [])
      ∷ [])

abbrev updated_text : Browser → Option ℕ → String
updated_text browser none = ""
updated_text browser (some t) = browser.to_locale_time_string t

module _ (browser : Browser) where
  abbrev pub current_incident : Incident → Html
  current_incident i =
      el "div" (class_name (concat ("current-incident " ∷ state_name i.state ∷ [])) ∷ []) (
        el "strong" [] (text i.hostname ∷ text " · " ∷ text i.interface ∷ [])
        ∷ state_badge i.state
        ∷ el "span" [] (text "Detected " ∷ text (format_date browser i.started_at) ∷ [])
        ∷ tag_text "span"
            (duration_between browser.date_parse browser.now i.started_at i.resolved_at)
        ∷ [])

  unfoldable pub incident_summary : Option String → List Incident → Html
  incident_summary failure current =
      el "section"
        (class_name "incident-summary" ∷ attr "aria-label" "Current connectivity incidents" ∷ [])
        (el "div" (class_name "incident-summary-heading" ∷ []) (
            el "div" [] (
              tag_text "strong" (summary_title failure current)
              ∷ tag_text "span" (summary_detail failure current)
              ∷ [])
            ∷ el "button"
                (class_name "text-button"
                  ∷ attr "type" "button"
                  ∷ on (calls (navigated "/incidents"))
                  ∷ [])
                (text "View incidents" ∷ [])
            ∷ [])
          ∷ each current_incident current
          ∷ [])

  unfoldable pub message_row : SyslogMessage → Html
  message_row m = el "tr" [] (
      tag_text "td" (format_date browser m.received_at)
      ∷ tag_text "td" (format_optional_date browser m.timestamp)
      ∷ tag_text "td" (optional_text m.hostname)
      ∷ tag_text "td" (optional_text m.app_name)
      ∷ tag_text "td" (optional_text m.proc_id)
      ∷ tag_text "td" (optional_text m.msg_id)
      ∷ numeric (number_text m.facility)
      ∷ numeric (number_text m.severity)
      ∷ numeric (number_text m.priority)
      ∷ tag_text "td" (optional_text m.tag)
      ∷ tag_text "td" (optional_text m.source)
      ∷ tag_text "td" (optional_text m.transport)
      ∷ el "td"
          (class_name "structured" ∷ attr "title" (format_json browser m.structured_data) ∷ [])
          (text (format_json browser m.structured_data) ∷ [])
      ∷ el "td" (class_name "message-cell" ∷ attr "title" (optional_text m.message) ∷ [])
          (text (optional_text m.message) ∷ [])
      ∷ [])

  unfoldable pub message_table : List SyslogMessage → Html
  message_table messages = el "main" (class_name "table-shell" ∷ []) (
      el "table" [] (
        el "thead" [] (el "tr" [] (each (tag_text "th") column_names ∷ []) ∷ [])
        ∷ el "tbody" []
            (each message_row messages ∷ when (eqb (length messages) 0) no_messages ∷ [])
        ∷ [])
      ∷ [])

  unfoldable pub topbar : App → Html
  topbar s = el "header" (class_name "topbar" ∷ []) (
      el "div" (class_name "brand" ∷ []) (
        el "span" (class_name "brand-mark" ∷ attr "aria-hidden" "true" ∷ []) (icon "Wifi" 20 ∷ [])
        ∷ el "div" [] (
            tag_text "h1" "Logthing"
            ∷ tag_text "p" (
                if latest_received browser s.messages == ""
                then "No messages received"
                else latest_received browser s.messages)
            ∷ build_line s.build_id
            ∷ [])
        ∷ [])
      ∷ el "div" (class_name "status-strip" ∷ attr "aria-live" "polite" ∷ []) (
          navigation s.route
          ∷ el "span" (class_name "status-pill" ∷ []) (icon "Shield" 15 ∷ text "Basic auth" ∷ [])
          ∷ el "span" (class_name "status-text" ∷ [])
              (text (updated_text browser s.last_updated) ∷ [])
          ∷ [])
      ∷ [])

  unfoldable pub messages_page : App → Html
  messages_page s = nodes (
      toolbar browser s
      ∷ banner "error-banner" s.error
      ∷ banner "notice-banner" s.notice
      ∷ incident_summary s.incident_load_error (current_incidents s.incidents)
      ∷ message_table s.messages
      ∷ [])

  -- What `App` returns.
  unfoldable pub app_view : App → Html
  app_view s = el "div" (class_name "app-shell" ∷ []) (
      topbar s
      ∷ (if s.route == "/incidents" then incidents_page browser s else messages_page s)
      ∷ [])
