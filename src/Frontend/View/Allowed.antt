-- ===== src/Frontend/View/Allowed.antt =====
-- The controls that the page of frontend/src/App.tsx offers, against the state that it is in.
use logthing.Prelude.{
  ℕ, ◌<◌, String, ◌≡◌, refl, Bool, true, false, not, ◌&&◌, ◌||◌, Option, none, some, List, [], ◌∷◌,
  ◌++◌, ◌==◌, All, All-append, length, eqb, ltb, if_both, arith, if◌then◌else◌,
}
use logthing.Prelude.Text.{is_some}
use logthing.Frontend.Types.{Incident, SyslogMessage}
use logthing.Frontend.Hosts.{sorted_unique_hosts}
use logthing.Frontend.Labels.{truthy, current_incidents, resolved_incidents}
use logthing.Frontend.App.{App, Notice, live_disabled, live_title}
use logthing.Frontend.App.Step.{
  Action, page_back, page_forward, live_toggled, live_set, test_event_started,
  test_notification_started,
}
use logthing.Frontend.Html.{
  Handler, on, calls, calls_with_text, calls_with_checked, shows_evidence, exports_messages,
  chooses_file, imports_file, Html, nothing, nodes, box, icon, when, each, enabled,
  All-enabled-each,
}
use logthing.Frontend.View.Texts.{Browser}
use logthing.Frontend.View.Incidents.{
  evidence_button, analysis_status, notification_banner, page_heading, incident_row, incident_table,
  table_or, current_section, history_section, incidents_page,
}
use logthing.Frontend.View.Toolbar.{
  icon_button, refresh_button, live_button, host_options, no_hosts, host_menu, host_filter,
  filter_box, live_switch, commands, pager, toolbar,
}
use logthing.Frontend.View.Messages.{
  build_line, navigation, banner, current_incident, no_messages, incident_summary, message_row,
  message_table, topbar, messages_page, app_view,
}

-- What the state must be for the action to do what its control says.
abbrev IsOfUse : App → Action → Type 0
IsOfUse s page_back = 0 < s.page
IsOfUse s page_forward = s.has_more ≡ true
IsOfUse s live_toggled = live_disabled s ≡ false
IsOfUse s (live_set _) = live_disabled s ≡ false
IsOfUse s test_event_started = s.sending_test ≡ false
IsOfUse s test_notification_started = s.sending_notification ≡ false
IsOfUse s _ = Unit

abbrev pub IsAllowed : App → Handler → Type 0
IsAllowed s (calls action) = IsOfUse s action
IsAllowed s (calls_with_text f) = (text : String) → IsOfUse s (f text)
IsAllowed s (calls_with_checked f) = (checked : Bool) → IsOfUse s (f checked)
IsAllowed s (shows_evidence id) = is_some id ≡ true
IsAllowed s exports_messages = 0 < length s.messages
IsAllowed s chooses_file = s.importing ≡ false
IsAllowed s imports_file = Unit

module _ {κ} (P : Handler → Type κ) where
  -- The handlers of a control that may be disabled, and those behind it.
  guarded :
      (disabled : Bool) (h : Handler) (rest : List Handler)
      → (disabled ≡ false → P h)
      → All P rest
      → All P (((if disabled || false then [] else h ∷ []) ++ []) ++ rest)
  guarded true h rest f k = k
  guarded false h rest f k = (f refl, k)

module _ (s : App) where
  abbrev AllAllowed : Html → Type 0
  AllAllowed h = All (IsAllowed s) (enabled h)

  page_heading-IsAllowed : AllAllowed (page_heading s)
  unfolding page_heading
  page_heading-IsAllowed = (
    tt,
    guarded (IsAllowed s) s.sending_notification (calls test_notification_started) [] (λ e. e) tt,
  )

  notification_banner-IsAllowed : AllAllowed (notification_banner s.notification_result)
  unfolding notification_banner
  notification_banner-IsAllowed = of s.notification_result
    where
      of : (n : Option Notice) → AllAllowed (notification_banner n)
      of none = tt
      of (some n) = tt

  live_switch-IsAllowed : AllAllowed (live_switch s)
  unfolding live_switch
  live_switch-IsAllowed =
      guarded (IsAllowed s) (live_disabled s) (calls_with_checked live_set) [] (λ e checked. e) tt

  commands-IsAllowed : AllAllowed (commands s)
  unfolding commands
  commands-IsAllowed =
      guarded (IsAllowed s) s.sending_test (calls test_event_started) _ (λ e. e)
        (guarded (IsAllowed s) (eqb (length s.messages) 0) exports_messages _ (λ e. ground arith)
          (guarded (IsAllowed s) s.importing chooses_file (imports_file ∷ []) (λ e. e) (tt, tt)))

  module _ (number : String → ℕ) where
    pager-IsAllowed : AllAllowed (pager number s)
    unfolding pager
    pager-IsAllowed =
        guarded (IsAllowed s) (eqb s.page 0) (calls page_back) _ (λ e. ground arith)
          (guarded (IsAllowed s) (not s.has_more) (calls page_forward) _ (λ e. ground arith)
            ((λ value. tt), tt))

  -- The one part and then the other.
  both : (a b : Html) → AllAllowed a → AllAllowed b → All (IsAllowed s) (enabled a ++ enabled b)
  both a b = All-append (IsAllowed s) (enabled a) (enabled b)

  -- The only part of an element that has any handlers.
  only : (h : Html) → AllAllowed h → AllAllowed (nodes (h ∷ []))
  only h p = both h nothing p tt

  when-IsAllowed : (test : Bool) (h : Html) → AllAllowed h → AllAllowed (when test h)
  when-IsAllowed test h p = if_both AllAllowed test h nothing (λ _. p) (λ _. tt)

  host_menu-IsAllowed : (options selected : List String) → AllAllowed (host_menu options selected)
  unfolding host_menu
  host_menu-IsAllowed options selected = (
    tt,
    both (host_options options selected) (nodes (no_hosts options ∷ []))
        (All-enabled-each (IsAllowed s) _ options (λ host. (tt, tt)))
        (only (no_hosts options)
          (if_both AllAllowed (eqb (length options) 0) _ nothing (λ _. tt) (λ _. tt))),
  )

  host_filter-IsAllowed :
      (before_eq : String → String → Bool) → AllAllowed (host_filter before_eq s)
  unfolding host_filter
  host_filter-IsAllowed before_eq =
      let menu =
        host_menu (sorted_unique_hosts before_eq (s.known_hosts ++ s.selected_hosts))
          s.selected_hosts in
      (
        tt,
        both (when s.host_menu_open menu) nothing
            (when-IsAllowed s.host_menu_open menu (host_menu-IsAllowed _ s.selected_hosts)) tt,
      )

  evidence_button-IsAllowed : (ids : List String) → AllAllowed (nodes (evidence_button ids ∷ []))
  evidence_button-IsAllowed [] = tt
  evidence_button-IsAllowed (id ∷ ids) =
      guarded (IsAllowed s) (eqb (length (id ∷ ids)) 0) (shows_evidence (some id)) [] (λ e. refl) tt

  live_button-IsAllowed : AllAllowed (nodes (live_button s ∷ []))
  live_button-IsAllowed =
      if_both
        (λ image. AllAllowed (
          nodes
            (icon_button (live_disabled s) (on (calls live_toggled)) (live_title s) image ∷ [])))
        (s.auto_refresh && not (live_disabled s)) (icon "Pause" 18) (icon "Play" 18)
        (λ _. guarded (IsAllowed s) (live_disabled s) (calls live_toggled) [] (λ e. e) tt)
        (λ _. guarded (IsAllowed s) (live_disabled s) (calls live_toggled) [] (λ e. e) tt)

  module _ (browser : Browser) where
    incident_row-IsAllowed : (i : Incident) → AllAllowed (incident_row browser i)
    unfolding incident_row
    incident_row-IsAllowed i =
        both (nodes (evidence_button i.evidence_ids ∷ [])) nothing
          (evidence_button-IsAllowed i.evidence_ids) tt

    incident_table-IsAllowed :
        (incidents : List Incident) → AllAllowed (incident_table browser incidents)
    unfolding incident_table
    incident_table-IsAllowed incidents =
        let rows = each (incident_row browser) incidents in
        only (nodes (nodes (rows ∷ []) ∷ [])) (
          only (nodes (rows ∷ [])) (
            only rows (
              All-enabled-each (IsAllowed s) (incident_row browser) incidents
                incident_row-IsAllowed)))

    table_or-IsAllowed :
        (class content : String) (incidents : List Incident)
        → AllAllowed (table_or browser class content incidents)
    table_or-IsAllowed class content incidents =
        if_both AllAllowed (ltb 0 (length incidents)) (incident_table browser incidents)
          (box class content) (λ _. incident_table-IsAllowed incidents) (λ _. tt)

    current_section-IsAllowed :
        (incidents : List Incident) → AllAllowed (current_section browser incidents)
    unfolding current_section
    current_section-IsAllowed incidents =
        only (table_or browser "active-clear" "No current connectivity incidents" incidents)
          (table_or-IsAllowed "active-clear" "No current connectivity incidents" incidents)

    history_section-IsAllowed :
        (incidents : List Incident) → AllAllowed (history_section browser incidents)
    unfolding history_section
    history_section-IsAllowed incidents =
        only (table_or browser "empty-state" "No resolved incidents" incidents)
          (table_or-IsAllowed "empty-state" "No resolved incidents" incidents)

    incidents_page-IsAllowed : AllAllowed (incidents_page browser s)
    unfolding incidents_page analysis_status
    incidents_page-IsAllowed =
        let current = current_section browser (current_incidents s.incidents) in
        let history = history_section browser (resolved_incidents s.incidents) in
        both (page_heading s)
          (nodes (notification_banner s.notification_result ∷ current ∷ history ∷ []))
          page_heading-IsAllowed
          (both (notification_banner s.notification_result) (nodes (current ∷ history ∷ []))
            notification_banner-IsAllowed
            (both current (nodes (history ∷ []))
              (current_section-IsAllowed (current_incidents s.incidents))
              (only history (history_section-IsAllowed (resolved_incidents s.incidents)))))

    toolbar-IsAllowed : AllAllowed (toolbar browser s)
    unfolding toolbar filter_box
    toolbar-IsAllowed =
        both (host_filter browser.before_eq s)
          (nodes (
            filter_box s
            ∷ live_switch s
            ∷ commands s
            ∷ pager browser.number s
            ∷ refresh_button s
            ∷ live_button s
            ∷ []))
          (host_filter-IsAllowed browser.before_eq)
          (
            (λ value. tt),
            both (live_switch s)
                (nodes
                  (commands s ∷ pager browser.number s ∷ refresh_button s ∷ live_button s ∷ []))
                live_switch-IsAllowed
                (both (commands s)
                  (nodes (pager browser.number s ∷ refresh_button s ∷ live_button s ∷ []))
                  commands-IsAllowed
                  (both (pager browser.number s) (nodes (refresh_button s ∷ live_button s ∷ []))
                    (pager-IsAllowed browser.number) (tt, live_button-IsAllowed))),
          )

    incident_summary-IsAllowed :
        (failure : Option String) (current : List Incident)
        → AllAllowed (incident_summary browser failure current)
    unfolding incident_summary
    incident_summary-IsAllowed failure current =
        let rows = each (current_incident browser) current in
        (
          tt,
          only rows (All-enabled-each (IsAllowed s) (current_incident browser) current (λ i. tt)),
        )

    message_table-IsAllowed :
        (messages : List SyslogMessage) → AllAllowed (message_table browser messages)
    unfolding message_table message_row
    message_table-IsAllowed messages =
        let rows = each (message_row browser) messages in
        let filler = when (eqb (length messages) 0) no_messages in
        only (nodes (nodes (rows ∷ filler ∷ []) ∷ [])) (
          only (nodes (rows ∷ filler ∷ [])) (
            both rows (nodes (filler ∷ []))
              (All-enabled-each (IsAllowed s) (message_row browser) messages (λ m. tt))
              (only filler (when-IsAllowed (eqb (length messages) 0) no_messages tt))))

    messages_page-IsAllowed : AllAllowed (messages_page browser s)
    unfolding messages_page
    messages_page-IsAllowed =
        let error = banner "error-banner" s.error in
        let notice = banner "notice-banner" s.notice in
        let current = current_incidents s.incidents in
        let summary = incident_summary browser s.incident_load_error current in
        let table = message_table browser s.messages in
        both (toolbar browser s) (nodes (error ∷ notice ∷ summary ∷ table ∷ [])) toolbar-IsAllowed (
          both error (nodes (notice ∷ summary ∷ table ∷ [])) (when-IsAllowed (truthy s.error) _ tt)
            (both notice (nodes (summary ∷ table ∷ [])) (when-IsAllowed (truthy s.notice) _ tt) (
              both summary (nodes (table ∷ []))
                (incident_summary-IsAllowed s.incident_load_error current)
                (only table (message_table-IsAllowed s.messages)))))

    topbar-IsAllowed : AllAllowed (topbar browser s)
    unfolding topbar
    topbar-IsAllowed =
        let line = build_line s.build_id in
        both (nodes (nodes (line ∷ []) ∷ [])) (nodes (navigation s.route ∷ []))
          (only (nodes (line ∷ []))
            (only line (if_both AllAllowed (not (s.build_id == "")) _ nothing (λ _. tt) (λ _. tt))))
          (tt, (tt, tt))

    -- Each control that the page offers as enabled is of use in its state, whatever the state: the
    -- previous page where there is one, the next where more messages are known, an export where
    -- messages are shown, the live controls where live updates can be had, a test or an import
    -- where none is under way, and an incident's evidence where there is any.
    pub app_view-IsAllowed : AllAllowed (app_view browser s)
    unfolding app_view
    app_view-IsAllowed =
        let page =
          if s.route == "/incidents" then incidents_page browser s else messages_page browser s in
        both (topbar browser s) (nodes (page ∷ [])) topbar-IsAllowed (
          only page (
            if_both AllAllowed (s.route == "/incidents") _ _ (λ _. incidents_page-IsAllowed)
              (λ _. messages_page-IsAllowed)))
