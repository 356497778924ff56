-- ===== src/Frontend/View/Toolbar.antt =====
-- The bar with the page's controls, of frontend/src/App.tsx.
use logthing.Prelude.{
  ℕ, ◌+◌, String, Bool, false, not, ◌&&◌, List, [], ◌∷◌, ◌++◌, ◌==◌, length, eqb, if◌then◌else◌,
}
use logthing.Prelude.Text.{concat, decimal}
use logthing.Frontend.Hosts.{includes, sorted_unique_hosts, host_label}
use logthing.Frontend.App.{App, PageSize, auto, rows, page_size_text, live_disabled, live_title}
use logthing.Frontend.App.Step.{
  edit_filter, host_toggled, hosts_cleared, host_menu_toggled, page_back, page_forward,
  live_toggled, live_set, page_size_selected, refresh_started, test_event_started,
}
use logthing.Frontend.Html.{
  Attribute, attr, flag, on, calls, calls_with_text, calls_with_checked, exports_messages,
  chooses_file, imports_file, Html, text, nodes, el, class_name, tag_text, box, icon, icon_with,
  each, when,
}
use logthing.Frontend.View.Texts.{Browser}

abbrev spin : Bool → String
spin busy = if busy then "spin" else ""

-- A button with an icon and a text.
abbrev command_button : String → Bool → Attribute → Html → String → Html
command_button class disabled handler image label =
    el "button" (attr "type" "button" ∷ class_name class ∷ handler ∷ flag "disabled" disabled ∷ [])
      (image ∷ tag_text "span" label ∷ [])

-- A button with an icon only; its title is its label too.
abbrev pub icon_button : Bool → Attribute → String → Html → Html
icon_button disabled handler title image =
    el "button"
      (attr "type" "button"
        ∷ class_name "icon-button"
        ∷ handler
        ∷ flag "disabled" disabled
        ∷ attr "title" title
        ∷ attr "aria-label" title
        ∷ [])
      (image ∷ [])

abbrev host_option : Bool → Attribute → String → Html
host_option checked handler label = el "label" (class_name "host-option" ∷ []) (
    el "input" (attr "type" "checkbox" ∷ flag "checked" checked ∷ handler ∷ []) []
    ∷ tag_text "span" label
    ∷ [])

abbrev pub host_options : List String → List String → Html
host_options options selected =
    each (λ host. host_option (includes selected host) (on (calls (host_toggled host))) host)
      options

abbrev pub no_hosts : List String → Html
no_hosts options = when (eqb (length options) 0) (box "host-empty" "No hosts")

unfoldable pub host_menu : List String → List String → Html
host_menu options selected = el "div" (class_name "host-menu" ∷ []) (
    host_option (eqb (length selected) 0) (on (calls hosts_cleared)) "All hosts"
    ∷ host_options options selected
    ∷ no_hosts options
    ∷ [])

-- `hostOptions`
abbrev all_hosts : (String → String → Bool) → App → List String
all_hosts before_eq s = sorted_unique_hosts before_eq (s.known_hosts ++ s.selected_hosts)

unfoldable pub host_filter : (String → String → Bool) → App → Html
host_filter before_eq s = el "div" (class_name "host-filter" ∷ []) (
    el "button"
      (attr "type" "button"
        ∷ class_name "host-filter-button"
        ∷ on (calls host_menu_toggled)
        ∷ flag "aria-expanded" s.host_menu_open
        ∷ [])
      (icon "Server" 17
        ∷ tag_text "span" (host_label s.selected_hosts)
        ∷ el "ChevronDown" (attr "size" "16" ∷ attr "aria-hidden" "true" ∷ []) []
        ∷ [])
    ∷ when s.host_menu_open (host_menu (all_hosts before_eq s) s.selected_hosts)
    ∷ [])

unfoldable pub filter_box : App → Html
filter_box s = el "label" (class_name "filter-box" ∷ []) (
    icon "Search" 18
    ∷ el "input"
        (attr "value" s.filter_input
          ∷ on (calls_with_text edit_filter)
          ∷ attr "placeholder" "Text or /pppoe|lcp/"
          ∷ attr "aria-label" "Filter messages"
          ∷ attr "title" "Case-insensitive text search, or /regex/ such as /pppoe|lcp/"
          ∷ flag "spellCheck" false
          ∷ [])
        []
    ∷ [])

unfoldable pub live_switch : App → Html
live_switch s = el "label" (class_name "switch" ∷ []) (
    el "input"
      (attr "type" "checkbox"
        ∷ flag "checked" (s.auto_refresh && not (live_disabled s))
        ∷ flag "disabled" (live_disabled s)
        ∷ on (calls_with_checked live_set)
        ∷ [])
      []
    ∷ el "span" (class_name "switch-track" ∷ attr "aria-hidden" "true" ∷ []) (el "span" [] [] ∷ [])
    ∷ tag_text "span" "Live"
    ∷ [])

unfoldable pub commands : App → Html
commands s = nodes (
    command_button "command-button" s.sending_test (on (calls test_event_started))
      (icon_with "Send" 17 (spin s.sending_test)) "Send test event"
    ∷ command_button "command-button secondary-command" (eqb (length s.messages) 0)
        (on exports_messages) (icon "Download" 17) "Export NDJSON"
    ∷ command_button "command-button secondary-command" s.importing (on chooses_file)
        (icon_with "Upload" 17 (spin s.importing)) "Import NDJSON"
    ∷ el "input"
        (class_name "file-input"
          ∷ attr "type" "file"
          ∷ attr "accept" ".ndjson,application/x-ndjson,text/plain,application/json"
          ∷ on imports_file
          ∷ [])
        []
    ∷ [])

-- The page size of an option's value.
abbrev page_size_of : (String → ℕ) → String → PageSize
page_size_of number value = if value == "auto" then auto else rows (number value)

abbrev rows_option : ℕ → Html
rows_option n =
    el "option" (attr "value" (decimal n) ∷ []) (text (concat (decimal n ∷ " rows" ∷ [])) ∷ [])

unfoldable pub pager : (String → ℕ) → App → Html
pager number s = el "div" (class_name "pager" ∷ attr "aria-label" "Message pages" ∷ []) (
    icon_button (eqb s.page 0) (on (calls page_back)) "Previous page" (icon "ChevronLeft" 18)
    ∷ el "span" [] (text "Page " ∷ text (decimal (s.page + 1)) ∷ [])
    ∷ icon_button (not s.has_more) (on (calls page_forward)) "Next page" (icon "ChevronRight" 18)
    ∷ el "span" (class_name "pager-separator" ∷ attr "aria-hidden" "true" ∷ []) (text "|" ∷ [])
    ∷ el "select"
        (class_name "page-size-select"
          ∷ attr "value" (page_size_text s.page_size_setting)
          ∷ on (calls_with_text (λ value. page_size_selected (page_size_of number value)))
          ∷ attr "title" "Select page size"
          ∷ attr "aria-label" "Select page size"
          ∷ [])
        (each rows_option (25 ∷ 50 ∷ 100 ∷ 250 ∷ 500 ∷ [])
          ∷ el "option" (attr "value" "auto" ∷ []) (text "Auto (Fit)" ∷ [])
          ∷ [])
    ∷ [])

abbrev pub refresh_button : App → Html
refresh_button s =
    icon_button false (on (calls refresh_started)) "Refresh"
      (icon_with "RefreshCcw" 18 (spin s.loading))

abbrev pub live_button : App → Html
live_button s =
    icon_button (live_disabled s) (on (calls live_toggled)) (live_title s)
      (if s.auto_refresh && not (live_disabled s) then icon "Pause" 18 else icon "Play" 18)

unfoldable pub toolbar : Browser → App → Html
toolbar browser s =
    el "section" (class_name "toolbar" ∷ attr "aria-label" "Timeline controls" ∷ []) (
      host_filter browser.before_eq s
      ∷ filter_box s
      ∷ live_switch s
      ∷ commands s
      ∷ pager browser.number s
      ∷ refresh_button s
      ∷ live_button s
      ∷ [])
