-- ===== src/Frontend/App/Step.antt =====
-- The page of frontend/src/App.tsx over time: an action of the user, the network or the clock, and
-- then the effects. What a request was sent for comes with its answer: the filter and hosts of a refresh,
-- the page of an import.
pub mod Reach
pub mod Stream
use logthing.Prelude.{ℕ, String, Bool, not, Option, List, [], ◌∷◌}
use logthing.Prelude.Int.{ℤ}
use logthing.Frontend.Types.{SyslogMessage, MessagesResponse, ImportMessagesResponse}
use logthing.Frontend.Api.{Result}
use logthing.Frontend.App.{
  App, PageSize, IncidentPage, stop_live, fit_rows, start_refresh, finish_refresh, handle_message,
  toggle_host, handle_error, clear_hosts, apply_filter, previous_page, next_page, select_page_size,
  toggle_live, set_live, show_evidence, navigate, start_import, finish_import, start_test_event,
  finish_test_event, start_test_notification, finish_test_notification, refresh_incidents,
}

pub data Action : Type 0 where
  edit_filter : String → Action
  filter_settled : Action
  host_toggled : String → Action
  hosts_cleared host_menu_toggled page_back page_forward live_toggled : Action
  live_set : Bool → Action
  page_size_selected : PageSize → Action
  evidence_shown navigated : String → Action
  refresh_started : Action
  refresh_finished :
      (filter : String) (hosts : List String) (now : ℕ) → Result MessagesResponse → Action
  message_received : (now : ℕ) → Option SyslogMessage → Action
  stream_failed : Action
  incidents_refreshed : Result IncidentPage → Action
  import_started : Action
  import_finished : (chosen_on : ℕ) → Result ImportMessagesResponse → Action
  test_event_started : Action
  test_event_finished : Result (Unit {0}) → Action
  test_notification_started : Action
  test_notification_finished : Result (Unit {0}) → Action
  build_fetched : String → Action

module _ (before_eq : String → String → Bool) (date_parse : String → Option ℤ) where
  unfoldable pub handle : Action → App → App
  handle (edit_filter text) s = record s { filter_input = text }
  handle filter_settled s = apply_filter s
  handle (host_toggled host) s = toggle_host before_eq date_parse host s
  handle hosts_cleared s = clear_hosts s
  handle host_menu_toggled s = record s { host_menu_open = not s.host_menu_open }
  handle page_back s = previous_page s
  handle page_forward s = next_page s
  handle live_toggled s = toggle_live s
  handle (live_set checked) s = set_live checked s
  handle (page_size_selected size) s = select_page_size size s
  handle (evidence_shown id) s = show_evidence id s
  handle (navigated path) s = navigate path s
  handle refresh_started s = start_refresh s
  handle (refresh_finished filter hosts now result) s =
      finish_refresh before_eq date_parse filter hosts now result s
  handle (message_received now message) s = handle_message before_eq date_parse now message s
  handle stream_failed s = handle_error s
  handle (incidents_refreshed result) s = refresh_incidents result s
  handle import_started s = start_import s
  handle (import_finished chosen_on result) s = finish_import chosen_on result s
  handle test_event_started s = start_test_event s
  handle (test_event_finished result) s = finish_test_event result s
  handle test_notification_started s = start_test_notification s
  handle (test_notification_finished result) s = finish_test_notification result s
  handle (build_fetched id) s = record s { build_id = id }

  -- One action and the effects that follow it; `fitting` is how many rows the window has room for.
  unfoldable pub step : App → ℕ × Action → App
  unfolding handle
  step s (fitting, action) = stop_live (fit_rows fitting (handle action s))

  unfoldable pub run : App → List (ℕ × Action) → App
  run s [] = s
  run s (a ∷ actions) = run (step s a) actions
