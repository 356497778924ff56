-- ===== src/Frontend/App.antt =====
-- The state of the component `App` of frontend/src/App.tsx, and what its handlers and effects do.
-- `messagesRef` always holds what `messages` holds, so one field stands for both.
pub mod Step
use logthing.Prelude.{
  ℕ, zero, suc, ◌+◌, ◌*◌, ◌-◌, max, String, Bool, true, false, not, ◌&&◌, ◌||◌, Option, none, some,
  List, [], ◌∷◌, ◌++◌, ◌==◌, map, length, ltb, leb, eqb, if◌then◌else◌,
}
use logthing.Prelude.Int.{ℤ}
use logthing.Prelude.Text.{concat, decimal}
use logthing.Frontend.Types.{
  SyslogMessage, MessagesResponse, ImportMessagesResponse, Incident, IncidentsResponse,
  IncidentHealth,
}
use logthing.Frontend.Api.{ListMessagesParams, Failure, aborted, failed, Result, ok, err}
use logthing.Frontend.Hosts.{includes, sorted_unique_hosts, toggle_selection}
use logthing.Frontend.Live.{next_messages}

pub data PageSize : Type 0 where
  auto : PageSize
  rows : ℕ → PageSize

-- The page size of the first render, from what was saved: `parse_int` is `parseInt`, none for NaN.
-- What the page saves is no negative number.
abbrev saved_page_size : (String → Option ℕ) → Option String → PageSize
saved_page_size parse_int none = rows 100
saved_page_size parse_int (some saved) =
    if saved == "auto"
    then auto
    else if saved == ""
    then rows 100
    else elim (parse_int saved) [ none ↦ rows 100 | some n ↦ rows n ]

-- `String(pageSizeSetting)`, which is saved.
abbrev pub page_size_text : PageSize → String
page_size_text auto = "auto"
page_size_text (rows n) = decimal n

pub data Notice : Type 0 where
  success error : String → Notice

pub record App : Type 0 where
  pub messages : List SyslogMessage
  pub filter_input : String
  pub filter : String
  pub validated_filter : Option String
  pub selected_hosts : List String
  pub known_hosts : List String
  pub host_menu_open : Bool
  pub page : ℕ
  pub has_more : Bool
  pub auto_refresh : Bool
  pub live_unavailable : Bool
  pub loading : Bool
  pub importing : Bool
  pub sending_test : Bool
  pub error : Option String
  pub notice : Option String
  pub last_updated : Option ℕ
  pub build_id : String
  pub incidents : List Incident
  pub incident_health : Option IncidentHealth
  pub incident_load_error : Option String
  pub sending_notification : Bool
  pub notification_result : Option Notice
  pub route : String
  pub page_size_setting : PageSize
  pub calculated_limit : ℕ

-- The state of the first render.
abbrev pub init : String → PageSize → App
init path saved = record {
  messages = [];
  filter_input = "";
  filter = "";
  validated_filter = none;
  selected_hosts = [];
  known_hosts = [];
  host_menu_open = false;
  page = 0;
  has_more = false;
  auto_refresh = true;
  live_unavailable = false;
  loading = false;
  importing = false;
  sending_test = false;
  error = none;
  notice = none;
  last_updated = none;
  build_id = "";
  incidents = [];
  incident_health = none;
  incident_load_error = none;
  sending_notification = false;
  notification_result = none;
  route = path;
  page_size_setting = saved;
  calculated_limit = 100;
}

abbrev pub offset : App → ℕ
offset s = s.page * s.calculated_limit

abbrev pub live_disabled : App → Bool
live_disabled s = not (eqb s.page 0) || s.live_unavailable

abbrev pub live_title : App → String
live_title s =
    if s.live_unavailable
    then "Live updates unavailable"
    else if not (eqb s.page 0)
    then "Live updates are only available on page 1"
    else if s.auto_refresh
    then "Pause live updates"
    else "Resume live updates"

-- The parameters of the request that `refresh` sends.
abbrev refresh_params : App → ListMessagesParams
refresh_params s = record {
  query = s.filter;
  hosts = s.selected_hosts;
  limit = s.calculated_limit;
  offset = offset s;
}

abbrev same_filter : Option String → String → Bool
same_filter none filter = false
same_filter (some validated) filter = validated == filter

-- The test of the effect that opens the event stream.
abbrev pub wants_stream : App → Bool
wants_stream s =
    s.auto_refresh
    && eqb s.page 0
    && not s.live_unavailable
    && same_filter s.validated_filter s.filter

-- The effect on `autoRefresh` and `liveDisabled`.
unfoldable pub stop_live : App → App
stop_live s = if live_disabled s && s.auto_refresh then record s { auto_refresh = false } else s

-- The rows of a page: `fitting` is how many rows the window has room for.
abbrev pub fitted : PageSize → ℕ → ℕ
fitted auto fitting = max 10 fitting
fitted (rows n) fitting = n

-- The effect on the page size.
unfoldable pub fit_rows : ℕ → App → App
fit_rows fitting s = record s { calculated_limit = fitted s.page_size_setting fitting }

abbrev hostname_of : SyslogMessage → String
hostname_of message = elim message.hostname [ none ↦ "" | some host ↦ host ]

pub start_refresh : App → App
start_refresh s = record s { loading = true; error = none }

-- `localeCompare` as in the module `Hosts`, and `Date.parse`.
module _ (before_eq : String → String → Bool) (date_parse : String → Option ℤ) where
  -- The rest of `refresh`, when the answer for `filter` and `hosts` is there at the time `now`.
  unfoldable pub finish_refresh : String → List String → ℕ → Result MessagesResponse → App → App
  finish_refresh filter hosts now (ok response) s = record s {
    validated_filter = some filter;
    messages = response.items;
    has_more = response.meta.has_more;
    known_hosts =
        sorted_unique_hosts before_eq (s.known_hosts ++ (hosts ++ map hostname_of response.items));
    last_updated = some now;
    loading = false;
  }
  finish_refresh filter hosts now (err aborted) s = record s { loading = false }
  finish_refresh filter hosts now (err (failed message)) s = record s {
    error = some message;
    loading = false;
  }

  -- `handleMessage`: a live event, whose text is a message or does not decode.
  unfoldable pub handle_message : ℕ → Option SyslogMessage → App → App
  handle_message now none s = record s { error = some "Received an invalid live message event" }
  handle_message now (some message) s =
      let known = record s {
        known_hosts = sorted_unique_hosts before_eq (s.known_hosts ++ hostname_of message ∷ []);
        last_updated = some now;
      } in
      if ltb 0 (length s.selected_hosts) && not (includes s.selected_hosts (hostname_of message))
      then known
      else (let (next, more) = next_messages date_parse s.calculated_limit message s.messages in
          record known { messages = next; has_more = s.has_more || more })

  unfoldable pub toggle_host : String → App → App
  toggle_host host s = record s {
    page = 0;
    selected_hosts = toggle_selection before_eq host s.selected_hosts;
  }

-- `handleError` of the event stream.
pub handle_error : App → App
handle_error s = record s {
  auto_refresh = false;
  live_unavailable = true;
  error =
      some
        "Live updates disabled because the SSE connection failed. Use Refresh for manual updates.";
}

pub clear_hosts : App → App
clear_hosts s = record s { page = 0; selected_hosts = [] }

-- The effect on `filterInput`, 250 ms after the last key.
pub apply_filter : App → App
apply_filter s = record s { filter = s.filter_input; page = 0 }

pub previous_page : App → App
previous_page s = record s { page = s.page - 1 }

-- The button is disabled without `hasMore`.
pub next_page : App → App
next_page s = if s.has_more then record s { page = s.page + 1 } else s

pub select_page_size : PageSize → App → App
select_page_size size s = record s { page_size_setting = size; page = 0 }

pub toggle_live : App → App
toggle_live s = if live_disabled s then s else record s { auto_refresh = not s.auto_refresh }

-- The switch beside the filter.
pub set_live : Bool → App → App
set_live checked s = if live_disabled s then s else record s { auto_refresh = checked }

-- The button that shows an incident's evidence.
pub show_evidence : String → App → App
show_evidence id s = record s { filter_input = id; page = 0; route = "/" }

pub navigate : String → App → App
navigate path s = record s { route = path }

pub start_import : App → App
start_import s = record s { importing = true; error = none; notice = none }

abbrev imported_text : ImportMessagesResponse → String
imported_text r = concat (
    "Imported "
    ∷ decimal r.imported
    ∷ " messages, skipped "
    ∷ decimal r.skipped
    ∷ " blank lines"
    ∷ [])

-- The message of what was thrown, or the text for what is no error.
abbrev failure_text : String → Failure → String
failure_text otherwise aborted = otherwise
failure_text otherwise (failed message) = message

-- The rest of `handleImportFile`, on the page that was shown when the file was chosen. If it was page
-- 0 the list is refreshed, otherwise the page is reset, which refreshes it too.
pub finish_import : ℕ → Result ImportMessagesResponse → App → App
unfolding start_refresh
finish_import chosen_on (ok response) s =
    let done = record s { notice = some (imported_text response); importing = false } in
    if eqb chosen_on 0 then start_refresh done else record done { page = 0 }
finish_import chosen_on (err failure) s = record s {
  error = some (failure_text "Request failed" failure);
  importing = false;
}

pub start_test_event : App → App
start_test_event s = record s { sending_test = true; error = none; notice = none }

pub finish_test_event : Result (Unit {0}) → App → App
finish_test_event (ok _) s = record s { sending_test = false }
finish_test_event (err failure) s = record s {
  error = some (failure_text "Request failed" failure);
  sending_test = false;
}

pub start_test_notification : App → App
start_test_notification s = record s { sending_notification = true; notification_result = none }

pub finish_test_notification : Result (Unit {0}) → App → App
finish_test_notification (ok _) s = record s {
  notification_result = some (success "Test notification sent.");
  sending_notification = false;
}
finish_test_notification (err failure) s = record s {
  notification_result = some (error (failure_text "Test notification failed" failure));
  sending_notification = false;
}

-- The four answers that `refreshIncidents` waits for.
pub record IncidentPage : Type 0 where
  pub pending : IncidentsResponse
  pub active : IncidentsResponse
  pub resolved : IncidentsResponse
  pub health : IncidentHealth

pub refresh_incidents : Result IncidentPage → App → App
refresh_incidents (ok p) s = record s {
  incidents = p.pending.items ++ (p.active.items ++ p.resolved.items);
  incident_health = some p.health;
  incident_load_error = none;
}
refresh_incidents (err aborted) s = s
refresh_incidents (err (failed message)) s = record s { incident_load_error = some message }
