-- ===== src/Tests/Page.antt =====
-- frontend/src at concrete inputs.
use logthing.Prelude.{
  ℕ, ◌<◌, String, ◌≡◌, refl, ◌≢◌, ◌↔◌, Bool, true, false, not, ◌&&◌, ◌||◌, Option, none, some, List,
  [], ◌∷◌, ◌==◌, eq_iff, length, any, All, inl, if◌then◌else◌,
}
use logthing.Prelude.Int.{ℤ, pos}
use logthing.Prelude.Text.{decimal, js_space, trim, trim_left, trim_right}
use logthing.Prelude.Sorting.{sort}
use logthing.Prelude.Sorting.Order.{IsOrder}
use logthing.Frontend.Types.{
  SyslogMessage, MessagesResponse, Incident, IncidentState, NotificationDelivery, incident_opened,
}
use logthing.Frontend.Api.{ListMessagesParams, ok, trim_js, messages_query, get_all}
use logthing.Frontend.Api.Laws.{sent_hosts, query_values, messages_query_lem}
use logthing.Frontend.Hosts.{includes, sorted_unique_hosts, toggle_selection}
use logthing.Frontend.Hosts.Laws.{
  IsCanonical, includes-sorted_unique_hosts, sorted_unique_hosts-IsCanonical,
  includes-toggle_selection, toggle_selection_twice,
}
use logthing.Frontend.Live.{next_messages, merge_message, compare_messages_latest_first}
use logthing.Frontend.Live.Laws.{has_id, has_id-next_messages}
use logthing.Frontend.Labels.{delivery_label}
use logthing.Frontend.Labels.Laws.{is_sent, delivery_label-delivered_iff}
use logthing.Frontend.App.{
  App, auto, init, wants_stream, stop_live, fit_rows, finish_refresh, toggle_host, handle_message,
}
use logthing.Frontend.App.Step.{
  Action, refresh_finished, host_toggled, message_received, handle, step, run,
}
use logthing.Frontend.App.Step.Reach.{IsSound, run-IsSound}
use logthing.Frontend.App.Step.Stream.{is_answer, run-wants_stream}

-- A collation in which all texts are equal.
abbrev pub any_order : String → String → Bool
any_order _ _ = true

any_order-IsOrder : IsOrder any_order
any_order-IsOrder = record { total = λ _ _. inl refl; trans = λ _ _ _ _ _. refl }

abbrev pub date_parse : String → Option ℤ
date_parse text = if text == "2026-01-02" then some (pos 86400000) else some (pos 0)

abbrev pub message : String → String → SyslogMessage
message id at = record {
  id = id;
  received_at = at;
  timestamp = none;
  transport = none;
  source = none;
  priority = none;
  facility = none;
  severity = none;
  hostname = some "router";
  app_name = none;
  proc_id = none;
  msg_id = none;
  tag = none;
  message = none;
  structured_data = none;
  raw = none;
}

abbrev params : ListMessagesParams
params = record { query = " wan "; hosts = "nas" ∷ " " ∷ "router" ∷ []; limit = 50; offset = 100 }

messages_query_lem_example :
    (get_all "limit" (messages_query params) ≡ decimal 50 ∷ [])
    × (get_all "offset" (messages_query params) ≡ decimal 100 ∷ [])
    × (get_all "host" (messages_query params) ≡ sent_hosts params.hosts)
    × (get_all "q" (messages_query params) ≡ query_values " wan ")
messages_query_lem_example = messages_query_lem params

abbrev hosts : List String
hosts = "router" ∷ " nas " ∷ "" ∷ "router" ∷ []

includes-sorted_unique_hosts_example :
    includes (sorted_unique_hosts any_order hosts) "nas"
    ≡ (not ("nas" == "") && any (λ raw. trim_js raw == "nas") hosts)
includes-sorted_unique_hosts_example = includes-sorted_unique_hosts any_order "nas" hosts

sorted_unique_hosts-IsCanonical_example :
    IsCanonical any_order (sorted_unique_hosts any_order hosts)
sorted_unique_hosts-IsCanonical_example =
    sorted_unique_hosts-IsCanonical any_order any_order-IsOrder hosts

abbrev selection : List String
selection = sorted_unique_hosts any_order hosts

nas_trimmed : trim_js "nas" ≡ "nas"
unfolding js_space trim trim_left trim_right
nas_trimmed = refl

abbrev nas : String
nas = "nas"

nas_nonblank : nas ≢ ""
nas_nonblank e = let k : (nas == "") ≡ true = (eq_iff nas "").1 e in cc

toggle_selection_twice_example :
    includes
      (toggle_selection any_order "nas" (toggle_selection any_order "nas" selection))
      "router"
    ≡ includes selection "router"
toggle_selection_twice_example =
    toggle_selection_twice any_order any_order-IsOrder "nas" "router" selection
      (sorted_unique_hosts-IsCanonical any_order any_order-IsOrder hosts) nas_trimmed nas_nonblank

includes-toggle_selection_example :
    includes (toggle_selection any_order "nas" selection) "router"
    ≡ (if "router" == "nas" then not (includes selection "nas") else includes selection "router")
includes-toggle_selection_example =
    includes-toggle_selection any_order "nas" "router" selection
      (sorted_unique_hosts-IsCanonical any_order any_order-IsOrder hosts) nas_trimmed nas_nonblank

abbrev shown : List SyslogMessage
shown = message "b" "2026-01-01" ∷ []

abbrev newer : SyslogMessage
newer = message "a" "2026-01-02"

fits : (next_messages date_parse 2 newer shown).1 ≡ false
unfolding next_messages merge_message sort compare_messages_latest_first
fits = refl

has_id-next_messages_example :
    has_id "b" (next_messages date_parse 2 newer shown).0 ≡ (newer.id == "b" || has_id "b" shown)
has_id-next_messages_example = has_id-next_messages date_parse 2 newer shown fits "b"

abbrev outage : IncidentState → Incident
outage state = record {
  id = "i";
  rule_version = 3;
  hostname = "router";
  interface = "wan";
  state = state;
  started_at = "2026-01-01";
  activated_at = none;
  recovery_first_at = none;
  resolved_at = none;
  last_evidence_at = "2026-01-01";
  evidence_ids = [];
  evidence_refs = none;
  down_after = 60;
  recovered_after = 30;
  deliveries = [];
}

abbrev pub outages : List Incident
outages =
    outage IncidentState.active
    ∷ outage IncidentState.resolved
    ∷ outage IncidentState.pending_failure
    ∷ []

abbrev delivery : NotificationDelivery
delivery = record {
  id = "d";
  kind = incident_opened;
  attempts = 1;
  last_error = none;
  sent_at = some "2026-01-01";
  adapter = none;
  permanent = none;
}

delivery_label-delivered_iff_example :
    (delivery_label (delivery ∷ []) ≡ "Delivered")
    ↔ ((0 < length (delivery ∷ [])) × All (λ d. is_sent d ≡ true) (delivery ∷ []))
delivery_label-delivered_iff_example = delivery_label-delivered_iff (delivery ∷ [])

abbrev answer : MessagesResponse
answer = record {
  items = shown;
  meta = record { count = 1; limit = 100; offset = 0; has_more = false };
}

abbrev actions : List (ℕ × Action)
actions =
    (20, refresh_finished "" [] 7 (ok answer))
    ∷ (20, message_received 8 (some newer))
    ∷ (20, host_toggled "nas")
    ∷ []

abbrev start : App
start = stop_live (fit_rows 20 (init "/" auto))

run-IsSound_example : IsSound any_order date_parse (run any_order date_parse start actions)
run-IsSound_example = run-IsSound any_order date_parse any_order-IsOrder "/" auto 20 actions

abbrev last : App
last = run any_order date_parse (init "/" auto) actions

wants : wants_stream last ≡ true
unfolding run step handle finish_refresh stop_live fit_rows toggle_host handle_message
wants = refl

run-wants_stream_example : any (is_answer last.filter) actions ≡ true
run-wants_stream_example = run-wants_stream any_order date_parse (init "/" auto) actions refl wants
