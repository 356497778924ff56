-- ===== src/Tests/View.antt =====
-- What the page of frontend/src/App.tsx returns, at concrete inputs.
use logthing.Prelude.{◌≡◌, ◌↔◌, true, false, none, some, [], ◌∷◌, All}
use logthing.Prelude.Int.{pos}
use logthing.Frontend.App.{App, auto, init}
use logthing.Frontend.Html.{enabled}
use logthing.Frontend.Labels.{truthy, is_resolved, current_incidents}
use logthing.Frontend.Types.{Incident}
use logthing.Frontend.View.Texts.{Browser}
use logthing.Frontend.View.Messages.{app_view, summary_title}
use logthing.Frontend.View.Allowed.{IsAllowed, app_view-IsAllowed}
use logthing.Frontend.View.Shown.{summary_title-healthy_iff}
use logthing.Tests.Page.{any_order, date_parse, message, outages}

abbrev browser : Browser
browser = record {
  date_parse = date_parse;
  now = pos 0;
  to_locale_string = λ value. some value;
  to_locale_time_string = λ t. "noon";
  stringify = λ fields. "{}";
  stringify_message = λ m. "{}";
  number = λ value. 100;
  before_eq = any_order;
}

-- The second page, with a test event under way.
abbrev shown : App
shown = record (init "/" auto) {
  page = 1;
  messages = message "a" "2026-01-01" ∷ [];
  host_menu_open = true;
  known_hosts = "router" ∷ [];
  sending_test = true;
  incidents = outages;
}

app_view-IsAllowed_example : All (IsAllowed shown) (enabled (app_view browser shown))
app_view-IsAllowed_example = app_view-IsAllowed shown browser

summary_title-healthy_iff_example :
    (summary_title none (current_incidents outages)
      ≡ "Primary WAN and monitored backups are healthy")
    ↔ ((truthy none ≡ false) × All (λ (i : Incident). is_resolved i.state ≡ true) outages)
summary_title-healthy_iff_example = summary_title-healthy_iff none outages
