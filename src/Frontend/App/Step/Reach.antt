-- ===== src/Frontend/App/Step/Reach.antt =====
-- What holds of the page of frontend/src/App.tsx after any actions.
use logthing.Prelude.{
  ◌⊎◌, ℕ, ◌≤◌, String, ◌≡◌, refl, Bool, false, Option, none, some, List, [], ◌∷◌, arith, if_both,
  eqb,
}
use logthing.Prelude.Int.{ℤ}
use logthing.Prelude.Sorting.Order.{IsOrder}
use logthing.Frontend.Types.{MessagesResponse, SyslogMessage, ImportMessagesResponse}
use logthing.Frontend.Api.{Result, ok, err, aborted, failed}
use logthing.Frontend.Hosts.Laws.{
  IsCanonical, sorted_unique_hosts-IsCanonical, toggle_selection-IsCanonical,
}
use logthing.Frontend.App.{
  App, PageSize, auto, rows, init, live_disabled, stop_live, fitted, fit_rows, start_refresh,
  finish_refresh, handle_message, toggle_host, handle_error, clear_hosts, apply_filter,
  previous_page, next_page, select_page_size, toggle_live, set_live, show_evidence, navigate,
  start_import, finish_import, start_test_event, finish_test_event, start_test_notification,
  finish_test_notification, refresh_incidents, IncidentPage,
}
use logthing.Frontend.App.Step.{
  Action, handle, step, run, host_toggled, hosts_cleared, page_forward, live_toggled, live_set,
  refresh_finished, message_received, incidents_refreshed, import_finished, test_event_finished,
  test_notification_finished,
}

-- Live updates are on only on the first page, and only while the event stream works.
abbrev IsLiveSound : App → Type 0
IsLiveSound s = (s.auto_refresh ≡ false) ⊎ ((s.page ≡ 0) × (s.live_unavailable ≡ false))

stop_live-IsLiveSound : (s : App) → IsLiveSound (stop_live s)
unfolding stop_live
stop_live-IsLiveSound s = ground arith

-- The limit is what the page-size setting says, and at least ten rows where it fits the window.
abbrev IsLimitOf : PageSize → ℕ → Type 0
IsLimitOf auto limit = 10 ≤ limit
IsLimitOf (rows n) limit = limit ≡ n

fitted-IsLimitOf : (size : PageSize) (fitting : ℕ) → IsLimitOf size (fitted size fitting)
fitted-IsLimitOf auto fitting = omega arith
fitted-IsLimitOf (rows n) fitting = refl

module _ (before_eq : String → String → Bool) (date_parse : String → Option ℤ) where
  -- Both host lists are as `sortedUniqueHosts` makes them.
  abbrev HasHosts : App → Type 0
  HasHosts s = IsCanonical before_eq s.known_hosts × IsCanonical before_eq s.selected_hosts

  pub record IsSound (s : App) : Type 0 where
    pub hosts : HasHosts s
    pub live : IsLiveSound s
    pub limit : IsLimitOf s.page_size_setting s.calculated_limit

  no_hosts : IsCanonical before_eq []
  no_hosts = record { nonblank = tt; trimmed = tt; distinct = tt; sorted = tt }

  module _ (o : IsOrder before_eq) where
    finish_refresh-HasHosts :
        (filter : String) (hosts : List String) (now : ℕ) (r : Result MessagesResponse) (s : App)
        → HasHosts s
        → HasHosts (finish_refresh before_eq date_parse filter hosts now r s)
    unfolding finish_refresh
    finish_refresh-HasHosts filter hosts now (ok response) s h =
        (sorted_unique_hosts-IsCanonical before_eq o _, h.1)
    finish_refresh-HasHosts filter hosts now (err aborted) s h = h
    finish_refresh-HasHosts filter hosts now (err (failed message)) s h = h

    handle_message-HasHosts :
        (now : ℕ) (m : Option SyslogMessage) (s : App)
        → HasHosts s
        → HasHosts (handle_message before_eq date_parse now m s)
    unfolding handle_message
    handle_message-HasHosts now none s h = h
    handle_message-HasHosts now (some m) s h =
        if_both HasHosts _ _ _ (λ _. (sorted_unique_hosts-IsCanonical before_eq o _, h.1))
          (λ _. (sorted_unique_hosts-IsCanonical before_eq o _, h.1))

    finish_import-HasHosts :
        (chosen_on : ℕ) (r : Result ImportMessagesResponse) (s : App)
        → HasHosts s
        → HasHosts (finish_import chosen_on r s)
    unfolding finish_import
    finish_import-HasHosts chosen_on (ok response) s h =
        if_both HasHosts (eqb chosen_on 0) _ _ (λ _. h) (λ _. h)
    finish_import-HasHosts chosen_on (err failure) s h = h

    finish-HasHosts :
        (r : Result (Unit {0})) (s : App)
        → HasHosts s
        → HasHosts (finish_test_event r s) × HasHosts (finish_test_notification r s)
    unfolding finish_test_event finish_test_notification
    finish-HasHosts (ok _) s h = (h, h)
    finish-HasHosts (err failure) s h = (h, h)

    refresh_incidents-HasHosts :
        (r : Result IncidentPage) (s : App) → HasHosts s → HasHosts (refresh_incidents r s)
    unfolding refresh_incidents
    refresh_incidents-HasHosts (ok p) s h = h
    refresh_incidents-HasHosts (err aborted) s h = h
    refresh_incidents-HasHosts (err (failed message)) s h = h

    handle-HasHosts :
        (a : Action) (s : App) → HasHosts s → HasHosts (handle before_eq date_parse a s)
    unfolding handle apply_filter toggle_host clear_hosts previous_page next_page toggle_live
        set_live select_page_size show_evidence navigate start_refresh handle_error start_import
        start_test_event start_test_notification
    handle-HasHosts (host_toggled host) s h =
        (h.0, toggle_selection-IsCanonical before_eq o host s.selected_hosts h.1)
    handle-HasHosts hosts_cleared s h = (h.0, no_hosts)
    handle-HasHosts page_forward s h = if_both HasHosts s.has_more _ _ (λ _. h) (λ _. h)
    handle-HasHosts live_toggled s h = if_both HasHosts (live_disabled s) _ _ (λ _. h) (λ _. h)
    handle-HasHosts (live_set checked) s h =
        if_both HasHosts (live_disabled s) _ _ (λ _. h) (λ _. h)
    handle-HasHosts (refresh_finished filter hosts now r) s h =
        finish_refresh-HasHosts filter hosts now r s h
    handle-HasHosts (message_received now m) s h = handle_message-HasHosts now m s h
    handle-HasHosts (incidents_refreshed r) s h = refresh_incidents-HasHosts r s h
    handle-HasHosts (import_finished chosen_on r) s h = finish_import-HasHosts chosen_on r s h
    handle-HasHosts (test_event_finished r) s h = (finish-HasHosts r s h).0
    handle-HasHosts (test_notification_finished r) s h = (finish-HasHosts r s h).1
    handle-HasHosts _ s h = h

    stop_live-keeps :
        (s : App)
        → HasHosts s
        → IsLimitOf s.page_size_setting s.calculated_limit
        → HasHosts (stop_live s)
          × IsLimitOf (stop_live s).page_size_setting (stop_live s).calculated_limit
    unfolding stop_live
    stop_live-keeps s h l =
        if_both (λ t. HasHosts t × IsLimitOf t.page_size_setting t.calculated_limit) _ _ _
          (λ _. (h, l)) (λ _. (h, l))

    effects-IsSound :
        (fitting : ℕ) (t : App) → HasHosts t → IsSound (stop_live (fit_rows fitting t))
    effects-IsSound fitting t h =
        let (hosts, limit) =
          stop_live-keeps (fit_rows fitting t) (unfold fit_rows in h)
            (unfold fit_rows in fitted-IsLimitOf t.page_size_setting fitting) in
        record { hosts = hosts; live = stop_live-IsLiveSound (fit_rows fitting t); limit = limit }

    step-IsSound : (s : App) (a : ℕ × Action) → HasHosts s → IsSound (step before_eq date_parse s a)
    unfolding step
    step-IsSound s (fitting, a) h =
        effects-IsSound fitting (handle before_eq date_parse a s) (handle-HasHosts a s h)

    run_from-IsSound :
        (s : App) (actions : List (ℕ × Action))
        → IsSound s
        → IsSound (run before_eq date_parse s actions)
    unfolding run
    run_from-IsSound s [] h = h
    run_from-IsSound s (a ∷ actions) h =
        run_from-IsSound (step before_eq date_parse s a) actions (step-IsSound s a h.hosts)

    -- After the effects of the first render and then any actions, both host lists are canonical,
    -- live updates are on only on the first page and while the stream works, and the limit is the
    -- one of the page-size setting.
    pub run-IsSound :
        (path : String) (saved : PageSize) (fitting : ℕ) (actions : List (ℕ × Action))
        → IsSound
            (run before_eq date_parse (stop_live (fit_rows fitting (init path saved))) actions)
    run-IsSound path saved fitting actions =
        run_from-IsSound (stop_live (fit_rows fitting (init path saved))) actions
          (effects-IsSound fitting (init path saved) (no_hosts, no_hosts))
