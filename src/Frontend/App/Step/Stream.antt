-- ===== src/Frontend/App/Step/Stream.antt =====
-- When the page of frontend/src/App.tsx opens the event stream: the server has accepted the filter.
use logthing.Prelude.{
  ℕ, String, ◌≡◌, sym, ◌∙◌, ◌⊎◌, inl, inr, Bool, true, false, Option, none, some, List, [], ◌∷◌,
  ◌==◌, eq_iff, any, arith, Option-cases,
}
use logthing.Prelude.Int.{ℤ}
use logthing.Frontend.Api.{ok}
use logthing.Frontend.App.{
  App, wants_stream, stop_live, fit_rows, start_refresh, finish_refresh, handle_message,
  toggle_host, handle_error, clear_hosts, apply_filter, previous_page, next_page, select_page_size,
  toggle_live, set_live, show_evidence, navigate, start_import, finish_import, start_test_event,
  finish_test_event, start_test_notification, finish_test_notification, refresh_incidents,
}
use logthing.Frontend.App.Step.{Action, refresh_finished, handle, step, run}

-- The action is the answer of the server to a refresh with this filter.
abbrev pub is_answer : String → ℕ × Action → Bool
is_answer filter (_, refresh_finished f _ _ (ok _)) = f == filter
is_answer filter _ = false

module _ (before_eq : String → String → Bool) (date_parse : String → Option ℤ) where
  handle-validated :
      (a : Action) (fitting : ℕ) (s : App) (f : String)
      → (handle before_eq date_parse a s).validated_filter ≡ some f
      → (s.validated_filter ≡ some f) ⊎ (is_answer f (fitting, a) ≡ true)
  unfolding handle apply_filter toggle_host clear_hosts previous_page next_page toggle_live set_live
      select_page_size show_evidence navigate start_refresh handle_error start_import
      start_test_event start_test_notification finish_refresh handle_message finish_import
      finish_test_event finish_test_notification refresh_incidents
  handle-validated (refresh_finished g hosts now (ok r)) fitting s f h = ground (arith, eq_iff g f)
  handle-validated a fitting s f h = ground arith

  effects-validated :
      (fitting : ℕ) (t : App)
      → (stop_live (fit_rows fitting t)).validated_filter ≡ t.validated_filter
  unfolding stop_live fit_rows
  effects-validated fitting t = ground arith

  step-validated :
      (a : ℕ × Action) (s : App) (f : String)
      → (step before_eq date_parse s a).validated_filter ≡ some f
      → (s.validated_filter ≡ some f) ⊎ (is_answer f a ≡ true)
  unfolding step
  step-validated (fitting, a) s f h =
      handle-validated a fitting s f
        (sym (effects-validated fitting (handle before_eq date_parse a s)) ∙ h)

  run-validated :
      (actions : List (ℕ × Action)) (s : App) (f : String)
      → (run before_eq date_parse s actions).validated_filter ≡ some f
      → (s.validated_filter ≡ some f) ⊎ (any (is_answer f) actions ≡ true)
  unfolding run
  run-validated [] s f h = inl h
  run-validated (a ∷ actions) s f h =
      elim (run-validated actions (step before_eq date_parse s a) f h) [
        | inr later ↦ inr (ground arith)
        | inl now ↦ elim (step-validated a s f now) [
          | inl before ↦ inl before
          | inr answer ↦ inr (rw answer)
        ]
      ]

  wants_stream-validated : (s : App) → wants_stream s ≡ true → s.validated_filter ≡ some s.filter
  wants_stream-validated s h = elim (Option-cases s.validated_filter) [
    | inl e ↦ ground arith
    | inr (v, e) ↦ ground (arith, eq_iff v s.filter)
  ]

  -- If the page wants the event stream after some actions, and did not have its filter validated
  -- before them, then one of them was the server's answer to a refresh with this filter.
  pub run-wants_stream :
      (s : App) (actions : List (ℕ × Action))
      → s.validated_filter ≡ none
      → wants_stream (run before_eq date_parse s actions) ≡ true
      → any (is_answer (run before_eq date_parse s actions).filter) actions ≡ true
  run-wants_stream s actions n h =
      let t = run before_eq date_parse s actions in
      elim (run-validated actions s t.filter (wants_stream-validated t h)) [
        | inl before ↦ cc
        | inr answer ↦ answer
      ]
