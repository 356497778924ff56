-- ===== src/Frontend/Labels.antt =====
-- The texts of frontend/src/App.tsx: `stateLabel`, `durationBetween`, `deliveryLabel`, `liveTitle`,
-- `numberText`, and the groups of incidents that the page shows.
pub mod Laws
use logthing.Prelude.{
  ℕ, ◌/◌, ◌%◌, ◌<◌, String, Bool, true, false, not, ◌&&◌, ◌||◌, Option, none, some, List, [], ◌∷◌,
  ◌++◌, ◌==◌, any, keep, length, ltb, eqb, if◌then◌else◌,
}
use logthing.Prelude.Int.{ℤ, pos, negsuc, ◌-ℤ◌}
use logthing.Prelude.Text.{concat, decimal, is_some}
use logthing.Frontend.Types.{
  IncidentState, pending_failure, active, pending_recovery, resolved, Incident,
  NotificationDelivery,
}

abbrev pub state_label : IncidentState → String
state_label pending_failure = "Confirming failure"
state_label pending_recovery = "Confirming recovery"
state_label active = "Outage active"
state_label resolved = "Resolved"

-- Hours, and minutes under an hour.
pub record Duration : Type 0 where
  pub hours : ℕ
  pub minutes : ℕ

pub duration_of : ℕ → Duration
duration_of milliseconds =
    let minutes = milliseconds / 60000 in record { hours = minutes / 60; minutes = minutes % 60 }

-- With no hours only the minutes are shown; they are the whole then.
duration_text : Duration → String
duration_text d =
    if ltb 0 d.hours
    then concat (decimal d.hours ∷ "h " ∷ decimal d.minutes ∷ "m" ∷ [])
    else concat (decimal d.minutes ∷ "m" ∷ [])

abbrev elapsed : Option ℤ → Option ℤ → Option ℤ
elapsed none start = none
elapsed (some end) none = none
elapsed (some end) (some start) = some (end -ℤ start)

abbrev finite_duration : Option ℤ → Option Duration
finite_duration none = none
finite_duration (some (pos milliseconds)) = some (duration_of milliseconds)
finite_duration (some (negsuc _)) = none

abbrev text_or_blank : Option Duration → String
text_or_blank none = ""
text_or_blank (some d) = duration_text d

-- A truthy text: it is there and not empty.
abbrev pub truthy : Option String → Bool
truthy none = false
truthy (some s) = not (s == "")

abbrev or_blank : Option String → String
or_blank none = ""
or_blank (some s) = s

-- `Date.parse`, and the result of `Date.now()`.
module _ (date_parse : String → Option ℤ) (now : ℤ) where
  abbrev end_time : Option String → Option ℤ
  end_time end = if truthy end then date_parse (or_blank end) else some now

  measured : String → Option String → Option Duration
  unfolding ◌-ℤ◌ duration_of
  measured start end = finite_duration (elapsed (end_time end) (date_parse start))

  abbrev pub duration_between : String → Option String → String
  unfolding measured duration_text
  duration_between start end = text_or_blank (measured start end)

pub delivery_label : List NotificationDelivery → String
delivery_label deliveries =
    if any (λ (d : NotificationDelivery). truthy d.last_error && not (truthy d.sent_at)) deliveries
    then "Delivery failed"
    else if any (λ (d : NotificationDelivery). not (truthy d.sent_at)) deliveries
    then "Delivery pending"
    else if ltb 0 (length deliveries)
    then "Delivered"
    else "No notification"

abbrev pub is_pending : IncidentState → Bool
is_pending pending_failure = true
is_pending _ = false

abbrev pub is_active : IncidentState → Bool
is_active active = true
is_active pending_recovery = true
is_active _ = false

abbrev pub is_resolved : IncidentState → Bool
is_resolved resolved = true
is_resolved _ = false

unfoldable pub current_incidents : List Incident → List Incident
current_incidents incidents =
    keep (λ i. is_active i.state) incidents ++ keep (λ i. is_pending i.state) incidents

pub resolved_incidents : List Incident → List Incident
resolved_incidents incidents = keep (λ i. is_resolved i.state) incidents
