-- ===== src/Api/Incidents.antt =====
-- `handleIncidents` of internal/api/router.go, and `parsePagination`.

pub mod Listed
use logthing.Prelude.{
  ℕ, ◌+◌, ◌-◌, String, Bool, true, false, not, ◌&&◌, ◌||◌, Option, none, some, List, [], ◌∷◌, ◌==◌,
  keep, map, min, take, drop, length, ltb, if◌then◌else◌,
}
use logthing.Prelude.Int.{ℤ, pos, negsuc}
use logthing.Prelude.Text.Decimal.{atoi}
use logthing.Frontend.Api.{Params}
use logthing.Incidents.Types.{State, Incident, NotificationJob, Snapshot}
use logthing.Incidents.Service.{Query, list, same_state, notifications_for}
use logthing.Storage.Filter.{trim_space}
use logthing.Api.Query.{get}
use logthing.Api.Messages.{MessagesMeta}

-- What is written: the incidents with their jobs, or status 400.
pub data Reply : Type 0 where
  incidents : List (Incident × List NotificationJob) → MessagesMeta → Reply
  bad_limit bad_offset bad_state : Reply

pub data Pagination : Type 0 where
  page : (limit offset : ℕ) → Pagination
  bad_page : Reply → Pagination

abbrev limit_in : ℕ → Option ℤ → Option ℕ
limit_in most none = none
limit_in most (some (negsuc _)) = none
limit_in most (some (pos n)) = if not (ltb 0 n) || ltb most n then none else some n

abbrev offset_in : Option ℤ → Option ℕ
offset_in none = none
offset_in (some (negsuc _)) = none
offset_in (some (pos n)) = some n

abbrev page_of : Option ℕ → Option ℕ → Pagination
page_of none offset = bad_page bad_limit
page_of (some limit) none = bad_page bad_offset
page_of (some limit) (some offset) = page limit offset

parse_pagination : ℕ → ℕ → Params → Pagination
parse_pagination default most values =
    page_of
      (if get "limit" values == "" then some default else limit_in most (atoi (get "limit" values)))
      (if get "offset" values == "" then some 0 else offset_in (atoi (get "offset" values)))

abbrev is_listed_state : String → Bool
is_listed_state state =
    state == "" || state == "pending_failure" || state == "active" || state == "resolved"

-- The three tests of the loop.
pub is_listed : String → State → Bool
is_listed state s =
    if state == "pending_failure" && not (same_state s State.pending_failure)
    then false
    else if state == "active"
        && not (same_state s State.active || same_state s State.pending_recovery)
    then false
    else not (state == "resolved" && not (same_state s State.resolved))

-- The part behind the loop: the bounds of the slice, and the answer.
pub incidents_reply : ℕ → ℕ → Snapshot → List Incident → Reply
incidents_reply limit offset s filtered =
    let start = min offset (length filtered) in
    let end = min (start + limit) (length filtered) in
    incidents
      (map (λ (i : Incident). (i, notifications_for i.id s))
        (take (end - start) (drop start filtered)))
      (record {
        count = end - start;
        limit = limit;
        offset = offset;
        has_more = ltb end (length filtered);
      })

-- `incidents.Query{}`
abbrev pub all_incidents : Query
all_incidents = record { state = none; limit = pos 0; offset = pos 0 }

abbrev answer : Snapshot → String → Pagination → Reply
answer s state (bad_page reply) = reply
answer s state (page limit offset) =
    if not (is_listed_state state)
    then bad_state
    else incidents_reply limit offset s
        (keep (λ (i : Incident). is_listed state i.state) (list all_incidents s))

-- The service is there.
pub handle_incidents : Snapshot → Params → Reply
unfolding parse_pagination is_listed incidents_reply
handle_incidents s values =
    answer s (trim_space (get "state" values)) (parse_pagination 100 1000 values)
