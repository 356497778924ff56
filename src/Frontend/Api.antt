-- ===== src/Frontend/Api.antt =====
-- frontend/src/api.ts: the requests that the browser sends, and what it makes of the answers. The
-- network is the caller: a request is a value, and an answer is an argument.
pub mod Laws
use logthing.Prelude.{
  ℕ, String, Bool, true, false, not, ◌&&◌, Option, none, some, List, [], ◌∷◌, ◌++◌, ◌==◌, eqb, ltb,
  leb, any, keep, if◌then◌else◌,
}
use logthing.Prelude.Text.{js_space, trim, concat, decimal}

-- `String.prototype.trim`
abbrev pub trim_js : String → String
trim_js = trim js_space

-- `URLSearchParams`, and its methods `append`, `set` and `getAll`.
abbrev pub Params : Type 0
Params = List (String × String)

abbrev pub append : String → String → Params → Params
append name value params = params ++ (name, value) ∷ []

abbrev pub has : String → Params → Bool
has name params = any (λ (p : String × String). p.0 == name) params

-- The first value is replaced, and the others are deleted.
abbrev pub replace : String → String → Params → Params
replace name value [] = []
replace name value ((n, v) ∷ rest) =
    let later = replace name value rest in
    if n == name
    then (n, value) ∷ keep (λ (p : String × String). not (p.0 == name)) rest
    else (n, v) ∷ later

pub set : String → String → Params → Params
set name value params =
    if has name params then replace name value params else append name value params

abbrev pub get_all : String → Params → List String
get_all name [] = []
get_all name ((n, v) ∷ rest) =
    let later = get_all name rest in if n == name then v ∷ later else later

pub record ListMessagesParams : Type 0 where
  pub query : String
  pub hosts : List String
  pub limit : ℕ
  pub offset : ℕ

-- The loop over the hosts: blank ones are left out.
pub append_hosts : List String → Params → Params
append_hosts [] params = params
append_hosts (host ∷ hosts) params =
    append_hosts hosts (if trim_js host == "" then params else append "host" (trim_js host) params)

-- The query of the request of `listMessages`.
pub messages_query : ListMessagesParams → Params
messages_query p =
    let base = set "offset" (decimal p.offset) (set "limit" (decimal p.limit) []) in
    let with_hosts = append_hosts p.hosts base in
    if trim_js p.query == "" then with_hosts else set "q" (trim_js p.query) with_hosts

-- The states that `listIncidents` can ask for.
pub data ListedState : Type 0 where
  pending_failure active resolved : ListedState

abbrev listed_state_text : ListedState → String
listed_state_text pending_failure = "pending_failure"
listed_state_text active = "active"
listed_state_text resolved = "resolved"

-- The query of the request of `listIncidents`.
unfoldable pub incidents_query : ListedState → Params
unfolding set
incidents_query state = set "limit" "100" (set "state" (listed_state_text state) [])

-- The query of the request of `openMessageStream`.
abbrev stream_query : String → Params
stream_query query = append "q" query []

-- An answer: its status, the decoded body if it decodes, and the body's `error` if it has one.
pub record Response (A : Type 0) : Type 0 where
  pub status : ℕ
  pub body : Option A
  pub error : Option String

-- What a request throws: the signal aborted it, or an error with a message.
pub data Failure : Type 0 where
  aborted : Failure
  failed : String → Failure

pub data Result (A : Type 0) : Type 0 where
  ok : A → Result A
  err : Failure → Result A

-- `response.ok`
abbrev is_ok : ℕ → Bool
is_ok status = leb 200 status && leb status 299

abbrev http_message : ℕ → String
http_message status = concat ("Request failed with HTTP " ∷ decimal status ∷ [])

abbrev or_status : Option String → ℕ → String
or_status none status = http_message status
or_status (some message) status = message

module _ {A : Type 0} where
  -- `response.json()`, which throws if the body is not JSON.
  abbrev json : Option A → Result A
  json none = err (failed "invalid JSON")
  json (some a) = ok a

  -- What `listMessages` and `importMessages` make of the answer.
  abbrev read_messages : Response A → Result A
  read_messages r =
      if is_ok r.status
      then json r.body
      else if eqb r.status 401
      then err (failed "Authentication required")
      else err (failed (or_status r.error r.status))

  -- `checkedJSON`, for the requests about incidents and notifications.
  abbrev checked_json : Response A → Result A
  checked_json r = if is_ok r.status then json r.body else err (failed (or_status r.error r.status))

  -- What `sendTestEvent` makes of the answer: the body is not read.
  abbrev read_test_event : Response A → Result (Unit {0})
  read_test_event r =
      if is_ok r.status
      then ok tt
      else if eqb r.status 401
      then err (failed "Authentication required")
      else err (failed (http_message r.status))

-- What `fetchBuildID` makes of the answer, whose body is the build identifier if that is there.
abbrev build_or_unknown : Option String → String
build_or_unknown none = "Unknown"
build_or_unknown (some id) = if id == "" then "Unknown" else id

abbrev read_build_id : Response (Option String) → Result String
read_build_id r =
    if is_ok r.status
    then (elim r.body [ none ↦ err (failed "invalid JSON") | some id ↦ ok (build_or_unknown id) ])
    else err (failed (concat ("Failed to fetch build ID: " ∷ decimal r.status ∷ [])))
