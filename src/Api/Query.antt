-- ===== src/Api/Query.antt =====
-- `parseMessagesQuery` of internal/api/router.go, and the functions that it stands on. The values of
-- a request's query are the list of its names and values, as frontend/src/api.ts builds it.
pub mod Sent
use logthing.Prelude.{
  ℕ, ◌≤◌, String, Bool, true, false, not, ◌&&◌, ◌||◌, Option, none, some, List, [], ◌∷◌, ◌++◌, ◌==◌,
  any, ltb, leb, if◌then◌else◌,
}
use logthing.Prelude.Int.{ℤ, pos, negsuc}
use logthing.Prelude.Text.Decimal.{atoi}
use logthing.Frontend.Api.{Params, get_all}
use logthing.Storage.Filter.{trim_space}
use logthing.Storage.Query.{Query}

abbrev default_message_limit : ℕ
default_message_limit = 200

abbrev pub max_message_limit : ℕ
max_message_limit = 2000

pub data ParseError : Type 0 where
  invalid_limit limit_range invalid_offset offset_range invalid_since invalid_until : ParseError

pub data Parsed (A : Type 0) : Type 0 where
  ok : A → Parsed A
  err : ParseError → Parsed A

infixl 5 ◌>>=◌
abbrev pub ◌>>=◌ : {A B : Type 0} → Parsed A → (A → Parsed B) → Parsed B
ok a >>= f = f a
err e >>= f = err e

abbrev pub first_or_blank : List String → String
first_or_blank [] = ""
first_or_blank (value ∷ _) = value

-- `url.Values.Get`
abbrev pub get : String → Params → String
get name values = first_or_blank (get_all name values)

abbrev limit_of : Option ℤ → Parsed ℕ
limit_of none = err invalid_limit
limit_of (some (negsuc _)) = err limit_range
limit_of (some (pos n)) = if not (ltb 0 n) || ltb max_message_limit n then err limit_range else ok n

pub parse_limit : String → Parsed ℕ
parse_limit value = if value == "" then ok default_message_limit else limit_of (atoi value)

abbrev offset_of : Option ℤ → Parsed ℕ
offset_of none = err invalid_offset
offset_of (some (negsuc _)) = err offset_range
offset_of (some (pos n)) = ok n

pub parse_offset : String → Parsed ℕ
parse_offset value = if value == "" then ok 0 else offset_of (atoi value)

-- `cleanQueryValues`, with what it has seen and what it has kept so far.
pub clean_from : List String → List String → List String → List String
clean_from seen cleaned [] = cleaned
clean_from seen cleaned (value ∷ values) =
    let next = trim_space value in
    let skipped = clean_from seen cleaned values in
    let kept = clean_from (next ∷ seen) (cleaned ++ next ∷ []) values in
    if next == "" then skipped else if any (λ v. v == next) seen then skipped else kept

pub clean_query_values : List String → List String
unfolding clean_from
clean_query_values values = clean_from [] [] values

-- `time.Parse` with the layout RFC3339Nano: the time, in nanoseconds, or the error.
module _ (parse_time : String → Option ℕ) where
  abbrev optional_of : ParseError → Option ℕ → Parsed (Option ℕ)
  optional_of e none = err e
  optional_of e (some t) = ok (some t)

  -- `parseOptionalTime`; its caller wraps the error.
  pub parse_optional_time : ParseError → String → Parsed (Option ℕ)
  parse_optional_time e value =
      if trim_space value == "" then ok none else optional_of e (parse_time (trim_space value))

  unfoldable pub parse_messages_query : Params → Parsed Query
  parse_messages_query values = parse_limit (trim_space (get "limit" values)) >>= λ limit.
      parse_offset (trim_space (get "offset" values)) >>= λ offset.
      parse_optional_time invalid_since (get "since" values) >>= λ since.
      parse_optional_time invalid_until (get "until" values) >>= λ until. ok (record {
        text = get "q" values;
        hosts = clean_query_values (get_all "host" values);
        limit = pos limit;
        offset = pos offset;
        since = since;
        until = until;
      })
