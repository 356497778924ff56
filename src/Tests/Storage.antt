-- ===== src/Tests/Storage.antt =====
-- internal/storage and internal/api at concrete inputs.
use logthing.Prelude.{ℕ, String, ◌≡◌, refl, true, Option, none, some, List, [], ◌∷◌, arith}
use logthing.Prelude.Int.{pos}
use logthing.Prelude.Sorting.{sort}
use logthing.Prelude.Text.{cut, strip_prefix, trim, js_space, go_space}
use logthing.Frontend.Api.{ListMessagesParams, messages_query}
use logthing.Model.{Message}
use logthing.Storage.Filter.{TextTools, matches_text, compile_text_filter, contains, selected_hosts}
use logthing.Storage.Query.{Query, IndexEntry, Partition, found, query}
use logthing.Storage.Query.Pages.{query-page}
use logthing.Api.Query.{ok, parse_messages_query}
use logthing.Api.Query.Sent.{AreSendable, parse_messages_query-messages_query}
use logthing.Api.Messages.{messages, handle_messages}
use logthing.Api.Messages.Pages.{handle_messages-page}

-- Texts without capital letters, and no expressions.
abbrev tools : TextTools
tools = record { to_lower = λ s. s; compile = λ s. none; marshal = λ f. some "" }

abbrev pub stored : String → IndexEntry → Message
stored path e = record {
  id = path;
  received_at = e.received_at;
  timestamp = none;
  transport = "udp";
  source = "";
  priority = none;
  facility = none;
  severity = none;
  hostname = e.host;
  app_name = "";
  proc_id = "";
  msg_id = "";
  tag = "";
  message = "up";
  structured_data = none;
  raw = none;
}

abbrev read : String → IndexEntry → Option Message
read path e = some (stored path e)

abbrev pub entry : ℕ → ℕ → IndexEntry
entry at offset = record { received_at = at; host = "router"; offset = offset; length = 10 }

-- Two days; the second has a message that came late.
abbrev days : List Partition
days =
    record { path = "day2"; entries = entry 9 10 ∷ entry 4 0 ∷ [] }
    ∷ record { path = "day1"; entries = entry 5 10 ∷ entry 3 0 ∷ [] }
    ∷ []

abbrev second : Query
second = record {
  text = "";
  hosts = "router" ∷ [];
  limit = pos 2;
  offset = pos 1;
  since = some 4;
  until = none;
}

query-page_example :
    query tools read days second
    ≡ found (stored "day1" (entry 5 10) ∷ stored "day2" (entry 4 0) ∷ [])
unfolding sort selected_hosts trim compile_text_filter strip_prefix go_space
query-page_example =
    query-page tools read days second stored {matches = contains tools ""} (omega arith) refl
      (refl, (refl, (refl, (refl, tt))))

abbrev asked : ListMessagesParams
asked = record { query = " up "; hosts = "router" ∷ []; limit = 2; offset = 1 }

asked-AreSendable : AreSendable ("router" ∷ [])
unfolding trim js_space go_space
asked-AreSendable = record {
  nonblank = (refl, tt);
  trimmed = (refl, tt);
  go_trimmed = (refl, tt);
  distinct = (refl, tt);
}

no_time : String → Option ℕ
no_time _ = none

parse_messages_query-messages_query_example :
    parse_messages_query no_time (messages_query asked)
    ≡ ok (record {
      text = "up";
      hosts = "router" ∷ [];
      limit = pos 2;
      offset = pos 1;
      since = none;
      until = none;
    })
unfolding trim js_space
parse_messages_query-messages_query_example =
    parse_messages_query-messages_query no_time asked (omega arith) (omega arith) (omega arith)
      asked-AreSendable

handle_messages-page_example :
    handle_messages no_time (λ q. some (query tools read days q)) (messages_query asked)
    ≡ messages
        (stored "day1" (entry 5 10) ∷ stored "day2" (entry 4 0) ∷ [])
        (record { count = 2; limit = 2; offset = 1; has_more = true })
unfolding sort selected_hosts trim compile_text_filter strip_prefix go_space js_space matches_text
    cut
handle_messages-page_example =
    handle_messages-page tools read no_time days asked stored {matches = contains tools "up"}
      (omega arith) (omega arith) (omega arith) asked-AreSendable (omega arith) refl
      (refl, (refl, (refl, (refl, tt))))
