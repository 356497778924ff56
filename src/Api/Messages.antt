-- ===== src/Api/Messages.antt =====
-- `handleMessages` of internal/api/router.go. The store is what answers a query, none where the
-- request was cancelled.

pub mod Pages
use logthing.Prelude.{
  ℕ, suc, ◌+◌, String, Bool, Option, none, some, List, length, take, ltb, if◌then◌else◌,
}
use logthing.Prelude.Int.{ℤ, pos, pos_part}
use logthing.Frontend.Api.{Params}
use logthing.Model.{Message}
use logthing.Storage.Query.{Query, QueryResult, found, invalid_filter, unreadable, exhausted}
use logthing.Api.Query.{ParseError, Parsed, ok, err, parse_messages_query}

-- `messagesMeta`
pub record MessagesMeta : Type 0 where
  pub count : ℕ
  pub limit : ℕ
  pub offset : ℕ
  pub has_more : Bool

-- What is written: the messages, status 400 or 500 with an error, or nothing at all.
pub data Reply : Type 0 where
  messages : List Message → MessagesMeta → Reply
  bad_query : ParseError → Reply
  bad_filter failed silent : Reply

-- The limit and offset of a query that was parsed are not negative, and a query does not run out of
-- fuel.
abbrev pub reply_to : Query → Option QueryResult → Reply
reply_to q none = silent
reply_to q (some invalid_filter) = bad_filter
reply_to q (some unreadable) = failed
reply_to q (some exhausted) = failed
reply_to q (some (found ms)) =
    let limit = pos_part q.limit in
    let has_more = ltb limit (length ms) in
    let shown = if has_more then take limit ms else ms in
    messages shown (record {
      count = length shown;
      limit = limit;
      offset = pos_part q.offset;
      has_more = has_more;
    })

module _ (parse_time : String → Option ℕ) (store : Query → Option QueryResult) where
  abbrev reply : Parsed Query → Reply
  reply (err e) = bad_query e
  reply (ok q) = reply_to q (store (record q { limit = pos (pos_part q.limit + 1) }))

  pub handle_messages : Params → Reply
  unfolding parse_messages_query
  handle_messages values = reply (parse_messages_query parse_time values)
