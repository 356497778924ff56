-- ===== src/Frontend/Live.antt =====
-- The live message list of frontend/src/App.tsx: `receivedAtMillis`, `compareMessagesLatestFirst`
-- and the merge in `handleMessage`.
pub mod Laws
use logthing.Prelude.{
  ℕ, String, Bool, not, Option, none, some, List, [], ◌∷◌, ◌==◌, keep, take, length, ltb,
}
use logthing.Prelude.Int.{ℤ, pos, ◌-ℤ◌, leb_ℤ}
use logthing.Prelude.Sorting.{sort}
use logthing.Frontend.Types.{SyslogMessage}

abbrev or_epoch : Option ℤ → ℤ
or_epoch none = pos 0
or_epoch (some t) = t

-- `Date.parse`, which gives no time for a text that is no date.
module _ (date_parse : String → Option ℤ) where
  abbrev received_at_millis : SyslogMessage → ℤ
  received_at_millis message = or_epoch (date_parse message.received_at)

  unfoldable pub compare_messages_latest_first : SyslogMessage → SyslogMessage → ℤ
  unfolding ◌-ℤ◌
  compare_messages_latest_first left right = received_at_millis right -ℤ received_at_millis left

  -- What `Array.prototype.sort` asks of a comparison: `left` may stay before `right`.
  abbrev pub latest_first : SyslogMessage → SyslogMessage → Bool
  latest_first left right = leb_ℤ (compare_messages_latest_first left right) (pos 0)

  -- `merged`: the message comes first among equals, and replaces the one with its identifier.
  unfoldable pub merge_message : SyslogMessage → List SyslogMessage → List SyslogMessage
  merge_message message current =
      sort latest_first (message ∷ keep (λ existing. not (existing.id == message.id)) current)

  -- `nextMessages`, and whether there were more.
  unfoldable pub next_messages : ℕ → SyslogMessage → List SyslogMessage → List SyslogMessage × Bool
  unfolding merge_message
  next_messages limit message current =
      let merged = merge_message message current in (take limit merged, ltb limit (length merged))
