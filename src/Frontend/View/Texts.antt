-- ===== src/Frontend/View/Texts.antt =====
-- The texts of frontend/src/App.tsx that stand on the browser's formatting.
use logthing.Prelude.{
  ℕ, suc, String, Bool, Option, none, some, List, [], ◌∷◌, ◌==◌, length, eqb, if◌then◌else◌,
}
use logthing.Prelude.Int.{ℤ, pos, negsuc}
use logthing.Prelude.Maps.{Map}
use logthing.Prelude.Text.{concat, decimal}
use logthing.Frontend.Types.{SyslogMessage}

-- What the page takes from the browser.
pub record Browser : Type 0 where
  -- `Date.parse`, and `Date.now()`.
  pub date_parse : String → Option ℤ
  pub now : ℤ
  -- `new Date(value).toLocaleString()`, none where the date is not valid.
  pub to_locale_string : String → Option String
  pub to_locale_time_string : ℕ → String
  -- `JSON.stringify` of an object and of a message.
  pub stringify : Map String → String
  pub stringify_message : SyslogMessage → String
  -- `Number` of the value of an option.
  pub number : String → ℕ
  -- `a.localeCompare(b) <= 0`
  pub before_eq : String → String → Bool

abbrev or_value : Option String → String → String
or_value none value = value
or_value (some s) value = s

-- `String(value)` of an integer.
abbrev int_text : ℤ → String
int_text (pos n) = decimal n
int_text (negsuc n) = concat ("-" ∷ decimal (suc n) ∷ [])

-- `numberText`
abbrev pub number_text : Option ℤ → String
number_text none = ""
number_text (some n) = int_text n

-- An optional text as a child: nothing is shown where it is not there.
abbrev pub optional_text : Option String → String
optional_text none = ""
optional_text (some s) = s

abbrev pub plural : ℕ → String
plural n = if eqb n 1 then "" else "s"

module _ (browser : Browser) where
  -- `formatDate`
  abbrev pub format_date : String → String
  format_date value = if value == "" then "" else or_value (browser.to_locale_string value) value

  abbrev pub format_optional_date : Option String → String
  format_optional_date none = ""
  format_optional_date (some value) = format_date value

  -- `formatJSON`
  abbrev pub format_json : Option (Map String) → String
  format_json none = ""
  format_json (some fields) = if eqb (length fields) 0 then "" else browser.stringify fields

  -- `latestReceived`
  abbrev pub latest_received : List SyslogMessage → String
  latest_received [] = ""
  latest_received (m ∷ _) = format_date m.received_at

  abbrev lines_text : List SyslogMessage → String
  lines_text [] = ""
  lines_text (m ∷ ms) = concat (browser.stringify_message m ∷ "\n" ∷ lines_text ms ∷ [])

  -- The body of the file that `handleExport` offers; without messages there is none.
  abbrev export_body : List SyslogMessage → Option String
  export_body [] = none
  export_body (m ∷ ms) = some (lines_text (m ∷ ms))
