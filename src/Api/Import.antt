-- ===== src/Api/Import.antt =====
-- internal/api/import.go: the import of messages, one JSON object to a line.
pub mod Counted
use logthing.Prelude.{
  ℕ, suc, ◌+◌, ◌*◌, String, Bool, true, false, ◌||◌, Option, none, some, List, [], ◌∷◌, ◌==◌, ltb,
  if◌then◌else◌,
}
use logthing.Prelude.Int.{ℤ, pos, negsuc}
use logthing.Prelude.Maps.{Map, lookup}
use logthing.Prelude.Text.Decimal.{atoi}
use logthing.Model.{Json, Fields, Message}
use logthing.Storage.Filter.{trim_space}

-- What the decoder finds in a line: no JSON object, or more than one value, or an object. A name
-- comes once among an object's fields.
pub data Decoded : Type 0 where
  not_json trailing : Decoded
  object : Fields → Decoded

-- What the import takes from the packages strings, encoding/json, fmt, time and crypto/rand, and the
-- store.
pub record Outside : Type 0 where
  pub to_lower : String → String
  pub decode : String → Decoded
  -- `fmt.Sprint` of an array or an object.
  pub sprint : Json → String
  pub parse_time : String → Option ℕ
  -- The identifier for the message of a line.
  pub new_id : ℕ → String
  -- Whether `store.Append` returns an error.
  pub fails : Message → Bool

pub data ImportError : Type 0 where
  invalid_json trailing_json timestamp_required invalid_timestamp invalid_facility
        invalid_severity :
      ImportError

pub data Parsed (A : Type 0) : Type 0 where
  ok : A → Parsed A
  err : ImportError → Parsed A

infixl 5 ◌>>=◌
abbrev pub ◌>>=◌ : {A B : Type 0} → Parsed A → (A → Parsed B) → Parsed B
ok a >>= f = f a
err e >>= f = err e

abbrev pub severity_names : Map ℕ
severity_names =
    ("emerg", 0)
    ∷ ("emergency", 0)
    ∷ ("alert", 1)
    ∷ ("crit", 2)
    ∷ ("critical", 2)
    ∷ ("err", 3)
    ∷ ("error", 3)
    ∷ ("warning", 4)
    ∷ ("warn", 4)
    ∷ ("notice", 5)
    ∷ ("info", 6)
    ∷ ("informational", 6)
    ∷ ("debug", 7)
    ∷ []

abbrev pub facility_names : Map ℕ
facility_names =
    ("kern", 0)
    ∷ ("kernel", 0)
    ∷ ("user", 1)
    ∷ ("mail", 2)
    ∷ ("daemon", 3)
    ∷ ("auth", 4)
    ∷ ("security", 4)
    ∷ ("syslog", 5)
    ∷ ("lpr", 6)
    ∷ ("news", 7)
    ∷ ("uucp", 8)
    ∷ ("cron", 9)
    ∷ ("authpriv", 10)
    ∷ ("ftp", 11)
    ∷ ("ntp", 12)
    ∷ ("audit", 13)
    ∷ ("alert", 14)
    ∷ ("clock", 15)
    ∷ ("local0", 16)
    ∷ ("local1", 17)
    ∷ ("local2", 18)
    ∷ ("local3", 19)
    ∷ ("local4", 20)
    ∷ ("local5", 21)
    ∷ ("local6", 22)
    ∷ ("local7", 23)
    ∷ []

abbrev pub code_number : ImportError → ℕ → Option ℤ → Parsed (Option ℕ)
code_number e most none = err e
code_number e most (some (negsuc _)) = err e
code_number e most (some (pos n)) = if ltb most n then err e else ok (some n)

abbrev pub code_named : ImportError → ℕ → String → Option ℕ → Parsed (Option ℕ)
code_named e most value (some code) = ok (some code)
code_named e most value none = code_number e most (atoi value)

-- There is one only with both codes.
abbrev pub priority_of : Option ℕ → Option ℕ → Option ℤ
priority_of none severity = none
priority_of (some facility) none = none
priority_of (some facility) (some severity) = some (pos (facility * 8 + severity))

abbrev pub code : Option ℕ → Option ℤ
code none = none
code (some n) = some (pos n)

-- What ends the loop before the end of the text.
pub data Stop : Type 0 where
  invalid_line : (line : ℕ) → ImportError → Stop
  append_failed : (line : ℕ) → Stop

-- `importResult`, with the messages that were appended, in their order.
pub record ImportResult : Type 0 where
  pub imported : List Message
  pub skipped : ℕ
  pub stopped : Option Stop

abbrev stop_with : Stop → ImportResult
stop_with stop = record { imported = []; skipped = 0; stopped = some stop }

abbrev skip_one : ImportResult → ImportResult
skip_one r = record r { skipped = r.skipped + 1 }

abbrev import_one : Message → ImportResult → ImportResult
import_one m r = record r { imported = m ∷ r.imported }

module _ (outside : Outside) where
  abbrev value_text : Json → String
  value_text Json.null = ""
  value_text (Json.bool b) = if b then "true" else "false"
  value_text (Json.number n) = n
  value_text (Json.text t) = t
  value_text (Json.array items) = outside.sprint (Json.array items)
  value_text (Json.object fields) = outside.sprint (Json.object fields)

  -- `importString`
  abbrev pub import_string : Fields → String → String
  import_string Fields.end key = ""
  import_string (Fields.field name value rest) key =
      let later = import_string rest key in if name == key then value_text value else later

  -- `parseSyslogCode`, with the error that its caller makes; the least value is 0.
  pub parse_syslog_code : ImportError → Map ℕ → ℕ → String → Parsed (Option ℕ)
  parse_syslog_code e names most text =
      let value = outside.to_lower (trim_space text) in
      if value == "" then ok none else code_named e most value (lookup value names)

  pub parse_severity : String → Parsed (Option ℕ)
  unfolding parse_syslog_code
  parse_severity = parse_syslog_code invalid_severity severity_names 7

  pub parse_facility : String → Parsed (Option ℕ)
  unfolding parse_syslog_code
  parse_facility = parse_syslog_code invalid_facility facility_names 23

  abbrev timestamp_of : Option ℕ → Parsed ℕ
  timestamp_of none = err invalid_timestamp
  timestamp_of (some t) = ok t

  abbrev pub parse_timestamp : String → Parsed ℕ
  parse_timestamp text =
      if text == "" then err timestamp_required else timestamp_of (outside.parse_time text)

  abbrev host_or_unknown : String → String
  host_or_unknown host = if host == "" then "unknown" else host

  abbrev pub imported_message : ℕ → Fields → ℕ → Option ℕ → Option ℕ → Message
  imported_message line raw timestamp facility severity = record {
    id = outside.new_id line;
    received_at = timestamp;
    timestamp = some timestamp;
    transport = "import";
    source = "";
    priority = priority_of facility severity;
    facility = code facility;
    severity = code severity;
    hostname = host_or_unknown (trim_space (import_string raw "host"));
    app_name = trim_space (import_string raw "program");
    proc_id = trim_space (import_string raw "pid");
    msg_id = "";
    tag = trim_space (import_string raw "program");
    message = import_string raw "message";
    structured_data = none;
    raw = some raw;
  }

  abbrev parse_fields : ℕ → Fields → Parsed Message
  parse_fields line raw =
      parse_timestamp (trim_space (import_string raw "timestamp")) >>= λ timestamp.
      parse_facility (import_string raw "facility") >>= λ facility.
      parse_severity (import_string raw "severity") >>= λ severity.
      ok (imported_message line raw timestamp facility severity)

  abbrev pub parse_decoded : ℕ → Decoded → Parsed Message
  parse_decoded line not_json = err invalid_json
  parse_decoded line trailing = err trailing_json
  parse_decoded line (object raw) = parse_fields line raw

  -- `parseImportedMessage`
  unfoldable pub parse_imported_message : ℕ → String → Parsed Message
  unfolding parse_severity parse_facility
  parse_imported_message line text = parse_decoded line (outside.decode text)

  abbrev pub take_parsed : ℕ → Parsed Message → ImportResult → ImportResult
  take_parsed line (err e) later = stop_with (invalid_line line e)
  take_parsed line (ok m) later =
      if outside.fails m then stop_with (append_failed line) else import_one m later

  -- The loop of `importMessages`, from the line with this number on.
  unfoldable pub import_lines : ℕ → List String → ImportResult
  unfolding parse_imported_message
  import_lines line [] = record { imported = []; skipped = 0; stopped = none }
  import_lines line (text ∷ lines) =
      let later = import_lines (line + 1) lines in
      if trim_space text == ""
      then skip_one later
      else take_parsed line (parse_imported_message line (trim_space text)) later

  -- `importMessages`, on the lines that the scanner finds.
  abbrev import_messages : List String → ImportResult
  import_messages lines = import_lines 1 lines
