-- ===== src/Tests/Import.antt =====
-- internal/api/import.go at concrete lines.
use logthing.Prelude.{◌+◌, String, ◌≡◌, refl, false, some, List, [], ◌∷◌, map, length, All}
use logthing.Prelude.Maps.{lookup}
use logthing.Prelude.Text.{trim, go_space}
use logthing.Prelude.Text.Decimal.{atoi}
use logthing.Model.{Json, Fields, Message}
use logthing.Api.Import.{
  Outside, object, ok, parse_imported_message, imported_message, import_lines,
}
use logthing.Api.Import.Counted.{
  HasCodes, parsed_lines, parse_imported_message-HasCodes, import_lines-finished,
}

abbrev fields : Fields
fields = Fields.field "timestamp" (Json.text "2026-01-01") (
    Fields.field "facility" (Json.text "local7")
      (Fields.field "severity" (Json.number "3") Fields.end))

abbrev outside : Outside
outside = record {
  to_lower = λ s. s;
  decode = λ s. object fields;
  sprint = λ j. "";
  parse_time = λ s. some 5;
  new_id = λ line. "id";
  fails = λ m. false;
}

abbrev imported : Message
imported = imported_message outside 1 fields 5 (some 23) (some 3)

parse_imported_message-HasCodes_example : HasCodes imported
unfolding parse_imported_message trim go_space lookup atoi
parse_imported_message-HasCodes_example = parse_imported_message-HasCodes outside 1 "{}" refl

abbrev text : List String
text = "{}" ∷ " " ∷ "{}" ∷ []

import_lines-finished_example :
    (parsed_lines outside 1 text ≡ map ok (import_lines outside 1 text).imported)
    × All (λ m. outside.fails m ≡ false) (import_lines outside 1 text).imported
    × (length (import_lines outside 1 text).imported + (import_lines outside 1 text).skipped
        ≡ length text)
unfolding import_lines trim go_space lookup atoi
import_lines-finished_example = import_lines-finished outside 1 text refl
