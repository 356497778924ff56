-- ===== src/Storage/Filter.antt =====
-- internal/storage/text_filter.go, and the functions of internal/storage/file_store.go that a text
-- filter stands on.
use logthing.Prelude.{String, Bool, ◌||◌, Option, none, some, List, [], ◌∷◌, ◌==◌, keep, map, not}
use logthing.Prelude.Text.{concat, cut, is_some, go_space, trim, strip_prefix, strip_suffix}
use logthing.Model.{Fields, Message}

-- What the package takes from the packages strings, regexp and encoding/json.
pub record TextTools : Type 0 where
  -- `strings.ToLower`
  pub to_lower : String → String
  -- `regexp.Compile` of "(?i)" and the text: whether a text matches, or the error.
  pub compile : String → Option (String → Bool)
  -- `json.Marshal` of an object, or none for its error.
  pub marshal : Fields → Option String

abbrev pub trim_space : String → String
trim_space = trim go_space

-- `strings.Join` with a space.
abbrev join_spaced : List String → String
join_spaced [] = ""
join_spaced (s ∷ []) = s
join_spaced (s ∷ t ∷ ss) = concat (s ∷ " " ∷ join_spaced (t ∷ ss) ∷ [])

-- `selectedHosts`: the set is a list.
unfoldable pub selected_hosts : List String → List String
selected_hosts values = keep (λ h. not (h == "")) (map trim_space values)

-- The text between two slashes.
abbrev expression_of : String → Option String
expression_of text = elim (strip_prefix "/" text) [
  | none ↦ none
  | some rest ↦ strip_suffix "/" rest
]

module _ (tools : TextTools) where
  -- `jsonText`: a map that is nil is no nil interface, and its text is "null".
  abbrev json_text : Option Fields → String
  json_text none = "null"
  json_text (some fields) = elim (tools.marshal fields) [ none ↦ "" | some text ↦ text ]

  -- `messageSearchText`
  message_search_text : Message → String
  message_search_text m = join_spaced (
      m.id
      ∷ m.transport
      ∷ m.source
      ∷ m.hostname
      ∷ m.app_name
      ∷ m.proc_id
      ∷ m.msg_id
      ∷ m.tag
      ∷ m.message
      ∷ json_text m.structured_data
      ∷ json_text m.raw
      ∷ [])

  -- `matchesText`
  unfoldable pub matches_text : Message → String → Bool
  unfolding message_search_text
  matches_text m needle = is_some (cut needle (tools.to_lower (message_search_text m)))

  abbrev matching : Option (String → Bool) → Option (Message → Bool)
  matching none = none
  matching (some test) = some (λ m. test (message_search_text m))

  -- The filter by a text in lower case.
  abbrev pub contains : String → Message → Bool
  contains needle m = needle == "" || matches_text m needle

  -- `CompileTextFilter`: the test, or none for `ErrInvalidFilter`.
  unfoldable pub compile_text_filter : String → Option (Message → Bool)
  unfolding matches_text
  compile_text_filter text =
      let trimmed = trim_space text in
      elim (expression_of trimmed) [
        | some expression ↦ matching (tools.compile expression)
        | none ↦ some (contains (tools.to_lower trimmed))
      ]
