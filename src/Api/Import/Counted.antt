-- ===== src/Api/Import/Counted.antt =====
-- What internal/api/import.go makes of the lines and of the codes in them.
use logthing.Prelude.{
  ℕ, ◌+◌, ◌*◌, ◌≤◌, String, ◌≡◌, refl, ap, inl, inr, false, Option, none, some, List, [], ◌∷◌, ◌==◌,
  map, length, ltb, All, arith, if◌then◌else◌, Bool-cases,
}
use logthing.Prelude.Int.{ℤ, pos, negsuc}
use logthing.Prelude.Maps.{Map, lookup, All-lookup}
use logthing.Prelude.Text.Decimal.{atoi}
use logthing.Model.{Fields, Message}
use logthing.Storage.Filter.{trim_space}
use logthing.Api.Import.{
  Outside, Decoded, ImportError, Parsed, ok, err, ◌>>=◌, severity_names, facility_names,
  code_number, code_named, priority_of, code, parse_syslog_code, parse_severity, parse_facility,
  parse_timestamp, imported_message, parse_decoded, import_string, parse_imported_message,
  ImportResult, take_parsed, import_lines, invalid_severity, invalid_facility, not_json, trailing,
  object,
}

-- A code that is there is not above the bound.
abbrev IsWithin : ℕ → Option ℕ → Type 0
IsWithin most none = Unit
IsWithin most (some n) = n ≤ most

-- The bound on what a parse gives.
abbrev Gives : ℕ → Parsed (Option ℕ) → Type 0
Gives most (err e) = Unit
Gives most (ok code) = IsWithin most code

code_number-Gives : (e : ImportError) (most : ℕ) (n : Option ℤ) → Gives most (code_number e most n)
code_number-Gives e most none = tt
code_number-Gives e most (some (negsuc n)) = tt
code_number-Gives e most (some (pos n)) = elim (Bool-cases (ltb most n)) [
  | inl h ↦ rw h tt
  | inr h ↦ rw h (ground arith)
]

parse_syslog_code-Gives :
    (outside : Outside) (e : ImportError) (names : Map ℕ) (most : ℕ) (text : String)
    → All (λ (x : String × ℕ). x.1 ≤ most) names
    → Gives most (parse_syslog_code outside e names most text)
unfolding parse_syslog_code
parse_syslog_code-Gives outside e names most text h =
    elim (Bool-cases (outside.to_lower (trim_space text) == "")) [
      | inl b ↦ rw b tt
      | inr b ↦ rw b (named (lookup (outside.to_lower (trim_space text)) names) refl)
    ]
  where
    named :
        (r : Option ℕ)
        → lookup (outside.to_lower (trim_space text)) names ≡ r
        → Gives most (code_named e most (outside.to_lower (trim_space text)) r)
    named none k = code_number-Gives e most (atoi (outside.to_lower (trim_space text)))
    named (some n) k =
        All-lookup (λ (x : String × ℕ). x.1 ≤ most) (outside.to_lower (trim_space text)) n names h k

-- A priority is eight times the facility and the severity, at most 191, and there is one only with
-- both of them.
abbrev IsPriority : Option ℕ → Option ℕ → Option ℤ → Type 0
IsPriority (some facility) (some severity) (some (pos n)) =
    (n ≡ 8 * facility + severity) × (n ≤ 191)
IsPriority (some facility) (some severity) _ = ⊥
IsPriority _ _ none = Unit
IsPriority _ _ (some _) = ⊥

-- The codes of a message: the facility is at most 23 and the severity at most 7, and there is a
-- priority, made of them, exactly when there are both; it is at most 191 then.
abbrev pub HasCodes : Message → Type 0
HasCodes m =
    (facility : Option ℕ) × (severity : Option ℕ) × (m.facility ≡ code facility)
    × (m.severity ≡ code severity)
    × IsWithin 23 facility
    × IsWithin 7 severity
    × IsPriority facility severity m.priority

priority_of-IsPriority :
    (facility severity : Option ℕ)
    → IsWithin 23 facility
    → IsWithin 7 severity
    → IsPriority facility severity (priority_of facility severity)
priority_of-IsPriority none none h k = tt
priority_of-IsPriority none (some s) h k = tt
priority_of-IsPriority (some f) none h k = tt
priority_of-IsPriority (some f) (some s) h k = (omega arith, omega arith)

parse_severity-Gives : (outside : Outside) (text : String) → Gives 7 (parse_severity outside text)
unfolding parse_severity
parse_severity-Gives outside text =
    parse_syslog_code-Gives outside invalid_severity severity_names 7 text (omega arith)

parse_facility-Gives : (outside : Outside) (text : String) → Gives 23 (parse_facility outside text)
unfolding parse_facility
parse_facility-Gives outside text =
    parse_syslog_code-Gives outside invalid_facility facility_names 23 text (omega arith)

module _ (outside : Outside) (line : ℕ) (m : Message) where
  codes-HasCodes :
      (raw : Fields) (t : ℕ) (f s : Parsed (Option ℕ))
      → Gives 23 f
      → Gives 7 s
      → (f >>= λ facility.
          s >>= λ severity. ok (imported_message outside line raw t facility severity))
        ≡ ok m
      → HasCodes m
  codes-HasCodes raw t (err e) s g k h = absurd (cc h)
  codes-HasCodes raw t (ok f) (err e) g k h = absurd (cc h)
  codes-HasCodes raw t (ok f) (ok s) g k h =
      let same : imported_message outside line raw t f s ≡ m = cc in
      rw (← same) (f, s, refl, refl, g, k, priority_of-IsPriority f s g k)

  fields-HasCodes :
      (raw : Fields) (t : Parsed ℕ)
      → (t >>= λ timestamp.
          parse_facility outside (import_string outside raw "facility") >>= λ facility.
          parse_severity outside (import_string outside raw "severity") >>= λ severity.
          ok (imported_message outside line raw timestamp facility severity))
        ≡ ok m
      → HasCodes m
  fields-HasCodes raw (err e) h = absurd (cc h)
  fields-HasCodes raw (ok t) h =
      codes-HasCodes raw t (parse_facility outside (import_string outside raw "facility"))
        (parse_severity outside (import_string outside raw "severity"))
        (parse_facility-Gives outside (import_string outside raw "facility"))
        (parse_severity-Gives outside (import_string outside raw "severity")) h

  decoded-HasCodes : (d : Decoded) → parse_decoded outside line d ≡ ok m → HasCodes m
  decoded-HasCodes not_json h = absurd (cc h)
  decoded-HasCodes trailing h = absurd (cc h)
  decoded-HasCodes (object raw) h =
      fields-HasCodes raw
        (parse_timestamp outside (trim_space (import_string outside raw "timestamp"))) h

-- Whatever a line is, if a message is made of it then its facility is at most 23 and its severity at
-- most 7, and it has a priority, eight times the facility and the severity, exactly when it has
-- both; a priority is at most 191.
pub parse_imported_message-HasCodes :
    (outside : Outside) (line : ℕ) (text : String) {m : Message}
    → parse_imported_message outside line text ≡ ok m
    → HasCodes m
unfolding parse_imported_message
parse_imported_message-HasCodes outside line text {m} h =
    decoded-HasCodes outside line m (outside.decode text) h

-- What the lines that are not blank parse to, with their numbers.
abbrev pub parsed_lines : Outside → ℕ → List String → List (Parsed Message)
parsed_lines outside line [] = []
parsed_lines outside line (text ∷ lines) =
    let later = parsed_lines outside (line + 1) lines in
    if trim_space text == ""
    then later
    else parse_imported_message outside line (trim_space text) ∷ later

take_parsed-finished :
    (outside : Outside) (line : ℕ) (p : Parsed Message) (later : ImportResult)
    → (take_parsed outside line p later).stopped ≡ none
    → (m : Message) × (p ≡ ok m)
      × (later.stopped ≡ none)
      × (outside.fails m ≡ false)
      × ((take_parsed outside line p later).imported ≡ m ∷ later.imported)
      × ((take_parsed outside line p later).skipped ≡ later.skipped)
take_parsed-finished outside line (err e) later h = absurd (cc h)
take_parsed-finished outside line (ok m) later h = elim (Bool-cases (outside.fails m)) [
  | inl e ↦ absurd (cc (rw e at h))
  | inr e ↦ (m, refl, rw e at h, e, rw e, rw e)
]

-- An import that ends without an error has made messages of all lines that are not blank, in their
-- order, and none besides, and the store has refused none of them; these and the skipped lines are
-- all the lines.
pub import_lines-finished :
    (outside : Outside) (line : ℕ) (lines : List String)
    → (import_lines outside line lines).stopped ≡ none
    → (parsed_lines outside line lines ≡ map ok (import_lines outside line lines).imported)
      × All (λ m. outside.fails m ≡ false) (import_lines outside line lines).imported
      × (length (import_lines outside line lines).imported
            + (import_lines outside line lines).skipped
          ≡ length lines)
unfolding import_lines
import_lines-finished outside line [] h = (refl, tt, omega arith)
import_lines-finished outside line (text ∷ lines) h =
    let later = import_lines outside (line + 1) lines in
    elim (Bool-cases (trim_space text == "")) [
      | inl e ↦
          let (p, a, n) = import_lines-finished outside (line + 1) lines (rw e at h) in
          rw e (p, a, omega (arith, n))
      | inr e ↦
          let (m, q, s, stored, i, k) =
            take_parsed-finished outside line
              (parse_imported_message outside line (trim_space text)) later (rw e at h) in
          let (p, a, n) = import_lines-finished outside (line + 1) lines s in
          rw (e, i, k, q) (ap (◌∷◌ (ok m)) p, (stored, a), omega (arith, n))
    ]
