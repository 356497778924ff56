-- ===== src/Storage/Partition.antt =====
-- The partitions that internal/storage/file_store.go writes: `sourceFilename`.
pub mod Safe
use Prim.Native.Char.{Char, code}
use Prim.Native.String
use logthing.Prelude.{
  ℕ, String, Bool, true, false, ◌&&◌, ◌||◌, Option, none, some, List, [], ◌∷◌, ◌==◌, leb, eqb,
  if◌then◌else◌,
}
use logthing.Prelude.Text.{concat, trim}
use logthing.Model.{Message}
use logthing.Storage.Filter.{trim_space}

-- ASCII letters and digits.
abbrev pub is_alphanumeric : ℕ → Bool
is_alphanumeric c = (leb 97 c && leb c 122) || (leb 65 c && leb c 90) || (leb 48 c && leb c 57)

-- '.', '-' and '_'.
abbrev pub is_mark : ℕ → Bool
is_mark c = eqb c 46 || eqb c 45 || eqb c 95

abbrev pub is_safe : ℕ → Bool
is_safe c = is_alphanumeric c || is_mark c

-- The loop over the characters.
pub replace_unsafe : String → String
replace_unsafe String.[] = ""
replace_unsafe (String.◌∷◌ c s) =
    let rest = replace_unsafe s in
    if is_safe (code c) then String.◌∷◌ c rest else String.◌∷◌ "_" rest

abbrev or_unknown : String → String
or_unknown s = if s == "" then "unknown" else s

abbrev pub cleaned : String → String
cleaned source = or_unknown (trim is_mark (replace_unsafe source))

-- `net.SplitHostPort`: the host, or none for an error.
module _ (split_host_port : String → Option String) where
  abbrev pub host_of : String → Option String → String
  host_of source none = source
  host_of source (some host) = host

  abbrev pub source_of : Message → String
  source_of m =
      or_unknown (if trim_space m.source == "" then trim_space m.hostname else trim_space m.source)

  -- `sourceFilename`
  unfoldable pub source_filename : Message → String
  unfolding replace_unsafe
  source_filename m =
      concat (cleaned (host_of (source_of m) (split_host_port (source_of m))) ∷ ".ndjson" ∷ [])
