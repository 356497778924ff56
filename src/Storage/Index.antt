-- ===== src/Storage/Index.antt =====
-- `queryIndexes` and `scanIndex` of internal/storage/query_index.go: the index of a partition, built
-- anew or extended by what was appended to the file. Bytes are numbers; a line keeps its line end.

pub mod Lines
pub mod Extend
use logthing.Prelude.{
  ℕ, ◌+◌, ◌<◌, String, Bool, true, false, ◌&&◌, ◌||◌, Option, none, some, List, [], ◌∷◌, ◌++◌, ltb,
  leb, eqb, not, drop, length, if◌then◌else◌,
}
use logthing.Prelude.Sorting.{sort}
use logthing.Storage.Query.{IndexEntry}

abbrev pub line_end : ℕ
line_end = 10

-- A byte before the lines that follow it, the first of which it belongs to.
abbrev pub put_byte : ℕ → List (List ℕ) → List (List ℕ)
put_byte b [] = (b ∷ []) ∷ []
put_byte b (line ∷ lines) = if eqb b line_end then (b ∷ []) ∷ line ∷ lines else (b ∷ line) ∷ lines

-- The scanner's lines: a line ends behind each line end, and at the end of the file.
unfoldable pub split_lines : List ℕ → List (List ℕ)
split_lines [] = []
split_lines (b ∷ bytes) = put_byte b (split_lines bytes)

-- What the index takes from `os.FileInfo`; `same_file` of two files is equality of `identity`.
pub record FileInfo : Type 0 where
  pub identity : ℕ
  pub size : ℕ
  pub modified : ℕ

pub record FileIndex : Type 0 where
  pub info : FileInfo
  pub entries : List IndexEntry

-- The times and hosts of the lines, in latest-first order, and of the same time the last line first.
abbrev pub comes_before : IndexEntry → IndexEntry → Bool
comes_before a b =
    ltb b.received_at a.received_at || (eqb b.received_at a.received_at && leb b.offset a.offset)

abbrev pub is_unchanged : FileInfo → FileInfo → Bool
is_unchanged old info =
    eqb old.identity info.identity && (eqb old.size info.size && eqb old.modified info.modified)

abbrev pub has_grown : FileInfo → FileInfo → Bool
has_grown old info = eqb old.identity info.identity && ltb old.size info.size

-- `json.Unmarshal` of a line into the time and the host, or the error.
module _ (decode : List ℕ → Option (ℕ × String)) where
  abbrev pub add_entry :
      Option (ℕ × String) → ℕ → ℕ → Option (List IndexEntry) → Option (List IndexEntry)
  add_entry none offset length rest = none
  add_entry (some key) offset length none = none
  add_entry (some (at, host)) offset length (some entries) =
      some (record { received_at = at; host = host; offset = offset; length = length } ∷ entries)

  -- The loop of `scanIndex`.
  pub scan_lines : ℕ → List (List ℕ) → Option (List IndexEntry)
  scan_lines offset [] = some []
  scan_lines offset (line ∷ lines) =
      add_entry (decode line) offset (length line) (scan_lines (offset + length line) lines)

-- The scanner's buffer has `maxScannerToken` bytes: it is an error if it is full and has no line end
-- in it, also where the file ends there.
abbrev max_scanner_token : ℕ
max_scanner_token = 4194304

abbrev has_end : List ℕ → Bool
has_end [] = false
has_end (b ∷ bytes) = eqb b line_end || has_end bytes

abbrev is_too_long : List ℕ → Bool
is_too_long line =
    ltb max_scanner_token (length line)
    || (eqb (length line) max_scanner_token && not (has_end line))

module _ (decode : List ℕ → Option (ℕ × String)) where
  -- What is read of a line, or the error of the scanner or of the decoder.
  abbrev pub read_key : List ℕ → Option (ℕ × String)
  read_key line = if is_too_long line then none else decode line

  -- `scanIndex`
  pub scan_index : ℕ → List ℕ → Option (List IndexEntry)
  unfolding scan_lines split_lines
  scan_index offset bytes = scan_lines read_key offset (split_lines bytes)

  abbrev pub sorted_with : FileInfo → List IndexEntry → Option (List IndexEntry) → Option FileIndex
  sorted_with info known none = none
  sorted_with info known (some entries) =
      some (record { info = info; entries = sort comes_before (known ++ entries) })

  -- The index of a file that was not indexed before, or is another file now, or is not longer.
  unfoldable pub build_index : FileInfo → List ℕ → Option FileIndex
  unfolding scan_index sort
  build_index info bytes = sorted_with info [] (scan_index 0 bytes)

  -- The body of the loop of `queryIndexes`, with the index that the partition had.
  unfoldable pub refresh_index : Option FileIndex → FileInfo → List ℕ → Option FileIndex
  unfolding build_index scan_index sort
  refresh_index none info bytes = build_index info bytes
  refresh_index (some old) info bytes =
      if is_unchanged old.info info
      then some old
      else if has_grown old.info info
      then sorted_with info old.entries (scan_index old.info.size (drop old.info.size bytes))
      else build_index info bytes
