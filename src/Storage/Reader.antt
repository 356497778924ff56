-- ===== src/Storage/Reader.antt =====
-- `VisitAfter` of internal/storage/append_reader.go: the messages that were appended after a cursor.
-- A file is its bytes as they are while it is read; `visit` collects the records.
pub mod Bytes
pub mod Resumes
pub mod Again
use logthing.Prelude.{
  ℕ, suc, ◌+◌, ◌-◌, ◌<◌, String, Bool, true, false, not, ◌&&◌, ◌||◌, Option, none, some, List, [],
  ◌∷◌, ◌++◌, ◌==◌, any, ltb, leb, eqb, take, drop, length, if◌then◌else◌,
}
use logthing.Prelude.Maps.{Map, lookup, insert}
use logthing.Prelude.Text.{concat, decimal}
use logthing.Model.{Message}
use logthing.Incidents.Types.{Cursor}
use logthing.Incidents.Worker.Reconcile.{
  StoredRecord, Visit, visited, partition_changed, visit_failed,
}
use logthing.Storage.Index.{line_end}

-- What the reader takes from encoding/json and crypto/sha256.
pub record Coding : Type 0 where
  -- `json.Unmarshal` of a line: the message, or the text of the error.
  pub decode : List ℕ → Option Message
  pub decode_error : List ℕ → String
  -- `sha256.Sum256`, in hexadecimal.
  pub hash : List ℕ → String

-- A message file, by its path below the root.
pub record MessageFile : Type 0 where
  pub key : String
  pub bytes : List ℕ

-- `ReadBytes` up to the end of the file: what stands behind the last line end is not yet a line.
abbrev pub add_byte : ℕ → List (List ℕ) → List (List ℕ)
add_byte b [] = if eqb b line_end then (b ∷ []) ∷ [] else []
add_byte b (line ∷ lines) = if eqb b line_end then (b ∷ []) ∷ line ∷ lines else (b ∷ line) ∷ lines

pub ended_lines : List ℕ → List (List ℕ)
ended_lines [] = []
ended_lines (b ∷ bytes) = add_byte b (ended_lines bytes)

abbrev window_size : ℕ
window_size = 2048

-- What the fingerprint of a file's first `size` bytes is made of: their first 2048, and if there are
-- more, their last 2048.
unfoldable pub fingerprint_bytes : List ℕ → ℕ → List ℕ
fingerprint_bytes bytes size =
    if ltb window_size size
    then take window_size bytes ++ take window_size (drop (size - window_size) bytes)
    else take size bytes

-- What reading one file gives.
pub data FileRead : Type 0 where
  read_to : List StoredRecord → Cursor → FileRead
  changed : FileRead
  undecodable : String → FileRead

module _ (coding : Coding) where
  pub file_fingerprint : List ℕ → ℕ → String
  unfolding fingerprint_bytes
  file_fingerprint bytes size = coding.hash (fingerprint_bytes bytes size)

  -- The record of a line, in front of what is read behind it.
  abbrev pub add_record : StoredRecord → FileRead → FileRead
  add_record r (read_to rs c) = read_to (r ∷ rs) c
  add_record r changed = changed
  add_record r (undecodable error) = undecodable error

  abbrev decode_text : String → ℕ → List ℕ → String
  decode_text key at line = concat (
      "decode message partition "
      ∷ key
      ∷ " at "
      ∷ decimal at
      ∷ ": "
      ∷ coding.decode_error line
      ∷ [])

  abbrev pub read_line : Option Message → String → ℕ → List ℕ → FileRead → FileRead
  read_line none key at line rest = undecodable (decode_text key at line)
  read_line (some m) key at line rest =
      add_record (record { message = m; file = key; offset = at + length line }) rest

  -- The loop over the lines of the file `bytes`, and the new cursor.
  pub read_lines : List ℕ → String → ℕ → List (List ℕ) → FileRead
  unfolding file_fingerprint
  read_lines bytes key at [] =
      read_to [] (record { offset = at; fingerprint = file_fingerprint bytes at })
  read_lines bytes key at (line ∷ lines) =
      read_line (coding.decode line) key at line (read_lines bytes key (at + length line) lines)

  -- Whether the file is not the one that the cursor was made for.
  pub is_changed : Cursor → List ℕ → Bool
  unfolding file_fingerprint
  is_changed cursor bytes =
      ltb (length bytes) cursor.offset
      || (not (cursor.fingerprint == "")
          && not (cursor.fingerprint == file_fingerprint bytes cursor.offset))

  -- The body of the loop over the files.
  unfoldable pub read_file : String → Cursor → List ℕ → FileRead
  unfolding read_lines is_changed ended_lines
  read_file key cursor bytes =
      if is_changed cursor bytes
      then changed
      else read_lines bytes key cursor.offset (ended_lines (drop cursor.offset bytes))

  abbrev pub cursor_or_start : Option Cursor → Cursor
  cursor_or_start none = record { offset = 0; fingerprint = "" }
  cursor_or_start (some cursor) = cursor

  abbrev changed_text : String → String
  changed_text key = concat ("message partition " ∷ key ∷ " was replaced or truncated" ∷ [])

  abbrev pub visited_before : List StoredRecord → Visit → Visit
  visited_before rs (visited rest next) = visited (rs ++ rest) next
  visited_before rs (partition_changed key error) = partition_changed key error
  visited_before rs (visit_failed error) = visit_failed error

  abbrev pub visit_read : String → FileRead → (Cursor → Visit) → Visit
  visit_read key (read_to rs cursor) rest = visited_before rs (rest cursor)
  visit_read key changed rest = partition_changed key (changed_text key)
  visit_read key (undecodable error) rest = visit_failed error

  -- The loop over the files, in the order of their paths.
  visit_files : Map Cursor → List MessageFile → Visit
  unfolding read_file
  visit_files next [] = visited [] next
  visit_files next (f ∷ files) =
      visit_read f.key (read_file f.key (cursor_or_start (lookup f.key next)) f.bytes)
        (λ cursor. visit_files (insert f.key cursor next) files)

  -- A file that was read before and is gone: the first in the order of the map.
  abbrev pub missing : List MessageFile → Map Cursor → Option String
  missing files [] = none
  missing files ((key, cursor) ∷ cursors) =
      let later = missing files cursors in
      if ltb 0 cursor.offset && not (any (λ (f : MessageFile). f.key == key) files)
      then some key
      else later

  abbrev pub unless_missing : Option String → Visit → Visit
  unless_missing none v = v
  unless_missing (some key) (visited rs next) = partition_changed key (changed_text key)
  unless_missing (some key) (partition_changed other error) = partition_changed other error
  unless_missing (some key) (visit_failed error) = visit_failed error

  unfoldable pub visit_after : List MessageFile → Map Cursor → Visit
  unfolding visit_files
  visit_after files cursors = unless_missing (missing files cursors) (visit_files cursors files)
