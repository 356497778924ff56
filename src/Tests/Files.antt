-- ===== src/Tests/Files.antt =====
-- The indexes and the reader of internal/storage at concrete files.
use logthing.Prelude.{ℕ, String, ◌≡◌, refl, Option, none, some, List, [], ◌∷◌, ◌++◌, arith, length}
use logthing.Model.{Message}
use logthing.Incidents.Types.{Cursor}
use logthing.Incidents.Worker.Reconcile.{StoredRecord}
use logthing.Storage.Query.{IndexEntry}
use logthing.Storage.Query.Merge.{IsDescending}
use logthing.Storage.Index.{FileInfo, FileIndex, split_lines, build_index, refresh_index}
use logthing.Storage.Index.Extend.{refresh_index-grown, refresh_index-IsDescending}
use logthing.Storage.Reader.{Coding, fingerprint_bytes, read_file}
use logthing.Prelude.Maps.{Map, lookup, insert, remove}
use logthing.Storage.Reader.{MessageFile, visit_after}
use logthing.Storage.Reader.Again.{IsQuiet, visit_after-IsQuiet}
use logthing.Storage.Reader.Resumes.{add_records, read_file-resumed}
use logthing.Prelude.Text.{go_space, trim}
use logthing.Storage.Partition.{source_filename}
use logthing.Storage.Partition.Safe.{IsFilename, source_filename-IsFilename}
use logthing.Tests.Storage.{stored, entry}

-- A line is its time, so to speak: the longer, the later.
abbrev decode_key : List ℕ → Option (ℕ × String)
decode_key line = some (length line, "router")

abbrev info : ℕ → FileInfo
info size = record { identity = 1; size = size; modified = size }

abbrev bytes : List ℕ
bytes = 65 ∷ 10 ∷ 65 ∷ 66 ∷ 10 ∷ []

abbrev more : List ℕ
more = 65 ∷ 10 ∷ []

abbrev index_entry : ℕ → ℕ → IndexEntry
index_entry offset length = record {
  received_at = length;
  host = "router";
  offset = offset;
  length = length;
}

abbrev index : FileIndex
index = record { info = info 5; entries = index_entry 2 3 ∷ index_entry 0 2 ∷ [] }

refresh_index-grown_example :
    refresh_index decode_key (some index) (info 7) (bytes ++ more)
    ≡ build_index decode_key (info 7) (bytes ++ more)
unfolding build_index split_lines
refresh_index-grown_example =
    refresh_index-grown decode_key index (info 5) (info 7) bytes more refl refl refl refl
      (omega arith) refl

refresh_index-IsDescending_example :
    IsDescending (index_entry 2 3 ∷ index_entry 5 2 ∷ index_entry 0 2 ∷ [])
unfolding refresh_index split_lines
refresh_index-IsDescending_example =
    refresh_index-IsDescending decode_key (some index) (info 7) (bytes ++ more) (omega arith) refl

abbrev coding : Coding
coding = record {
  decode = λ line. some (stored "router" (entry (length line) 0));
  decode_error = λ line. "";
  hash = λ bytes. "hash";
}

abbrev start : Cursor
start = record { offset = 0; fingerprint = "" }

-- The second line is half written when the file is first read.
abbrev line_record : ℕ → ℕ → StoredRecord
line_record n at = record { message = stored "router" (entry n 0); file = "day"; offset = at }

read_file-resumed_example :
    read_file coding "day" start ((65 ∷ 10 ∷ 65 ∷ []) ++ (66 ∷ 10 ∷ []))
    ≡ add_records coding (line_record 2 2 ∷ []) (
        read_file coding "day"
          (record { offset = 2; fingerprint = "hash" })
          ((65 ∷ 10 ∷ 65 ∷ []) ++ (66 ∷ 10 ∷ [])))
unfolding read_file fingerprint_bytes
read_file-resumed_example =
    read_file-resumed coding "day" start (65 ∷ 10 ∷ 65 ∷ []) (66 ∷ 10 ∷ []) refl

abbrev climbing : Message
climbing = record (stored "a" (entry 1 0)) { source = " ../../etc/passwd:514" }

source_filename-IsFilename_example : IsFilename "etc_passwd_514.ndjson"
unfolding source_filename go_space trim
source_filename-IsFilename_example = source_filename-IsFilename (λ s. none) climbing

abbrev day : List MessageFile
day = record { key = "day"; bytes = 65 ∷ 10 ∷ 65 ∷ [] } ∷ []

abbrev day_cursors : Map Cursor
day_cursors = ("day", record { offset = 2; fingerprint = "hash" }) ∷ []

visit_after-IsQuiet_example : IsQuiet coding day_cursors (visit_after coding day day_cursors)
unfolding visit_after lookup insert remove
visit_after-IsQuiet_example = visit_after-IsQuiet coding day [] (tt, tt) refl
