-- ===== src/Storage/Reader/Resumes.antt =====
-- The reader of internal/storage/append_reader.go goes on where it stopped.
use logthing.Prelude.{
  ℕ, ◌+◌, ◌≤◌, String, ◌≡◌, refl, sym, ap, ◌∙◌, inl, inr, Bool, true, false, not, ◌&&◌, Option,
  none, some, List, [], ◌∷◌, ◌++◌, ◌==◌, eq_iff, ltb, drop, length, length-append, arith,
  Bool-cases,
}
use logthing.Model.{Message}
use logthing.Incidents.Types.{Cursor}
use logthing.Incidents.Worker.Reconcile.{StoredRecord}
use logthing.Storage.Reader.{
  Coding, ended_lines, FileRead, read_to, changed, undecodable, file_fingerprint, add_record,
  read_line, read_lines, is_changed, read_file,
}
use logthing.Storage.Reader.Bytes.{
  total, read_bytes, ended_lines-append, read_bytes-le, drop-drop, drop_before, length-drop,
  not_less, fingerprint_bytes-append,
}

module _ (coding : Coding) where
  -- Records in front of what is read behind them.
  abbrev pub add_records : List StoredRecord → FileRead → FileRead
  add_records [] r = r
  add_records (x ∷ xs) r = add_record coding x (add_records xs r)

  -- What a loop that came to the end has done with its first line.
  record FirstLine (file : List ℕ) (key : String) (at : ℕ) (line : List ℕ) (lines : List (List ℕ))
      (rs : List StoredRecord) (c : Cursor) : Type 0 where
    message : Message
    later : List StoredRecord
    decoded : coding.decode line ≡ some message
    rest : read_lines coding file key (at + length line) lines ≡ read_to later c
    first : rs ≡ record { message = message; file = key; offset = at + length line } ∷ later

  first_line :
      (file : List ℕ) (key : String) (at : ℕ) (line : List ℕ) (lines : List (List ℕ))
      (rs : List StoredRecord) (c : Cursor)
      → read_lines coding file key at (line ∷ lines) ≡ read_to rs c
      → FirstLine file key at line lines rs c
  unfolding read_lines
  first_line file key at line lines rs c h =
      of (coding.decode line) (read_lines coding file key (at + length line) lines) refl refl h
    where
      of :
          (d : Option Message) (r : FileRead)
          → coding.decode line ≡ d
          → read_lines coding file key (at + length line) lines ≡ r
          → read_line coding d key at line r ≡ read_to rs c
          → FirstLine file key at line lines rs c
      of none r e k h = absurd (cc h)
      of (some m) changed e k h = absurd (cc h)
      of (some m) (undecodable t) e k h = absurd (cc h)
      of (some m) (read_to later c') e k h = record {
        message = m;
        later = later;
        decoded = e;
        rest = cc;
        first = cc;
      }

  -- A loop that came to the end, and what the loop over more lines of the grown file does.
  record Resumed (file file' : List ℕ) (key : String) (at : ℕ) (lines more : List (List ℕ))
      (rs : List StoredRecord) (c : Cursor) : Type 0 where
    cursor : c ≡ record {
      offset = at + total lines;
      fingerprint = file_fingerprint coding file (at + total lines);
    }
    onward :
        read_lines coding file' key at (lines ++ more)
        ≡ add_records rs (read_lines coding file' key (at + total lines) more)

  read_lines-append :
      (file file' : List ℕ) (key : String) (at : ℕ) (lines more : List (List ℕ))
      (rs : List StoredRecord) (c : Cursor)
      → read_lines coding file key at lines ≡ read_to rs c
      → Resumed file file' key at lines more rs c
  unfolding read_lines
  read_lines-append file file' key at [] more rs c h =
      let none_read : rs ≡ [] = cc in
      let end : c ≡ record { offset = at; fingerprint = file_fingerprint coding file at } = cc in
      let same : at + 0 ≡ at = omega arith in
      record { cursor = rw (same, end); onward = rw (same, none_read) }
  read_lines-append file file' key at (line ∷ lines) more rs c h =
      let f = first_line file key at line lines rs c h in
      let r = read_lines-append file file' key (at + length line) lines more f.later c f.rest in
      let same : at + (length line + total lines) ≡ (at + length line) + total lines =
        omega arith in
      record {
        cursor = rw same r.cursor;
        onward = rw (same, f.decoded, f.first) (ap (add_record coding _) r.onward);
      }

  -- Growth does not make a file another one, as far as the cursor can tell.
  is_changed-append :
      (cursor : Cursor) (bytes more : List ℕ)
      → cursor.offset ≤ length bytes
      → is_changed coding cursor (bytes ++ more) ≡ is_changed coding cursor bytes
  unfolding is_changed file_fingerprint
  is_changed-append cursor bytes more h =
      let e1 : ltb (length bytes) cursor.offset ≡ false = ground arith in
      let e2 : ltb (length (bytes ++ more)) cursor.offset ≡ false =
        not_less (length (bytes ++ more)) cursor.offset (omega (arith, length-append bytes more)) in
      let same : file_fingerprint coding (bytes ++ more) cursor.offset
          ≡ file_fingerprint coding bytes cursor.offset =
        ap coding.hash (fingerprint_bytes-append bytes more cursor.offset h) in
      rw (e1, e2, same)

  -- The file that a cursor was just made for is not another one.
  new_cursor-unchanged :
      (bytes : List ℕ) (at : ℕ)
      → at ≤ length bytes
      → is_changed coding
          (record { offset = at; fingerprint = file_fingerprint coding bytes at })
          bytes
        ≡ false
  unfolding is_changed
  new_cursor-unchanged bytes at h =
      let e : ltb (length bytes) at ≡ false = not_less (length bytes) at h in
      let same =
        (eq_iff (file_fingerprint coding bytes at) (file_fingerprint coding bytes at)).1 refl in
      rw (e, same) (never (not (file_fingerprint coding bytes at == "")))
    where
      never : (b : Bool) → b && false ≡ false
      never true = refl
      never false = refl

  unchanged-le :
      (cursor : Cursor) (bytes : List ℕ)
      → is_changed coding cursor bytes ≡ false
      → cursor.offset ≤ length bytes
  unfolding is_changed
  unchanged-le cursor bytes h = elim (Bool-cases (ltb (length bytes) cursor.offset)) [
    | inl e ↦ absurd (cc (rw e at h))
    | inr e ↦ ground arith
  ]

  module _ (key : String) (cursor : Cursor) (bytes : List ℕ) where
    read_file-unchanged :
        is_changed coding cursor bytes ≡ false
        → read_file coding key cursor bytes
          ≡ read_lines coding bytes key cursor.offset (ended_lines (drop cursor.offset bytes))
    unfolding read_file
    read_file-unchanged e = rw e

    read_to-unchanged :
        (rs : List StoredRecord) (c : Cursor)
        → read_file coding key cursor bytes ≡ read_to rs c
        → is_changed coding cursor bytes ≡ false
    unfolding read_file
    read_to-unchanged rs c h = elim (Bool-cases (is_changed coding cursor bytes)) [
      | inl e ↦ absurd (cc (rw e at h))
      | inr e ↦ e
    ]

  -- After a file was read to a cursor and was appended to, reading it from the old cursor gives the
  -- records of the first reading and then those of a reading from the new cursor: no line is lost
  -- or read twice, also one that was half written at the first reading.
  pub read_file-resumed :
      (key : String) (cursor : Cursor) (bytes more : List ℕ) {rs : List StoredRecord} {c : Cursor}
      → read_file coding key cursor bytes ≡ read_to rs c
      → read_file coding key cursor (bytes ++ more)
        ≡ add_records rs (read_file coding key c (bytes ++ more))
  read_file-resumed key cursor bytes more {rs} {c} h =
      let e = read_to-unchanged key cursor bytes rs c h in
      let at = cursor.offset in
      let le = unchanged-le cursor bytes e in
      let file = bytes ++ more in
      let base = drop at bytes in
      let n = read_bytes base in
      let le' : at + n ≤ length bytes = omega (arith, read_bytes-le base, length-drop at bytes) in
      let later = ended_lines (drop (at + n) file) in
      let split : ended_lines (drop at file) ≡ ended_lines base ++ later =
        ap ended_lines (drop_before at bytes more le)
        ∙ ended_lines-append base more
        ∙ ap (λ l. ended_lines base ++ ended_lines (drop n l)) (sym (drop_before at bytes more le))
        ∙ ap (λ l. ended_lines base ++ ended_lines l) (drop-drop at n file) in
      let r =
        read_lines-append bytes file key at (ended_lines base) later rs c
          (sym (read_file-unchanged key cursor bytes e) ∙ h) in
      let next : Cursor = record {
        offset = at + n;
        fingerprint = file_fingerprint coding bytes (at + n);
      } in
      read_file-unchanged key cursor file (is_changed-append cursor bytes more le ∙ e)
      ∙ ap (read_lines coding file key at) split
      ∙ r.onward
      ∙ ap (add_records rs) (
          sym (
            read_file-unchanged key next file
              (is_changed-append next bytes more le' ∙ new_cursor-unchanged bytes (at + n) le')))
      ∙ ap (λ x. add_records rs (read_file coding key x file)) (sym r.cursor)
