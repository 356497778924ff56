-- ===== src/Storage/Reader/Again.antt =====
-- A visit of internal/storage/append_reader.go right after another one finds nothing new.
use logthing.Prelude.{
  ℕ, String, ◌≡◌, refl, sym, ap, ◌∙◌, inl, inr, Bool, true, false, not, ◌&&◌, ◌||◌, Option, none,
  some, List, [], ◌∷◌, ◌==◌, eq_iff, any, ltb, All, All_mono, arith, Bool-cases,
}
use logthing.Prelude.Maps.{Map, lookup, insert, lookup-insert, All-insert}
use logthing.Incidents.Types.{Cursor}
use logthing.Incidents.Worker.Reconcile.{
  StoredRecord, Visit, visited, partition_changed, visit_failed,
}
use logthing.Storage.Reader.{
  Coding, MessageFile, FileRead, read_to, changed, undecodable, add_record, read_file,
  cursor_or_start, visited_before, visit_read, visit_files, missing, unless_missing, visit_after,
}
use logthing.Storage.Reader.Resumes.{add_records, read_file-resumed}
use mathlib.Core.List.{append-nil}

-- No two files have the same path.
abbrev AreDistinct : List MessageFile → Type 0
AreDistinct [] = Unit
AreDistinct (f ∷ files) =
    All (λ (g : MessageFile). (g.key == f.key) ≡ false) files × AreDistinct files

-- A file that was read before is gone.
abbrev is_gone : List MessageFile → String × Cursor → Bool
is_gone files e = ltb 0 (e.1).offset && not (any (λ (f : MessageFile). f.key == e.0) files)

module _ (coding : Coding) where
  add_records-read_to :
      (rs : List StoredRecord) (c : Cursor) (r : FileRead)
      → add_records coding rs r ≡ read_to rs c
      → r ≡ read_to [] c
  add_records-read_to [] c r h = h
  add_records-read_to (x ∷ rs) c r h = add_records-read_to rs c r (tail (add_records coding rs r) h)
    where
      tail : (q : FileRead) → add_record coding x q ≡ read_to (x ∷ rs) c → q ≡ read_to rs c
      tail (read_to ys d) k = cc
      tail changed k = absurd (cc k)
      tail (undecodable t) k = absurd (cc k)

  -- Reading a file again from its new cursor gives no record and the same cursor.
  read_file_again :
      (key : String) (cursor : Cursor) (bytes : List ℕ) (rs : List StoredRecord) (c : Cursor)
      → read_file coding key cursor bytes ≡ read_to rs c
      → read_file coding key c bytes ≡ read_to [] c
  read_file_again key cursor bytes rs c h =
      let same = append-nil bytes in
      add_records-read_to rs c (read_file coding key c bytes)
        (sym (rw same at (read_file-resumed coding key cursor bytes [] h)) ∙ h)

  -- What a visit that came to the end has done with its first file.
  record FirstFile (next : Map Cursor) (f : MessageFile) (files : List MessageFile)
      (final : Map Cursor) : Type 0 where
    records : List StoredRecord
    later : List StoredRecord
    cursor : Cursor
    first :
        read_file coding f.key (cursor_or_start coding (lookup f.key next)) f.bytes
        ≡ read_to records cursor
    rest : visit_files coding (insert f.key cursor next) files ≡ visited later final

  first_file :
      (next : Map Cursor) (f : MessageFile) (files : List MessageFile) (rs : List StoredRecord)
      (final : Map Cursor)
      → visit_files coding next (f ∷ files) ≡ visited rs final
      → FirstFile next f files final
  unfolding visit_files
  first_file next f files rs final h =
      of_read (read_file coding f.key (cursor_or_start coding (lookup f.key next)) f.bytes) refl h
    where
      of_rest :
          (rs' : List StoredRecord) (c : Cursor) (v : Visit)
          → read_file coding f.key (cursor_or_start coding (lookup f.key next)) f.bytes
            ≡ read_to rs' c
          → visit_files coding (insert f.key c next) files ≡ v
          → visited_before coding rs' v ≡ visited rs final
          → FirstFile next f files final
      of_rest rs' c (visited later m) e k h = record {
        records = rs';
        later = later;
        cursor = c;
        first = e;
        rest = cc;
      }
      of_rest rs' c (partition_changed file t) e k h = absurd (cc h)
      of_rest rs' c (visit_failed t) e k h = absurd (cc h)

      of_read :
          (r : FileRead)
          → read_file coding f.key (cursor_or_start coding (lookup f.key next)) f.bytes ≡ r
          → visit_read coding f.key r (λ c. visit_files coding (insert f.key c next) files)
            ≡ visited rs final
          → FirstFile next f files final
      of_read (read_to rs' c) e h =
          of_rest rs' c (visit_files coding (insert f.key c next) files) e refl h
      of_read changed e h = absurd (cc h)
      of_read (undecodable t) e h = absurd (cc h)

  -- The map has a cursor of the file, behind which there is nothing more to read.
  abbrev IsRead : Map Cursor → MessageFile → Type 0
  IsRead m f =
      (c : Cursor) × (lookup f.key m ≡ some c) × (read_file coding f.key c f.bytes ≡ read_to [] c)

  keeps_others :
      (next : Map Cursor) (files : List MessageFile) (rs : List StoredRecord) (final : Map Cursor)
      (k : String)
      → visit_files coding next files ≡ visited rs final
      → All (λ (f : MessageFile). (f.key == k) ≡ false) files
      → lookup k final ≡ lookup k next
  unfolding visit_files
  keeps_others next [] rs final k h n = let same : final ≡ next = cc in ap (lookup k) same
  keeps_others next (f ∷ files) rs final k h (n, ns) =
      let v = first_file next f files rs final h in
      keeps_others (insert f.key v.cursor next) files v.later final k v.rest ns
      ∙ lookup-insert f.key k v.cursor next
      ∙ rw n

  all-IsRead :
      (next : Map Cursor) (files : List MessageFile) (rs : List StoredRecord) (final : Map Cursor)
      → AreDistinct files
      → visit_files coding next files ≡ visited rs final
      → All (IsRead final) files
  all-IsRead next [] rs final d h = tt
  all-IsRead next (f ∷ files) rs final (d, ds) h =
      let v = first_file next f files rs final h in
      let found : lookup f.key final ≡ some v.cursor =
        keeps_others (insert f.key v.cursor next) files v.later final f.key v.rest d
        ∙ lookup-insert f.key f.key v.cursor next
        ∙ rw ((eq_iff f.key f.key).1 refl) in
      (
        (v.cursor, found, read_file_again f.key _ f.bytes v.records v.cursor v.first),
        all-IsRead (insert f.key v.cursor next) files v.later final ds v.rest,
      )

  -- Writing what a map has changes nothing that is found in it.
  lookup-insert_same :
      (k j : String) (c : Cursor) (m : Map Cursor)
      → lookup k m ≡ some c
      → lookup j (insert k c m) ≡ lookup j m
  lookup-insert_same k j c m h = lookup-insert k j c m ∙ elim (Bool-cases (k == j)) [
    | inl e ↦ rw e (sym h ∙ ap (λ i. lookup i m) ((eq_iff k j).0 e))
    | inr e ↦ rw e
  ]

  -- A visit that finds nothing new.
  pub record IsQuiet (m : Map Cursor) (v : Visit) : Type 0 where
    pub cursors : Map Cursor
    pub nothing_new : v ≡ visited [] cursors
    pub same : (k : String) → lookup k cursors ≡ lookup k m

  visit_files-IsQuiet :
      (m : Map Cursor) (files : List MessageFile)
      → All (IsRead m) files
      → IsQuiet m (visit_files coding m files)
  unfolding visit_files
  visit_files-IsQuiet m [] h = record { cursors = m; nothing_new = refl; same = λ k. refl }
  visit_files-IsQuiet m (f ∷ files) ((c, found, read), h) =
      let m' = insert f.key c m in
      let kept : (k : String) → lookup k m' ≡ lookup k m =
        λ k. lookup-insert_same f.key k c m found in
      let q =
        visit_files-IsQuiet m' files
          (All_mono (λ (g : MessageFile) (r : IsRead m g). (r.0, kept g.key ∙ r.1, r.2)) files h) in
      record {
        cursors = q.cursors;
        nothing_new = rw (found, read) (ap (visited_before coding []) q.nothing_new);
        same = λ k. q.same k ∙ kept k;
      }

  none_gone :
      (files : List MessageFile) (m : Map Cursor)
      → missing coding files m ≡ none
      → All (λ e. is_gone files e ≡ false) m
  none_gone files [] h = tt
  none_gone files ((k, c) ∷ m) h = elim (Bool-cases (is_gone files (k, c))) [
    | inl e ↦ absurd (cc (rw e at h))
    | inr e ↦ (e, none_gone files m (rw e at h))
  ]

  missing-none :
      (files : List MessageFile) (m : Map Cursor)
      → All (λ e. is_gone files e ≡ false) m
      → missing coding files m ≡ none
  missing-none files [] h = refl
  missing-none files ((k, c) ∷ m) (e, h) = rw e (missing-none files m h)

  none_gone_after :
      (all : List MessageFile) (next : Map Cursor) (files : List MessageFile)
      (rs : List StoredRecord) (final : Map Cursor)
      → All (λ (f : MessageFile). any (λ (g : MessageFile). g.key == f.key) all ≡ true) files
      → All (λ e. is_gone all e ≡ false) next
      → visit_files coding next files ≡ visited rs final
      → All (λ e. is_gone all e ≡ false) final
  unfolding visit_files
  none_gone_after all next [] rs final here n h = let same : next ≡ final = cc in rw (← same) n
  none_gone_after all next (f ∷ files) rs final (p, here) n h =
      let v = first_file next f files rs final h in
      none_gone_after all (insert f.key v.cursor next) files v.later final here
        (All-insert (λ e. is_gone all e ≡ false) (λ e. is_gone all e ≡ false) f.key v.cursor next
          (ground arith) (λ j w ne q. q) n)
        v.rest

  unless_missing-visited :
      (o : Option String) (v : Visit) (rs : List StoredRecord) (next : Map Cursor)
      → unless_missing coding o v ≡ visited rs next
      → (o ≡ none) × (v ≡ visited rs next)
  unless_missing-visited none v rs next h = (refl, h)
  unless_missing-visited (some key) (visited xs m) rs next h = absurd (cc h)
  unless_missing-visited (some key) (partition_changed file t) rs next h = absurd (cc h)
  unless_missing-visited (some key) (visit_failed t) rs next h = absurd (cc h)

  all_here :
      (all files : List MessageFile)
      → ((k : String)
          → any (λ (g : MessageFile). g.key == k) files ≡ true
          → any (λ (g : MessageFile). g.key == k) all ≡ true)
      → All (λ (f : MessageFile). any (λ (g : MessageFile). g.key == f.key) all ≡ true) files
  all_here all [] h = tt
  all_here all (f ∷ files) h =
      let same = (eq_iff f.key f.key).1 refl in
      (h f.key (rw same), all_here all files (λ k e. h k (or_later (f.key == k) _ e)))
    where
      or_later : (a b : Bool) → b ≡ true → (a || b) ≡ true
      or_later true b e = refl
      or_later false b e = e

  -- After a visit that succeeded, another one of the same files succeeds, gives no record, and
  -- leaves every cursor as it is. No two files have the same path.
  pub visit_after-IsQuiet :
      (files : List MessageFile) (cursors : Map Cursor) {rs : List StoredRecord} {next : Map Cursor}
      → AreDistinct files
      → visit_after coding files cursors ≡ visited rs next
      → IsQuiet next (visit_after coding files next)
  unfolding visit_after
  visit_after-IsQuiet files cursors {rs} {next} d h =
      let (m, v) =
        unless_missing-visited (missing coding files cursors) (visit_files coding cursors files) rs
          next h in
      let here = all_here files files (λ k e. e) in
      let gone = none_gone_after files cursors files rs next here (none_gone files cursors m) v in
      let q = visit_files-IsQuiet next files (all-IsRead cursors files rs next d v) in
      record {
        cursors = q.cursors;
        nothing_new = rw (missing-none files next gone) q.nothing_new;
        same = q.same;
      }
