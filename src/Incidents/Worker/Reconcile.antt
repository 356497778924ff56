-- ===== src/Incidents/Worker/Reconcile.antt =====
-- `reconcile`, `tick`, `recordError` and `Health` of internal/incidents/worker.go. The reader of the
-- log is a parameter. The mutexes make each of them one step.
pub mod Order
pub mod Settles
use Prim.Native.Char.{code}
use logthing.Prelude.{
  ℕ, ◌+◌, ◌-◌, String, Bool, true, false, not, ◌&&◌, ◌||◌, Option, none, some, List, [], ◌∷◌, ◌==◌,
  ltb, leb, eqb, keep, map, length, max, if◌then◌else◌,
}
use logthing.Prelude.Text.{concat, decimal, is_some}
use logthing.Prelude.Maps.{Map, lookup}
use logthing.Prelude.Sorting.{sort}
use logthing.Model.{Message}
use logthing.Incidents.Types.{Config, Cursor, Snapshot}
use logthing.Incidents.Classify.{classify}
use logthing.Incidents.Observe.{Platform}
use logthing.Incidents.Service.{Observation, Error, Saved, apply, tick, pending_notifications}
use logthing.Incidents.Rebuild.{rebuild}
use logthing.Incidents.Worker.Notices.{Outside}
use logthing.Incidents.Worker.Dispatch.{dispatch}

-- `storage.StoredRecord`
pub record StoredRecord : Type 0 where
  pub message : Message
  pub file : String
  pub offset : ℕ

-- What `VisitAfter` gives: the records after the cursors and the new cursors; the file that was
-- changed under its cursor; or another error.
pub data Visit : Type 0 where
  visited : List StoredRecord → Map Cursor → Visit
  partition_changed : (file error : String) → Visit
  visit_failed : (error : String) → Visit

-- `<=` on texts.
unfoldable pub leb_text : String → String → Bool
leb_text String.[] t = true
leb_text (String.◌∷◌ c s) String.[] = false
leb_text (String.◌∷◌ c s) (String.◌∷◌ d t) =
    let rest = leb_text s t in
    if ltb (code c) (code d) then true else if eqb (code c) (code d) then rest else false

-- The negation of the comparison that the records are sorted by, with the arguments turned around.
unfoldable pub at_or_before : StoredRecord → StoredRecord → Bool
at_or_before a b =
    if eqb a.message.received_at b.message.received_at
    then (if a.file == b.file then leb a.offset b.offset else leb_text a.file b.file)
    else leb a.message.received_at b.message.received_at

-- What is read of the log: the changed file if all of it is read again.
pub record Source : Type 0 where
  pub rebuilding : Option String
  pub records : List StoredRecord
  pub next : Map Cursor

pub data ReadResult : Type 0 where
  source : Source → ReadResult
  unread : String → ReadResult

pub data WorkerError : Type 0 where
  read_failed : String → WorkerError
  apply_failed advance_failed dispatch_failed : Error → WorkerError

pub record Health : Type 0 where
  pub running : Bool
  pub last_reconciled_at : Option ℕ
  pub last_processed_at : Option ℕ
  pub last_error : String
  pub pending_jobs : ℕ

pub record Worker : Type 0 where
  pub engine : Snapshot
  pub health : Health

abbrev is_new_in : Option Cursor → ℕ → Bool
is_new_in none offset = true
is_new_in (some cursor) offset = ltb cursor.offset offset

-- Whether a record may be reported, by the state before it was read.
module _ (started_at : ℕ) (before : Snapshot) where
  abbrev is_recent : StoredRecord → Bool
  is_recent r =
      not (r.message.transport == "import")
      && (before.bootstrapped || ltb started_at r.message.received_at)

  unfoldable pub is_eligible : Option String → StoredRecord → Bool
  is_eligible none r = is_recent r
  is_eligible (some changed_file) r =
      if r.file == changed_file
      then is_recent r
        && not (eqb before.last_checkpoint_at 0)
        && ltb before.last_checkpoint_at r.message.received_at
      else is_recent r && is_new_in (lookup r.file before.cursors) r.offset

  abbrev pub observation_of : Option String → StoredRecord → Observation
  observation_of rebuilding r = record {
    message = r.message;
    notify_eligible = is_eligible rebuilding r;
    source_ref = concat (r.file ∷ ":" ∷ decimal r.offset ∷ []);
  }

  unfoldable pub observations_of : Source → List Observation
  observations_of src = map (observation_of src.rebuilding) (sort at_or_before src.records)

-- The latest time of the records.
abbrev later_of : ℕ → Option ℕ → Option ℕ
later_of at none = some at
later_of at (some latest) = some (max at latest)

abbrev last_processed : List StoredRecord → Option ℕ
last_processed [] = none
last_processed (r ∷ records) = later_of r.message.received_at (last_processed records)

module _ (cfg : Config) (visit : Map Cursor → Visit) where
  -- Only messages that the engine knows are kept.
  abbrev supported : List StoredRecord → List StoredRecord
  supported records =
      keep (λ (r : StoredRecord). is_some (classify r.message cfg.interface)) records

  abbrev read_again : String → Visit → ReadResult
  read_again file (visited records next) =
      source (record { rebuilding = some file; records = supported records; next = next })
  read_again file (partition_changed _ error) = unread error
  read_again file (visit_failed error) = unread error

  abbrev read_first : Visit → ReadResult
  read_first (visited records next) =
      source (record { rebuilding = none; records = supported records; next = next })
  read_first (partition_changed file error) = read_again file (visit [])
  read_first (visit_failed error) = unread error

  unfoldable pub read : Map Cursor → ReadResult
  read cursors = read_first (visit cursors)

abbrev or_else : Option ℕ → Option ℕ → Option ℕ
or_else none old = old
or_else (some new) old = some new

module _ (save : Snapshot → Option String) (p : Platform) (cfg : Config) (o : Outside)
    (visit : Map Cursor → Visit) (started_at : ℕ) (public_url : String) (now : ℕ) where
  abbrev pub take_in : Source → Snapshot → Saved
  take_in src s =
      let observations = observations_of started_at s src in
      if is_some src.rebuilding
      then rebuild save p cfg observations src.next now s
      else apply save p cfg observations src.next now s

  abbrev pub done : Source → Snapshot → Health → Health
  done src s h = record h {
    last_reconciled_at = some now;
    last_processed_at = or_else (last_processed src.records) h.last_processed_at;
    last_error = "";
    pending_jobs = length (pending_notifications s);
  }

  abbrev pub after_dispatch : Source → Health → Saved → Worker × Option WorkerError
  after_dispatch src h (s, some e) = (record { engine = s; health = h }, some (dispatch_failed e))
  after_dispatch src h (s, none) = (record { engine = s; health = done src s h }, none)

  abbrev pub after_tick : Source → Health → Saved → Worker × Option WorkerError
  after_tick src h (s, some e) = (record { engine = s; health = h }, some (advance_failed e))
  after_tick src h (s, none) = after_dispatch src h (dispatch save o public_url now s)

  abbrev pub after_apply : Source → Health → Saved → Worker × Option WorkerError
  after_apply src h (s, some e) = (record { engine = s; health = h }, some (apply_failed e))
  after_apply src h (s, none) = after_tick src h (tick save p cfg now s)

  abbrev pub reconcile_read : Worker → ReadResult → Worker × Option WorkerError
  reconcile_read w (unread error) = (w, some (read_failed error))
  reconcile_read w (source src) = after_apply src w.health (take_in src w.engine)

  -- `reconcile`
  unfoldable pub reconcile : Worker → Worker × Option WorkerError
  reconcile w = reconcile_read w (read cfg visit w.engine.cursors)

  abbrev tick_then : Saved → Saved
  tick_then (s, some e) = (s, some e)
  tick_then (s, none) = dispatch save o public_url now s

  -- `tick` of the worker.
  abbrev worker_tick : Snapshot → Saved
  worker_tick s = tick_then (tick save p cfg now s)

-- `recordError`
abbrev record_error : String → Worker → Worker
record_error error w = record w {
  health = record w.health {
    last_error = error;
    pending_jobs = length (pending_notifications w.engine);
  };
}

-- `Health`: whether the worker runs and has not reconciled for a minute.
abbrev is_stale_health : Health → ℕ → Bool
is_stale_health h now =
    h.running && (elim h.last_reconciled_at [ none ↦ true | some at ↦ ltb 60000000000 (now - at) ])
