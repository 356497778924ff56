-- ===== src/Incidents/Due.antt =====
-- `nextDueTrackerLocked` of internal/incidents/engine.go: the tracker whose time comes first.
pub mod Earliest
use logthing.Prelude.{
  ℕ, ◌+◌, String, Bool, true, false, ◌&&◌, ◌||◌, Option, none, some, List, [], ◌∷◌, ◌==◌, ltb, eqb,
  if◌then◌else◌,
}
use logthing.Prelude.Maps.{Map, lookup}
use logthing.Incidents.Types.{Phase, Config, Incident, Tracker}

-- What one round of the loop finds of a tracker: nothing to do, an incident that is missing, or a
-- time that has come, with its priority.
pub data Check : Type 0 where
  skip orphan : Check
  due : (at priority : ℕ) → Check

pub record Candidate : Type 0 where
  pub key : String
  pub tracker : Tracker
  pub at : ℕ
  pub priority : ℕ

abbrev due_unless_after : ℕ → ℕ → ℕ → Check
due_unless_after now at priority = if ltb now at then skip else due at priority

abbrev check_recovery : ℕ → Tracker → Option Incident → Check
check_recovery now t none = orphan
check_recovery now t (some i) = due_unless_after now (t.recovery_since + i.recovered_after) 0

-- `!found || dueAt.Before(selectedAt) || dueAt.Equal(selectedAt) && priority < selectedPriority`
abbrev pub choose : Option Candidate → Candidate → Candidate
choose none c = c
choose (some best) c =
    if ltb c.at best.at || (eqb c.at best.at && ltb c.priority best.priority) then c else best

abbrev chosen : Option Candidate → Option (String × Tracker)
chosen none = none
chosen (some c) = some (c.key, c.tracker)

module _ (cfg : Config) where
  abbrev failure_priority : Incident → ℕ
  failure_priority i = if i.interface == cfg.interface then 1 else 2

  abbrev check_failure : ℕ → Tracker → Option Incident → Check
  check_failure now t none = orphan
  check_failure now t (some i) =
      due_unless_after now (t.pending_since + i.down_after) (failure_priority i)

  abbrev check_phase : Phase → ℕ → Tracker → Option Incident → Check
  check_phase Phase.pending_failure now t found = check_failure now t found
  check_phase Phase.pending_recovery now t found = check_recovery now t found
  check_phase _ now t found = skip

  unfoldable pub check : Map Incident → ℕ → Tracker → Check
  check incidents now t = check_phase t.phase now t (lookup t.incident_id incidents)

  -- The loop over the trackers.
  unfoldable pub scan :
      Map Incident → ℕ → Option Candidate → Map Tracker → Option (String × Tracker)
  scan incidents now best [] = chosen best
  scan incidents now best ((key, t) ∷ rest) = elim (check incidents now t) [
    | skip ↦ scan incidents now best rest
    | orphan ↦ some (key, t)
    | due at priority ↦
        scan incidents now
          (some (choose best (record { key = key; tracker = t; at = at; priority = priority })))
          rest
  ]

  unfoldable pub next_due : Map Incident → Map Tracker → ℕ → Option (String × Tracker)
  unfolding check scan
  next_due incidents trackers now = scan incidents now none trackers
