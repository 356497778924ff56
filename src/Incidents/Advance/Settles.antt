-- ===== src/Incidents/Advance/Settles.antt =====
-- The loop of `advanceLocked` ends: each round leaves fewer trackers pending.
use mathlib.Core.List.{Memᴰ}
use mathlib.Core.Path.{subst}
use logthing.Prelude.{
  ℕ, zero, suc, ◌≤◌, ◌<◌, String, ◌≡◌, refl, ap, ◌⊎◌, inl, inr, Bool, true, false, none, some, [],
  ◌∷◌, eq_iff, length, arith, if◌then◌else◌, Option-cases,
}
use logthing.Prelude.Maps.{Map, remove, insert}
use logthing.Incidents.Types.{Phase, Config, Incident, Tracker, Snapshot}
use logthing.Incidents.Due.{skip, orphan, due, check, next_due}
use logthing.Incidents.Due.Earliest.{IsEarliest, next_due-IsEarliest}
use logthing.Incidents.Advance.{fire, confirm_failure, confirm_recovery, advance_from, advance}

abbrev pub is_pending : Phase → Bool
is_pending Phase.pending_failure = true
is_pending Phase.pending_recovery = true
is_pending _ = false

pub pending : Map Tracker → ℕ
pending [] = 0
pending ((_, t) ∷ m) = let rest = pending m in if is_pending t.phase then suc rest else rest

pending-le-length : (m : Map Tracker) → pending m ≤ length m
unfolding pending
pending-le-length [] = omega arith
pending-le-length ((_, t) ∷ m) = ground (arith, pending-le-length m)

pending-remove-le : (key : String) (m : Map Tracker) → pending (remove key m) ≤ pending m
unfolding pending remove
pending-remove-le key [] = omega arith
pending-remove-le key ((j, t) ∷ m) = ground (arith, pending-remove-le key m)

-- Removing a key whose tracker is pending lowers the number.
pending-remove :
    (key : String) (t : Tracker) (m : Map Tracker)
    → Memᴰ (key, t) m
    → is_pending t.phase ≡ true
    → pending (remove key m) < pending m
unfolding pending remove
pending-remove key t [] m h = elim m [ ]
pending-remove key t ((j, u) ∷ m) (Memᴰ.head e) h = ground (
  arith,
  pending-remove-le key m,
  eq_iff j key,
  ap (λ (x : String × Tracker). x.0) e,
  ap (λ (x : String × Tracker). is_pending x.1.phase) e,
)
pending-remove key t ((j, u) ∷ m) (Memᴰ.tail h) p = ground (arith, pending-remove key t m h p)

module _ (cfg : Config) where
  check-is_pending :
      (incidents : Map Incident) (now : ℕ) (t : Tracker)
      → (check cfg incidents now t ≡ skip) ⊎ (is_pending t.phase ≡ true)
  unfolding check
  check-is_pending incidents now t = ground arith

  pending-fire :
      (s : Snapshot) (key : String) (t : Tracker)
      → Memᴰ (key, t) s.trackers
      → is_pending t.phase ≡ true
      → pending (fire cfg s key t).trackers < pending s.trackers
  unfolding fire confirm_failure confirm_recovery insert pending
  pending-fire s key t m p = ground (arith, pending-remove key t s.trackers m p)

  pub next_due-IsPending :
      (s : Snapshot) (now : ℕ) (key : String) (t : Tracker)
      → next_due cfg s.incidents s.trackers now ≡ some (key, t)
      → Memᴰ (key, t) s.trackers × (is_pending t.phase ≡ true)
  next_due-IsPending s now key t e =
      let found =
        subst (IsEarliest cfg s.incidents now s.trackers) e
          (next_due-IsEarliest cfg s.incidents now s.trackers) in
      (found.0, is_due found.1 (check-is_pending s.incidents now t))
    where
      is_due :
          {a : ℕ → ℕ → Type 0}
          → (check cfg s.incidents now t ≡ orphan)
            ⊎ ((at : ℕ) × (p : ℕ) × (check cfg s.incidents now t ≡ due at p) × a at p)
          → (check cfg s.incidents now t ≡ skip) ⊎ (is_pending t.phase ≡ true)
          → is_pending t.phase ≡ true
      is_due f (inr h) = h
      is_due (inl o) (inl h) = cc
      is_due (inr (at, p, d, _)) (inl h) = cc

  -- One round: what is found is acted on.
  advance_from-none :
      (fuel : ℕ) (s : Snapshot) (now : ℕ)
      → next_due cfg s.incidents s.trackers now ≡ none
      → advance_from cfg fuel s now ≡ (s, false)
  unfolding advance_from
  advance_from-none zero s now e = refl
  advance_from-none (suc fuel) s now e = rw (e, advance_from)

  advance_from-some :
      (fuel : ℕ) (s : Snapshot) (now : ℕ) (key : String) (t : Tracker)
      → next_due cfg s.incidents s.trackers now ≡ some (key, t)
      → advance_from cfg (suc fuel) s now ≡ ((advance_from cfg fuel (fire cfg s key t) now).0, true)
  unfolding advance_from
  advance_from-some fuel s now key t e = rw (e, advance_from)

  abbrev IsSettled : ℕ → Snapshot → Type 0
  IsSettled now s = next_due cfg s.incidents s.trackers now ≡ none

  pending-fire_found :
      (s : Snapshot) (now : ℕ) (key : String) (t : Tracker)
      → next_due cfg s.incidents s.trackers now ≡ some (key, t)
      → pending (fire cfg s key t).trackers < pending s.trackers
  pending-fire_found s now key t e =
      let (m, p) = next_due-IsPending s now key t e in pending-fire s key t m p

  advance_from_settles :
      (fuel : ℕ) (s : Snapshot) (now : ℕ)
      → pending s.trackers ≤ fuel
      → IsSettled now (advance_from cfg fuel s now).0
  advance_from_settles zero s now h =
      elim (Option-cases (next_due cfg s.incidents s.trackers now)) [
        | inl e ↦ rw (advance_from-none zero s now e) e
        | inr ((key, t), e) ↦ absurd (omega (arith, pending-fire_found s now key t e))
      ]
  advance_from_settles (suc fuel) s now h =
      elim (Option-cases (next_due cfg s.incidents s.trackers now)) [
        | inl e ↦ rw (advance_from-none (suc fuel) s now e) e
        | inr ((key, t), e) ↦ rw (advance_from-some fuel s now key t e) (
            advance_from_settles fuel (fire cfg s key t) now
              (omega (arith, pending-fire_found s now key t e)))
      ]

  -- After `advanceLocked` no time that has come is left, and no tracker that has lost its
  -- incident is pending: the loop has ended by its own test, and the fuel was enough.
  pub advance_settles :
      (s : Snapshot) (now : ℕ)
      → let s' = (advance cfg s now).0 in next_due cfg s'.incidents s'.trackers now ≡ none
  unfolding advance
  advance_settles s now =
      advance_from_settles (length s.trackers) s now (pending-le-length s.trackers)

  -- A state in which nothing is due is left as it is, and is reported as unchanged.
  advance_settled : (s : Snapshot) (now : ℕ) → IsSettled now s → advance cfg s now ≡ (s, false)
  unfolding advance
  advance_settled s now e = advance_from-none (length s.trackers) s now e

  -- What every round keeps, the loop keeps.
  module _ {ℓ} (P : Snapshot → Type ℓ) (now : ℕ)
      (step : (s : Snapshot) (key : String) (t : Tracker)
        → next_due cfg s.incidents s.trackers now ≡ some (key, t)
        → P s
        → P (fire cfg s key t)) where
    advance_from_induction : (fuel : ℕ) (s : Snapshot) → P s → P (advance_from cfg fuel s now).0
    advance_from_induction zero s h = unfold advance_from in h
    advance_from_induction (suc fuel) s h =
        elim (Option-cases (next_due cfg s.incidents s.trackers now)) [
          | inl e ↦ rw (advance_from-none (suc fuel) s now e) h
          | inr ((key, t), e) ↦
              rw (advance_from-some fuel s now key t e)
                (advance_from_induction fuel (fire cfg s key t) (step s key t e h))
        ]

    pub advance_induction : (s : Snapshot) → P s → P (advance cfg s now).0
    unfolding advance
    advance_induction s h = advance_from_induction (length s.trackers) s h
