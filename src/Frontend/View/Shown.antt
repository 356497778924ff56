-- ===== src/Frontend/View/Shown.antt =====
-- What the summary of the incidents on the page of frontend/src/App.tsx says, against what is known.
use Prim.Native.Char.{code}
use Prim.Native.String
use text.Mathlib.TextLemmas.{cons-append, head-eq_of_cons-eq}
use logthing.Prelude.{
  ℕ, ◌+◌, String, ◌≡◌, ◌≢◌, ◌↔◌, ◌⊎◌, refl, sym, ap, ◌∙◌, inl, inr, Bool, true, false, Option, List,
  [], ◌∷◌, keep, length, length-append, All, ltb, arith, if◌then◌else◌, Bool-cases,
}
use logthing.Prelude.Text.{decimal}
use logthing.Prelude.Text.Decimal.{IsNumeral, decimal-IsNumeral}
use logthing.Frontend.Types.{
  Incident, IncidentState, pending_failure, active, pending_recovery, resolved,
}
use logthing.Frontend.Labels.{truthy, is_pending, is_active, is_resolved, current_incidents}
use logthing.Frontend.View.Messages.{summary_title}

-- A text that starts with digits does not start with this letter.
numeral-append-ne :
    (s t : String) → IsNumeral s → String.◌++◌ s t ≢ "Primary WAN and monitored backups are healthy"
numeral-append-ne String.[] t h = elim h [ ]
numeral-append-ne (String.◌∷◌ c s) t h = λ e.
    let same : c ≡ "P" = head-eq_of_cons-eq (sym (cons-append c s t) ∙ e) in
    let k : code c ≡ 80 = ap code same in absurd (ground arith)

abbrev AreResolved : List Incident → Type 0
AreResolved = All (λ (i : Incident). is_resolved i.state ≡ true)

state_cases :
    (s : IncidentState)
    → ((is_resolved s ≡ true) × (is_active s ≡ false) × (is_pending s ≡ false))
      ⊎ ((is_resolved s ≡ false) × (is_active s ≡ true) × (is_pending s ≡ false))
      ⊎ ((is_resolved s ≡ false) × (is_active s ≡ false) × (is_pending s ≡ true))
state_cases resolved = inl (refl, refl, refl)
state_cases active = inr (inl (refl, refl, refl))
state_cases pending_recovery = inr (inl (refl, refl, refl))
state_cases pending_failure = inr (inr (refl, refl, refl))

abbrev kept : (IncidentState → Bool) → List Incident → ℕ
kept p incidents = length (keep (λ (i : Incident). p i.state) incidents)

none_current :
    (incidents : List Incident)
    → kept is_active incidents + kept is_pending incidents ≡ 0
    → AreResolved incidents
none_current [] h = tt
none_current (i ∷ incidents) h = elim (state_cases i.state) [
  | inl (r, a, p) ↦ (r, none_current incidents (rw (a, p) at h))
  | inr (inl (r, a, p)) ↦ absurd (omega (arith, rw (a, p) at h))
  | inr (inr (r, a, p)) ↦ absurd (omega (arith, rw (a, p) at h))
]

all_resolved :
    (incidents : List Incident)
    → AreResolved incidents
    → kept is_active incidents + kept is_pending incidents ≡ 0
all_resolved [] h = omega arith
all_resolved (i ∷ incidents) (r, h) = elim (state_cases i.state) [
  | inl (_, a, p) ↦ rw (a, p) (all_resolved incidents h)
  | inr (inl (n, a, p)) ↦ cc
  | inr (inr (n, a, p)) ↦ cc
]

length-current_incidents :
    (incidents : List Incident)
    → length (current_incidents incidents) ≡ kept is_active incidents + kept is_pending incidents
unfolding current_incidents
length-current_incidents incidents =
    length-append (keep (λ (i : Incident). is_active i.state) incidents) _

no_count :
    (n : ℕ) (rest : String)
    → (if ltb 0 n
        then String.◌++◌ (decimal n) rest
        else "Primary WAN and monitored backups are healthy")
      ≡ "Primary WAN and monitored backups are healthy"
    → n ≡ 0
no_count n rest h = elim (Bool-cases (ltb 0 n)) [
  | inl e ↦ absurd (numeral-append-ne (decimal n) rest (decimal-IsNumeral n) (rw e at h))
  | inr e ↦ ground arith
]

-- The page says that primary WAN and backups are healthy exactly when there is no error of loading
-- the incidents and each incident that it has is resolved.
pub summary_title-healthy_iff :
    (failure : Option String) (incidents : List Incident)
    → (summary_title failure (current_incidents incidents)
        ≡ "Primary WAN and monitored backups are healthy")
      ↔ ((truthy failure ≡ false) × AreResolved incidents)
summary_title-healthy_iff failure incidents = elim (Bool-cases (truthy failure)) [
  | inl e ↦ rw e (λ h. cc, λ h. cc)
  | inr e ↦
      let n = length (current_incidents incidents) in
      let counted = length-current_incidents incidents in
      rw e (
        λ h. (refl, none_current incidents (omega (arith, counted, no_count n _ h))),
        λ h.
            let none_left : n ≡ 0 = omega (arith, counted, all_resolved incidents h.1) in
            rw none_left,
      )
]
