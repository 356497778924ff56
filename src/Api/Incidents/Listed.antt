-- ===== src/Api/Incidents/Listed.antt =====
-- The incidents that the browser gets for each of its three requests, of internal/api/router.go.
use logthing.Prelude.{
  ℕ, zero, suc, ◌+◌, ◌-◌, ◌≤◌, ◌<◌, ◌≡◌, refl, sym, ap, ◌∙◌, inl, inr, Bool, true, false, ◌||◌,
  List, [], ◌∷◌, keep, map, min, take, length, ltb, arith, Bool-cases, All, keep-All_true, String,
  ◌==◌,
}
use logthing.Prelude.Sorting.{IsSorted, All-sort, keep-IsSorted}
use logthing.Prelude.Sorting.Order.{IsOrder, sort-IsSorted}
use logthing.Prelude.Text.{trim, go_space}
use logthing.Prelude.Text.Decimal.{atoi}
use logthing.Frontend.Api.{ListedState, incidents_query}
use logthing.Incidents.Types.{State, Incident, NotificationJob, Snapshot}
use logthing.Incidents.Service.{
  values, later_first, earlier_first, paged, list, same_state, notifications_for,
}
use logthing.Api.Incidents.{
  Reply, incidents, is_listed, incidents_reply, all_incidents, handle_incidents,
}

min_of : (a b : ℕ) → ltb a b ≡ true → min a b ≡ a
min_of a b h = let lt : a < b = ground arith in omega arith

min_over : (a b : ℕ) → ltb a b ≡ false → min a b ≡ b
min_over a b h = let le : b ≤ a = ground arith in omega arith

ltb-min : (a b : ℕ) → ltb (min a b) b ≡ ltb a b
ltb-min a b = elim (Bool-cases (ltb a b)) [
  | inl e ↦ rw (min_of a b e)
  | inr e ↦ rw (min_over a b e, e) (ground arith)
]

module _ {ℓ} {A : Type ℓ} where
  take-all : (n : ℕ) (xs : List A) → length xs ≤ n → take n xs ≡ xs
  take-all zero [] h = refl
  take-all zero (x ∷ xs) h = absurd (omega arith)
  take-all (suc n) [] h = refl
  take-all (suc n) (x ∷ xs) h = ap (◌∷◌ x) (take-all n xs (omega arith))

  take-min : (n : ℕ) (xs : List A) → take (min n (length xs)) xs ≡ take n xs
  take-min n xs = elim (Bool-cases (ltb n (length xs))) [
    | inl e ↦ let same : min n (length xs) ≡ n = min_of n (length xs) e in rw same
    | inr e ↦
        let same : min n (length xs) ≡ length xs = min_over n (length xs) e in
        rw same (take-all (length xs) xs (omega arith) ∙ sym (take-all n xs (ground arith)))
  ]

  length-take-min : (n : ℕ) (xs : List A) → length (take n xs) ≡ min n (length xs)
  length-take-min zero xs = omega arith
  length-take-min (suc n) [] = omega arith
  length-take-min (suc n) (x ∷ xs) = omega (arith, length-take-min n xs)

keep-cong :
    (p q : Incident → Bool) (xs : List Incident)
    → ((x : Incident) → p x ≡ q x)
    → keep p xs ≡ keep q xs
keep-cong p q [] h = refl
keep-cong p q (x ∷ xs) h = rw (h x, keep-cong p q xs h)

-- What the page means by a state: an active incident may be recovering.
abbrev belongs : ListedState → State → Bool
belongs ListedState.pending_failure s = same_state s State.pending_failure
belongs ListedState.active s = same_state s State.active || same_state s State.pending_recovery
belongs ListedState.resolved s = same_state s State.resolved

is_listed-pending_failure :
    (s : State) → is_listed "pending_failure" s ≡ belongs ListedState.pending_failure s
unfolding is_listed
is_listed-pending_failure State.pending_failure = refl
is_listed-pending_failure State.active = refl
is_listed-pending_failure State.pending_recovery = refl
is_listed-pending_failure State.resolved = refl

is_listed-active : (s : State) → is_listed "active" s ≡ belongs ListedState.active s
unfolding is_listed
is_listed-active State.pending_failure = refl
is_listed-active State.active = refl
is_listed-active State.pending_recovery = refl
is_listed-active State.resolved = refl

is_listed-resolved : (s : State) → is_listed "resolved" s ≡ belongs ListedState.resolved s
unfolding is_listed
is_listed-resolved State.pending_failure = refl
is_listed-resolved State.active = refl
is_listed-resolved State.pending_recovery = refl
is_listed-resolved State.resolved = refl

-- The first incidents of a list with their jobs, up to the limit, and whether there are more.
abbrev first_incidents : ℕ → Snapshot → List Incident → Reply
first_incidents limit s filtered =
    let shown = take limit filtered in
    incidents (map (λ (i : Incident). (i, notifications_for i.id s)) shown) (record {
      count = length shown;
      limit = limit;
      offset = 0;
      has_more = ltb limit (length filtered);
    })

incidents_reply-first :
    (limit : ℕ) (s : Snapshot) (filtered : List Incident)
    → incidents_reply limit 0 s filtered ≡ first_incidents limit s filtered
unfolding incidents_reply
incidents_reply-first limit s filtered =
    let n = length filtered in
    let e0 : min 0 n ≡ 0 = omega arith in
    let e1 : min (0 + limit) n ≡ min limit n = omega arith in
    let e2 : min limit n - 0 ≡ min limit n = omega arith in
    rw (e0, e1, e2, take-min limit filtered, ltb-min limit n, length-take-min limit filtered)

abbrev pub asked : ListedState → Snapshot → List Incident
asked state s = keep (λ (i : Incident). belongs state i.state) (list all_incidents s)

handle_incidents-state :
    (s : Snapshot) (state : ListedState)
    → handle_incidents s (incidents_query state) ≡ incidents_reply 100 0 s (asked state s)
unfolding handle_incidents atoi incidents_query trim go_space
handle_incidents-state s ListedState.pending_failure =
    ap (incidents_reply 100 0 s)
      (keep-cong _ _ (list all_incidents s) (λ i. is_listed-pending_failure i.state))
handle_incidents-state s ListedState.active =
    ap (incidents_reply 100 0 s)
      (keep-cong _ _ (list all_incidents s) (λ i. is_listed-active i.state))
handle_incidents-state s ListedState.resolved =
    ap (incidents_reply 100 0 s)
      (keep-cong _ _ (list all_incidents s) (λ i. is_listed-resolved i.state))

later_first-IsOrder : IsOrder later_first
later_first-IsOrder = record { total = λ a b. ground arith; trans = λ a b c h k. ground arith }

asked-IsSorted : (state : ListedState) (s : Snapshot) → IsSorted later_first (asked state s)
unfolding paged
asked-IsSorted state s =
    keep-IsSorted later_first (λ (i : Incident). belongs state i.state) (list all_incidents s)
      (sort-IsSorted later_first later_first-IsOrder _)

-- The jobs are those of this incident.
abbrev pub AreOf : String → List NotificationJob → Type 0
AreOf id jobs = All (λ (job : NotificationJob). (job.incident_id == id) ≡ true) jobs

notifications_for-AreOf : (id : String) (s : Snapshot) → AreOf id (notifications_for id s)
notifications_for-AreOf id s =
    All-sort earlier_first _ _
      (keep-All_true (λ (job : NotificationJob). job.incident_id == id) (values s.jobs))

-- For each state that the browser asks for, the server answers with the first 100 incidents of the
-- service that are in it, active ones also while their recovery is being confirmed, each with what
-- the service lists as its jobs, and says whether there are more; the incidents stand latest start
-- first, and what is listed with an incident are jobs of that incident only.
pub handle_incidents-listed :
    (s : Snapshot) (state : ListedState)
    → (handle_incidents s (incidents_query state) ≡ first_incidents 100 s (asked state s))
      × IsSorted later_first (asked state s)
      × ((id : String) → AreOf id (notifications_for id s))
handle_incidents-listed s state = (
  handle_incidents-state s state ∙ incidents_reply-first 100 s (asked state s),
  asked-IsSorted state s,
  λ id. notifications_for-AreOf id s,
)
