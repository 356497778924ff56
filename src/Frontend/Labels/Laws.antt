-- ===== src/Frontend/Labels/Laws.antt =====
-- The texts and groups of frontend/src/App.tsx, against what they are to say.
use logthing.Prelude.{
  ℕ, ◌+◌, ◌*◌, ◌≤◌, ◌<◌, ◌≡◌, refl, Bool, true, false, not, ◌&&◌, List, [], ◌∷◌, eq_iff, ◌↔◌, any,
  keep, length, length-append, All, arith, Bool-cases, inl, inr,
}
use logthing.Frontend.Types.{Incident, NotificationDelivery}
use logthing.Frontend.Labels.{
  duration_of, truthy, delivery_label, is_pending, is_active, is_resolved, current_incidents,
  resolved_incidents,
}

-- The hours and minutes shown are those that have passed in full, and the minutes are under an hour.
duration_of_lem :
    (milliseconds : ℕ)
    → let d = duration_of milliseconds in
      (d.minutes < 60)
      × (60000 * (60 * d.hours + d.minutes) ≤ milliseconds)
      × (milliseconds < 60000 * (60 * d.hours + d.minutes + 1))
unfolding duration_of
duration_of_lem milliseconds = (omega arith, omega arith, omega arith)

-- A delivery is out when it has a time of sending.
abbrev pub is_sent : NotificationDelivery → Bool
is_sent d = truthy d.sent_at

abbrev has_failed : NotificationDelivery → Bool
has_failed d = truthy d.last_error && not (truthy d.sent_at)

any_failed→any_unsent :
    (ds : List NotificationDelivery)
    → any has_failed ds ≡ true
    → any (λ d. not (truthy d.sent_at)) ds ≡ true
any_failed→any_unsent [] h = h
any_failed→any_unsent (d ∷ ds) h = ground (arith, any_failed→any_unsent ds)

All-sent :
    (ds : List NotificationDelivery)
    → any (λ d. not (truthy d.sent_at)) ds ≡ false
    → All (λ d. is_sent d ≡ true) ds
All-sent [] h = tt
All-sent (d ∷ ds) h = (ground arith, All-sent ds (ground arith))

-- The current incidents and the resolved ones are together as many as the incidents.
length-groups :
    (incidents : List Incident)
    → length (current_incidents incidents) + length (resolved_incidents incidents)
      ≡ length incidents
unfolding current_incidents resolved_incidents
length-groups incidents = rw length-append (groups incidents)
  where
    groups :
        (is : List Incident)
        → length (keep (λ i. is_active i.state) is)
            + length (keep (λ i. is_pending i.state) is)
            + length (keep (λ i. is_resolved i.state) is)
          ≡ length is
    groups [] = omega arith
    groups (i ∷ is) = ground (arith, groups is)

sent_none :
    (ds : List NotificationDelivery)
    → All (λ d. is_sent d ≡ true) ds
    → (any has_failed ds ≡ false) × (any (λ d. not (truthy d.sent_at)) ds ≡ false)
sent_none [] h = (refl, refl)
sent_none (d ∷ ds) (p, h) =
    let (f, u) = sent_none ds h in (rw p (ground arith), rw p (ground arith))

-- The label is "Delivered" exactly when there are deliveries and each of them has been sent.
pub delivery_label-delivered_iff :
    (ds : List NotificationDelivery)
    → (delivery_label ds ≡ "Delivered") ↔ ((0 < length ds) × All (λ d. is_sent d ≡ true) ds)
unfolding delivery_label
delivery_label-delivered_iff ds = (there, back)
  where
    there : delivery_label ds ≡ "Delivered" → (0 < length ds) × All (λ d. is_sent d ≡ true) ds
    there h = elim (Bool-cases (any (λ d. not (truthy d.sent_at)) ds)) [
      | inl u ↦ absurd (
          ground
            (arith, eq_iff "Delivery failed" "Delivered", eq_iff "Delivery pending" "Delivered"))
      | inr u ↦ (
        ground (arith, eq_iff "No notification" "Delivered", eq_iff "Delivery failed" "Delivered"),
        All-sent ds u,
      )
    ]

    back : (0 < length ds) × All (λ d. is_sent d ≡ true) ds → delivery_label ds ≡ "Delivered"
    back (n, h) = let (f, u) = sent_none ds h in ground arith
