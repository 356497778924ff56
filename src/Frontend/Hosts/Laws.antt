-- ===== src/Frontend/Hosts/Laws.antt =====
-- What `sortedUniqueHosts` and `toggleHost` of frontend/src/App.tsx do to a list of hosts.
use logthing.Prelude.{
  String, ◌≡◌, refl, ◌∙◌, ap, ◌≢◌, inl, inr, Bool, false, not, ◌&&◌, ◌||◌, List, [], ◌∷◌, ◌++◌,
  ◌==◌, eq_iff, any, any-append, keep, map, All, All-keep, arith, if◌then◌else◌, Bool-cases,
  if_both,
}
use logthing.Prelude.Text.{js_space}
use logthing.Prelude.Text.Trim.{trim_idem}
use logthing.Prelude.Sorting.{keep-IsSorted, insert_sorted, sort, IsSorted, All-sort}
use logthing.Prelude.Sorting.Order.{IsOrder, any-insert_sorted, any-sort, sort-IsSorted}
use logthing.Frontend.Api.{trim_js}
use logthing.Frontend.Hosts.{includes, distinct, sorted_unique_hosts, toggle_selection}

abbrev pub IsDistinct : List String → Type 0
IsDistinct [] = Unit
IsDistinct (x ∷ xs) = (includes xs x ≡ false) × IsDistinct xs

includes-keep_ne :
    (h host : String) (xs : List String)
    → includes (keep (λ x. not (x == host)) xs) h ≡ (not (h == host) && includes xs h)
includes-keep_ne h host [] = ground arith
includes-keep_ne h host (x ∷ xs) =
    ground (arith, includes-keep_ne h host xs, eq_iff x host, eq_iff x h, eq_iff h host)

includes-keep_nonblank :
    (h : String) (xs : List String)
    → includes (keep (λ x. not (x == "")) xs) h ≡ (not (h == "") && includes xs h)
includes-keep_nonblank h xs = includes-keep_ne h "" xs

includes-distinct : (h : String) (xs : List String) → includes (distinct xs) h ≡ includes xs h
unfolding distinct
includes-distinct h [] = refl
includes-distinct h (x ∷ xs) =
    ground
      (arith, includes-keep_ne h x (distinct xs), includes-distinct h xs, eq_iff x h, eq_iff h x)

includes-map_trim :
    (h : String) (xs : List String) → includes (map trim_js xs) h ≡ any (λ x. trim_js x == h) xs
includes-map_trim h [] = refl
includes-map_trim h (x ∷ xs) = rw (includes-map_trim h xs)

keep-IsDistinct : (p : String → Bool) (xs : List String) → IsDistinct xs → IsDistinct (keep p xs)
keep-IsDistinct p [] h = tt
keep-IsDistinct p (x ∷ xs) (n, h) = elim (Bool-cases (p x)) [
  | inl e ↦ rw e (not_kept xs n, keep-IsDistinct p xs h)
  | inr e ↦ rw e (keep-IsDistinct p xs h)
]
  where
    not_kept : (ys : List String) → includes ys x ≡ false → includes (keep p ys) x ≡ false
    not_kept [] m = refl
    not_kept (y ∷ ys) m = ground (arith, not_kept ys)

distinct-IsDistinct : (xs : List String) → IsDistinct (distinct xs)
unfolding distinct
distinct-IsDistinct [] = tt
distinct-IsDistinct (x ∷ xs) = (
  includes-keep_ne x x (distinct xs) ∙ rw ((eq_iff x x).1 refl),
  keep-IsDistinct (λ h. not (h == x)) (distinct xs) (distinct-IsDistinct xs),
)

keep-All_nonblank : (xs : List String) → All (λ h. (h == "") ≡ false) (keep (λ h. not (h == "")) xs)
keep-All_nonblank [] = tt
keep-All_nonblank (x ∷ xs) = elim (Bool-cases (x == "")) [
  | inl e ↦ rw e (keep-All_nonblank xs)
  | inr e ↦ rw e (e, keep-All_nonblank xs)
]

map-All_trimmed : (xs : List String) → All (λ h. trim_js h ≡ h) (map trim_js xs)
map-All_trimmed [] = tt
map-All_trimmed (x ∷ xs) = (trim_idem js_space x, map-All_trimmed xs)

distinct-All {κ} : (P : String → Type κ) (xs : List String) → All P xs → All P (distinct xs)
unfolding distinct
distinct-All P [] h = tt
distinct-All P (x ∷ xs) (p, h) =
    (p, All-keep P (λ y. not (y == x)) (distinct xs) (distinct-All P xs h))

module _ (before_eq : String → String → Bool) where
  -- A list of hosts as the page keeps it: each is trimmed and not blank, none comes twice, and
  -- they stand in the order of the comparison.
  pub record IsCanonical (hosts : List String) : Type 0 where
    pub nonblank : All (λ h. (h == "") ≡ false) hosts
    pub trimmed : All (λ h. trim_js h ≡ h) hosts
    pub distinct : IsDistinct hosts
    pub sorted : IsSorted before_eq hosts

  insert_sorted-IsDistinct :
      (x : String) (xs : List String)
      → includes xs x ≡ false
      → IsDistinct xs
      → IsDistinct (insert_sorted before_eq x xs)
  unfolding insert_sorted
  insert_sorted-IsDistinct x [] n h = (refl, tt)
  insert_sorted-IsDistinct x (y ∷ ys) n (m, h) = elim (Bool-cases (before_eq x y)) [
    | inl e ↦ rw e (n, (m, h))
    | inr e ↦ rw e (
      any-insert_sorted before_eq (λ z. z == y) x ys ∙ ground (arith, eq_iff x y, eq_iff y x),
      insert_sorted-IsDistinct x ys (ground arith) h,
    )
  ]

  sort-IsDistinct : (xs : List String) → IsDistinct xs → IsDistinct (sort before_eq xs)
  unfolding sort
  sort-IsDistinct [] h = tt
  sort-IsDistinct (x ∷ xs) (n, h) =
      insert_sorted-IsDistinct x (sort before_eq xs) (any-sort before_eq (λ z. z == x) xs ∙ n)
        (sort-IsDistinct xs h)

  -- A host is in the result exactly when it is not blank and is one of the given hosts, trimmed.
  pub includes-sorted_unique_hosts :
      (h : String) (hosts : List String)
      → includes (sorted_unique_hosts before_eq hosts) h
        ≡ (not (h == "") && any (λ raw. trim_js raw == h) hosts)
  unfolding sorted_unique_hosts
  includes-sorted_unique_hosts h hosts =
      any-sort before_eq (λ x. x == h) (distinct (keep (λ x. not (x == "")) (map trim_js hosts)))
      ∙ includes-distinct h (keep (λ x. not (x == "")) (map trim_js hosts))
      ∙ includes-keep_nonblank h (map trim_js hosts)
      ∙ ap (λ b. not (h == "") && b) (includes-map_trim h hosts)

  module _ (o : IsOrder before_eq) where
    -- Whatever hosts are given, the result is trimmed, without blanks or repetitions, and sorted.
    pub sorted_unique_hosts-IsCanonical :
        (hosts : List String) → IsCanonical (sorted_unique_hosts before_eq hosts)
    unfolding sorted_unique_hosts
    sorted_unique_hosts-IsCanonical hosts =
        let kept = keep (λ h. not (h == "")) (map trim_js hosts) in
        record {
          nonblank =
              All-sort before_eq _ (distinct kept)
                (distinct-All _ kept (keep-All_nonblank (map trim_js hosts)));
          trimmed = All-sort before_eq _ (distinct kept) (
              distinct-All _ kept
                (All-keep _ (λ h. not (h == "")) (map trim_js hosts) (map-All_trimmed hosts)));
          distinct = sort-IsDistinct (distinct kept) (distinct-IsDistinct kept);
          sorted = sort-IsSorted before_eq o (distinct kept);
        }

any_trimmed :
    (h : String) (xs : List String)
    → All (λ x. trim_js x ≡ x) xs
    → any (λ raw. trim_js raw == h) xs ≡ includes xs h
any_trimmed h [] _ = refl
any_trimmed h (x ∷ xs) (p, ps) = rw (p, any_trimmed h xs ps)

includes_nonblank :
    (h : String) (xs : List String)
    → All (λ x. (x == "") ≡ false) xs
    → (not (h == "") && includes xs h) ≡ includes xs h
includes_nonblank h [] _ = ground arith
includes_nonblank h (x ∷ xs) (p, ps) =
    ground (arith, includes_nonblank h xs ps, eq_iff x h, eq_iff x "", eq_iff h "")

any-added :
    (h host : String) (xs : List String)
    → All (λ x. trim_js x ≡ x) xs
    → trim_js host ≡ host
    → any (λ raw. trim_js raw == h) (xs ++ host ∷ []) ≡ (includes xs h || host == h)
any-added h host xs all t =
    any-append (λ raw. trim_js raw == h) xs (host ∷ [])
    ∙ rw (any_trimmed h xs all, t) (ground arith)

module _ (before_eq : String → String → Bool) where
  -- Toggling a trimmed host that is not blank, in a selection that is as `sortedUniqueHosts` makes
  -- them, turns its own membership over and leaves that of every other host.
  pub includes-toggle_selection :
      (host h : String) (current : List String)
      → IsCanonical before_eq current
      → trim_js host ≡ host
      → host ≢ ""
      → includes (toggle_selection before_eq host current) h
        ≡ (if h == host then not (includes current host) else includes current h)
  unfolding toggle_selection
  includes-toggle_selection host h current c t n = elim (Bool-cases (includes current host)) [
    | inl there ↦ rw there (includes-keep_ne h host current ∙ ground (arith, eq_iff h host))
    | inr absent ↦ rw absent (
        includes-sorted_unique_hosts before_eq h (current ++ host ∷ [])
        ∙ ap (λ b. not (h == "") && b) (any-added h host current c.trimmed t)
        ∙ ground (
          arith,
          includes_nonblank h current c.nonblank,
          eq_iff h host,
          eq_iff host h,
          eq_iff h "",
        ))
  ]

  -- Toggling keeps the selection canonical.
  pub toggle_selection-IsCanonical :
      IsOrder before_eq
      → (host : String) (current : List String) → IsCanonical before_eq current
      → IsCanonical before_eq (toggle_selection before_eq host current)
  unfolding toggle_selection
  toggle_selection-IsCanonical o host current c =
      if_both (IsCanonical before_eq) (includes current host) _ _
        (λ _.
          let p = λ (value : String). not (value == host) in
          record {
            nonblank = All-keep _ p current c.nonblank;
            trimmed = All-keep _ p current c.trimmed;
            distinct = keep-IsDistinct p current c.distinct;
            sorted = keep-IsSorted before_eq p current c.sorted;
          })
        (λ _. sorted_unique_hosts-IsCanonical before_eq o (current ++ host ∷ []))

  -- Toggling a trimmed host that is not blank twice gives back the selection, host by host, if the
  -- selection is as `sortedUniqueHosts` makes them.
  pub toggle_selection_twice :
      IsOrder before_eq
      → (host h : String) (current : List String) → IsCanonical before_eq current
      → trim_js host ≡ host
      → host ≢ ""
      → includes (toggle_selection before_eq host (toggle_selection before_eq host current)) h
        ≡ includes current h
  toggle_selection_twice o host h current c t n =
      let next = toggle_selection before_eq host current in
      includes-toggle_selection host h next (toggle_selection-IsCanonical o host current c) t n
      ∙ ground (
        arith,
        includes-toggle_selection host h current c t n,
        includes-toggle_selection host host current c t n,
        eq_iff h host,
        eq_iff host host,
      )
