-- ===== src/Storage/Query/Loop.antt =====
-- The loop of `Query`, of internal/storage/query_index.go, on the list of the places that it meets.
use mathlib.Core.List.{append-nil, append_assoc}
use logthing.Prelude.{
  ℕ, zero, suc, ◌+◌, ◌-◌, ◌≤◌, ◌<◌, String, ◌≡◌, refl, sym, ap, ◌∙◌, ◌⊎◌, inl, inr, Bool, true,
  false, not, ◌&&◌, ◌||◌, Option, none, some, List, [], ◌∷◌, ◌++◌, ltb, keep, map, take, drop,
  length, length-append, All, arith, if◌then◌else◌, Bool-cases, Option-cases, take-none, drop-none,
}
use logthing.Prelude.Sorting.{IsSorted}
use logthing.Prelude.Sorting.Order.{IsOrder}
use logthing.Model.{Message}
use logthing.Storage.Query.{
  IndexEntry, IndexCursor, heap_pop, push_rest, is_before, Found, QueryResult, found, Plan,
  has_host, take_message, take_read, take_entry, stop_unless, query_loop, entries_left,
}
use logthing.Storage.Query.Merge.{Place, latest_first, IsHeap}
use logthing.Storage.Query.Sorted.{merged, merged-none, merged-some, heap_pop-Round}

pub latest_first-IsOrder : IsOrder latest_first
latest_first-IsOrder = record { total = λ a b. ground arith; trans = λ a b c h k. ground arith }

module _ (plan : Plan) where
  -- The loop on the list of places that it meets.
  pub consume : List Place → Found → QueryResult
  consume [] f = found f.messages
  consume ((path, e) ∷ ps) f =
      if not (ltb (length f.messages) plan.page_limit)
      then found f.messages
      else if is_before plan.since e
      then found f.messages
      else stop_unless plan (take_entry plan path e f) (consume ps)

  module _ (path : String) (e : IndexEntry) (ps : List Place) (f : Found) where
    consume-before :
        ltb (length f.messages) plan.page_limit ≡ true
        → is_before plan.since e ≡ true
        → consume ((path, e) ∷ ps) f ≡ found f.messages
    unfolding consume
    consume-before more b = rw (more, b)

    consume-not_before :
        ltb (length f.messages) plan.page_limit ≡ true
        → is_before plan.since e ≡ false
        → consume ((path, e) ∷ ps) f ≡ stop_unless plan (take_entry plan path e f) (consume ps)
    unfolding consume
    consume-not_before more b = rw (more, b)

  query_loop-none :
      (fuel : ℕ) (heap : List IndexCursor) (f : Found)
      → heap_pop heap ≡ none
      → query_loop plan (suc fuel) heap f ≡ found f.messages
  unfolding query_loop
  query_loop-none fuel heap f e = elim (Bool-cases (ltb (length f.messages) plan.page_limit)) [
    | inl h ↦ rw (h, e, query_loop)
    | inr h ↦ rw (h, query_loop)
  ]

  query_loop-some :
      (fuel : ℕ) (heap : List IndexCursor) (f : Found) (c : IndexCursor) (heap' : List IndexCursor)
      → heap_pop heap ≡ some (c, heap')
      → query_loop plan (suc fuel) heap f ≡ (
          if not (ltb (length f.messages) plan.page_limit)
          then found f.messages
          else if is_before plan.since c.entry
          then found f.messages
          else stop_unless plan
              (take_entry plan c.path c.entry f)
              (query_loop plan fuel (push_rest c.path c.order c.rest heap')))
  unfolding query_loop
  query_loop-some fuel heap f c heap' e = rw (e, query_loop)

  stop_unless-cong :
      (r : Option Found) (more more' : Found → QueryResult)
      → ((f : Found) → more f ≡ more' f)
      → stop_unless plan r more ≡ stop_unless plan r more'
  stop_unless-cong none more more' h = refl
  stop_unless-cong (some f) more more' h = h f

  pub query_loop-consume :
      (fuel : ℕ) (heap : List IndexCursor) (f : Found)
      → IsHeap heap
      → entries_left heap < fuel
      → query_loop plan fuel heap f ≡ consume (merged fuel heap) f
  unfolding consume
  query_loop-consume zero heap f h lt = absurd (omega arith)
  query_loop-consume (suc fuel) heap f h lt = elim (Option-cases (heap_pop heap)) [
    | inl e ↦
        query_loop-none fuel heap f e
        ∙ ap (λ ps. consume ps f) (sym (merged-none (suc fuel) heap e))
    | inr ((c, heap'), e) ↦
        let r = heap_pop-Round heap c heap' h e in
        let next = push_rest c.path c.order c.rest heap' in
        query_loop-some fuel heap f c heap' e
        ∙ ap
            (λ x.
              if not (ltb (length f.messages) plan.page_limit)
              then found f.messages
              else if is_before plan.since c.entry
              then found f.messages
              else x)
            (stop_unless-cong (take_entry plan c.path c.entry f) (query_loop plan fuel next)
              (consume (merged fuel next))
              (λ g. query_loop-consume fuel next g r.ordered (omega (arith, r.fewer))))
        ∙ ap (λ ps. consume ps f) (sym (merged-some fuel heap c heap' e))
  ]

  module _ (stored : String → IndexEntry → Message) where
    -- Whether an entry is of a chosen host and not before `since`.
    abbrev is_wanted : Place → Bool
    is_wanted p = not (is_before plan.since p.1) && has_host plan p.1

    abbrev is_match : Message → Bool
    is_match m = not plan.has_text || plan.matches m

    -- The messages of the places that match, in the places' order.
    abbrev pub hits : List Place → List Message
    hits ps = keep is_match (map (λ (p : Place). stored p.0 p.1) (keep is_wanted ps))

    hits_before :
        (p : Place) (ps : List Place)
        → is_before plan.since p.1 ≡ true
        → All (λ x. latest_first p x ≡ true) ps
        → hits ps ≡ []
    hits_before p [] h k = refl
    hits_before p (x ∷ ps) h (q, k) =
        ground (arith, hits_before p ps h k, still_before plan.since p x h q)
      where
        still_before :
            (since : Option ℕ) (p x : Place)
            → is_before since p.1 ≡ true
            → latest_first p x ≡ true
            → is_before since x.1 ≡ true
        still_before none p x h q = cc
        still_before (some at) p x h q = ground arith

    -- What the loop gives, of the matches that it has not yet met.
    abbrev pub page : Found → List Message → List Message
    page f ms =
        f.messages
        ++ take (plan.page_limit - length f.messages) (drop (plan.page_offset - f.skipped) ms)

    page_full :
        (f : Found) (ms : List Message)
        → plan.page_limit ≤ length f.messages
        → page f ms ≡ f.messages
    page_full f ms h =
        let e : plan.page_limit - length f.messages ≡ 0 = omega arith in
        rw e (append-nil f.messages)

    page_none : (f : Found) → page f [] ≡ f.messages
    page_none f =
        rw
          (
            drop-none {A = Message} (plan.page_offset - f.skipped),
            take-none {A = Message} (plan.page_limit - length f.messages),
          )
          (append-nil f.messages)

    page_skip :
        (f : Found) (m : Message) (ms : List Message)
        → f.skipped < plan.page_offset
        → page (record f { skipped = f.skipped + 1 }) ms ≡ page f (m ∷ ms)
    page_skip f m ms h =
        let e : plan.page_offset - f.skipped ≡ suc (plan.page_offset - (f.skipped + 1)) =
          omega arith in
        rw e

    page_take :
        (f : Found) (m : Message) (ms : List Message)
        → plan.page_offset ≤ f.skipped
        → length f.messages < plan.page_limit
        → page (record f { messages = f.messages ++ m ∷ [] }) ms ≡ page f (m ∷ ms)
    page_take f m ms h k =
        let e : plan.page_offset - f.skipped ≡ 0 = omega arith in
        let n = plan.page_limit - suc (length f.messages) in
        let e1 : plan.page_limit - length f.messages ≡ suc n = omega arith in
        let e2 : plan.page_limit - length (f.messages ++ m ∷ []) ≡ n =
          omega (arith, length-append f.messages (m ∷ [])) in
        rw (e, e1, e2) (append_assoc f.messages (m ∷ []) (take n ms))

    -- A message of a chosen host that is met.
    abbrev met : Message → List Message → List Message
    met m ms = if is_match m then m ∷ ms else ms

    take_message_page :
        (m : Message) (ms : List Message) (f : Found)
        → length f.messages < plan.page_limit
        → page (take_message plan m f) ms ≡ page f (met m ms)
    take_message_page m ms f h = ground (arith, page_skip f m ms, page_take f m ms)

    abbrev Stepped : Option Found → Found → List Message → List Message → Type 0
    Stepped r f ms ms' = (g : Found) × (r ≡ some g) × (page g ms ≡ page f ms')

    -- One entry that is not before `since`, as the loop takes it.
    take_entry_page :
        (path : String) (e : IndexEntry) (ps : List Place) (f : Found)
        → plan.read path e ≡ some (stored path e)
        → length f.messages < plan.page_limit
        → is_before plan.since e ≡ false
        → Stepped (take_entry plan path e f) f (hits ps) (hits ((path, e) ∷ ps))
    unfolding take_entry
    take_entry_page path e ps f r lt b = elim (Bool-cases (has_host plan e)) [
      | inr h ↦ rw (b, h) (f, refl, refl)
      | inl h ↦
          rw (b, h) (of_host (Bool-cases (not plan.has_text && ltb f.skipped plan.page_offset)))
    ]
      where
        m : Message
        m = stored path e

        of_host :
            (not plan.has_text && ltb f.skipped plan.page_offset ≡ true)
              ⊎ (not plan.has_text && ltb f.skipped plan.page_offset ≡ false)
            → Stepped
                (if not plan.has_text && ltb f.skipped plan.page_offset
                  then some (record f { skipped = f.skipped + 1 })
                  else take_read plan (plan.read path e) f)
                f
                (hits ps)
                (met m (hits ps))
        of_host (inl t) =
            rw t
              (record f { skipped = f.skipped + 1 }, refl, ground (arith, page_skip f m (hits ps)))
        of_host (inr t) =
            rw (t, r) (take_message plan m f, refl, take_message_page m (hits ps) f lt)

    pub consume-page :
        (ps : List Place) (f : Found)
        → All (λ (p : Place). plan.read p.0 p.1 ≡ some (stored p.0 p.1)) ps
        → IsSorted latest_first ps
        → consume ps f ≡ found (page f (hits ps))
    unfolding consume
    consume-page [] f r s = ap found (sym (page_none f))
    consume-page ((path, e) ∷ ps) f (r, rs) (late, s) =
        elim (Bool-cases (ltb (length f.messages) plan.page_limit)) [
          | inr full ↦ rw full (ap found (sym (page_full f (hits ((path, e) ∷ ps)) (ground arith))))
          | inl more ↦ elim (Bool-cases (is_before plan.since e)) [
            | inl b ↦
                consume-before path e ps f more b
                ∙ ap found (sym (rw (b, hits_before (path, e) ps b late) (page_none f)))
            | inr b ↦
                let (g, t, same) = take_entry_page path e ps f r (ground arith) b in
                consume-not_before path e ps f more b
                ∙ ap (λ x. stop_unless plan x (consume ps)) t
                ∙ consume-page ps g rs s
                ∙ ap found same
          ]
        ]
