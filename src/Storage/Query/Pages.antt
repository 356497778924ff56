-- ===== src/Storage/Query/Pages.antt =====
-- `Query` of internal/storage/query_index.go against what it promises: a page of the messages that
-- match, latest first.
use logthing.Prelude.{
  ℕ, suc, ◌-◌, String, ◌≡◌, ap, ◌∙◌, Bool, Option, some, List, [], take, drop, All, arith,
}
use logthing.Prelude.Sorting.{sort, All-sort}
use logthing.Prelude.Sorting.Order.{sort-IsSorted}
use logthing.Model.{Message}
use logthing.Storage.Filter.{TextTools, compile_text_filter}
use logthing.Storage.Query.{
  Query, IndexEntry, Partition, initial_heap, Found, found, Plan, entries_left, plan_of, run_plan,
  query,
}
use logthing.Storage.Query.Merge.{Place, latest_first}
use logthing.Storage.Query.Sorted.{
  merged, merged-sort, AreDescending, places_until, initial_heap-from,
}
use logthing.Storage.Query.Loop.{
  latest_first-IsOrder, consume, query_loop-consume, hits, consume-page,
}

module _ (tools : TextTools) (read : String → IndexEntry → Option Message) where
  run_plan-page :
      (until : Option ℕ) (partitions : List Partition) (plan : Plan)
      (stored : String → IndexEntry → Message)
      → AreDescending partitions
      → All
          (λ (p : Place). plan.read p.0 p.1 ≡ some (stored p.0 p.1))
          (places_until until partitions)
      → run_plan tools read until partitions plan
        ≡ found (
            take plan.page_limit (
              drop plan.page_offset
                (hits plan stored (sort latest_first (places_until until partitions)))))
  run_plan-page until ps plan stored d r =
      let (h, o, e) = initial_heap-from until 0 ps d in
      let heap = initial_heap until 0 ps in
      let none_yet : Found = record { messages = []; skipped = 0 } in
      let sorted = sort latest_first (places_until until ps) in
      let same : merged (suc (entries_left heap)) heap ≡ sorted =
        merged-sort (suc (entries_left heap)) heap h (omega arith) ∙ ap (sort latest_first) e in
      query_loop-consume plan (suc (entries_left heap)) heap none_yet h (omega arith)
      ∙ ap (λ ms. consume plan ms none_yet) same
      ∙ consume-page plan stored sorted none_yet (All-sort latest_first _ (places_until until ps) r)
          (sort-IsSorted latest_first latest_first-IsOrder (places_until until ps))
      ∙ ap found (whole plan (hits plan stored sorted))
    where
      whole :
          (plan : Plan) (ms : List Message)
          → take (plan.page_limit - 0) (drop (plan.page_offset - 0) ms)
            ≡ take plan.page_limit (drop plan.page_offset ms)
      whole plan ms =
          let e1 : plan.page_limit - 0 ≡ plan.page_limit = omega arith in
          let e2 : plan.page_offset - 0 ≡ plan.page_offset = omega arith in rw (e1, e2)

  -- The messages that match, latest first.
  abbrev pub all_hits :
      List Partition → Query → (String → IndexEntry → Message) → (Message → Bool) → List Message
  all_hits partitions q stored matches =
      hits (plan_of tools read q matches) stored
        (sort latest_first (places_until q.until partitions))

  -- What the query is to give: the matches without the first `offset` of them, and at most `limit`.
  abbrev query_page :
      List Partition → Query → (String → IndexEntry → Message) → (Message → Bool) → List Message
  query_page partitions q stored matches =
      let plan = plan_of tools read q matches in
      take plan.page_limit (drop plan.page_offset (all_hits partitions q stored matches))

  -- Where each index has its entries latest first, the filter compiles, and the line of each entry
  -- can be read, the query gives a page and no error: the messages that match, of the chosen hosts
  -- and in the span of time, latest first by a stable sort (entries of the same time by partition
  -- and place), less the offset, up to the limit (200 where none is given). The heap's loop ends
  -- by itself: it never runs out of fuel.
  pub query-page :
      (partitions : List Partition) (q : Query) (stored : String → IndexEntry → Message)
      {matches : Message → Bool}
      → AreDescending partitions
      → compile_text_filter tools q.text ≡ some matches
      → All (λ (p : Place). read p.0 p.1 ≡ some (stored p.0 p.1)) (places_until q.until partitions)
      → query tools read partitions q ≡ found (query_page partitions q stored matches)
  unfolding query
  query-page ps q stored {matches} d c r =
      rw (c, query) (run_plan-page q.until ps (plan_of tools read q matches) stored d r)
