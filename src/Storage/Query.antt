-- ===== src/Storage/Query.antt =====
-- `Query` of internal/storage/query_index.go: the indexes of the partitions, each latest first, are
-- merged by a heap, and only the lines of the page are read. The query is not cancelled meanwhile.
pub mod Merge
pub mod Sorted
pub mod Loop
pub mod Pages
use logthing.Prelude.{
  ℕ, zero, suc, ◌+◌, String, Bool, true, false, not, ◌&&◌, ◌||◌, Option, none, some, List, [], ◌∷◌,
  ◌++◌, ◌==◌, ltb, leb, eqb, any, length, if◌then◌else◌,
}
use logthing.Prelude.Int.{ℤ, pos_part}
use logthing.Model.{Message}
use logthing.Storage.Filter.{TextTools, trim_space, selected_hosts, compile_text_filter}

-- `storage.Query`
pub record Query : Type 0 where
  pub text : String
  pub hosts : List String
  pub limit : ℤ
  pub offset : ℤ
  pub since : Option ℕ
  pub until : Option ℕ

pub record IndexEntry : Type 0 where
  pub received_at : ℕ
  pub host : String
  pub offset : ℕ
  pub length : ℕ

-- A partition and its index.
pub record Partition : Type 0 where
  pub path : String
  pub entries : List IndexEntry

-- `indexCursor`: the entry at the position, and those behind it.
pub record IndexCursor : Type 0 where
  pub path : String
  pub entry : IndexEntry
  pub rest : List IndexEntry
  pub order : ℕ

-- `Less` of the heap.
pub less : IndexCursor → IndexCursor → Bool
less a b =
    if eqb a.entry.received_at b.entry.received_at
    then ltb a.order b.order
    else ltb b.entry.received_at a.entry.received_at

-- The heap is the list of what is in it, by `order`. `heap.Pop` takes out a cursor that no other
-- one is less than.
abbrev pub pop_or :
    IndexCursor
    → List IndexCursor
    → Option (IndexCursor × List IndexCursor)
    → Option (IndexCursor × List IndexCursor)
pop_or c cs none = some (c, cs)
pop_or c cs (some (d, rest)) = if less d c then some (d, c ∷ rest) else some (c, cs)

pub heap_pop : List IndexCursor → Option (IndexCursor × List IndexCursor)
unfolding less
heap_pop [] = none
heap_pop (c ∷ cs) = pop_or c cs (heap_pop cs)

-- `heap.Push`
pub heap_push : IndexCursor → List IndexCursor → List IndexCursor
heap_push c [] = c ∷ []
heap_push c (d ∷ heap) =
    let later = heap_push c heap in if ltb c.order d.order then c ∷ d ∷ heap else d ∷ later

-- The position moves on; a cursor at its end is not pushed back.
pub push_rest : String → ℕ → List IndexEntry → List IndexCursor → List IndexCursor
unfolding heap_push
push_rest path order [] heap = heap
push_rest path order (e ∷ rest) heap =
    heap_push (record { path = path; entry = e; rest = rest; order = order }) heap

abbrev pub is_after : Option ℕ → IndexEntry → Bool
is_after none e = false
is_after (some until) e = ltb until e.received_at

abbrev pub is_before : Option ℕ → IndexEntry → Bool
is_before none e = false
is_before (some since) e = ltb e.received_at since

-- `sort.Search`: the entries from the first one on that is not after `until`.
pub from_until : Option ℕ → List IndexEntry → List IndexEntry
from_until until [] = []
from_until until (e ∷ entries) =
    let later = from_until until entries in if is_after until e then later else e ∷ entries

-- The loop over the partitions, the one with the number `order` first.
pub initial_heap : Option ℕ → ℕ → List Partition → List IndexCursor
unfolding push_rest from_until
initial_heap until order [] = []
initial_heap until order (p ∷ ps) =
    push_rest p.path order (from_until until p.entries) (initial_heap until (suc order) ps)

-- What has been found so far.
pub record Found : Type 0 where
  pub messages : List Message
  pub skipped : ℕ

-- The messages, or the error.
pub data QueryResult : Type 0 where
  found : List Message → QueryResult
  invalid_filter unreadable : QueryResult
  -- The loop had no fuel left.
  exhausted : QueryResult

-- A query after its parameters are read. `read` opens, reads and decodes the line of an entry.
pub record Plan : Type 0 where
  pub page_limit : ℕ
  pub page_offset : ℕ
  pub since : Option ℕ
  pub hosts : List String
  pub has_text : Bool
  pub matches : Message → Bool
  pub read : String → IndexEntry → Option Message

abbrev pub has_host : Plan → IndexEntry → Bool
has_host plan e = not (ltb 0 (length plan.hosts)) || any (λ h. h == e.host) plan.hosts

module _ (plan : Plan) where
  -- The part of the loop's body behind the test of the hosts: none is an error.
  abbrev pub take_message : Message → Found → Found
  take_message m f =
      if plan.has_text && not (plan.matches m)
      then f
      else if ltb f.skipped plan.page_offset
      then record f { skipped = f.skipped + 1 }
      else record f { messages = f.messages ++ m ∷ [] }

  abbrev pub take_read : Option Message → Found → Option Found
  take_read none f = none
  take_read (some m) f = some (take_message m f)

  pub take_entry : String → IndexEntry → Found → Option Found
  take_entry path e f =
      if not (has_host plan e)
      then some f
      else if not plan.has_text && ltb f.skipped plan.page_offset
      then some (record f { skipped = f.skipped + 1 })
      else take_read (plan.read path e) f

  abbrev pub stop_unless : Option Found → (Found → QueryResult) → QueryResult
  stop_unless none more = unreadable
  stop_unless (some f) more = more f

  -- The loop, with fuel.
  pub query_loop : ℕ → List IndexCursor → Found → QueryResult
  unfolding heap_pop push_rest take_entry
  query_loop zero heap f = exhausted
  query_loop (suc fuel) heap f =
      if not (ltb (length f.messages) plan.page_limit)
      then found f.messages
      else elim (heap_pop heap) [
        | none ↦ found f.messages
        | some (c, heap') ↦
            if is_before plan.since c.entry
            then found f.messages
            else stop_unless (take_entry c.path c.entry f)
                (query_loop fuel (push_rest c.path c.order c.rest heap'))
      ]

-- The number of entries in the heap.
abbrev pub entries_left : List IndexCursor → ℕ
entries_left [] = 0
entries_left (c ∷ heap) = suc (length c.rest) + entries_left heap

module _ (tools : TextTools) (read : String → IndexEntry → Option Message) where
  abbrev default_query_limit : ℕ
  default_query_limit = 200

  abbrev pub plan_of : Query → (Message → Bool) → Plan
  plan_of q matches = record {
    page_limit = if ltb 0 (pos_part q.limit) then pos_part q.limit else default_query_limit;
    page_offset = pos_part q.offset;
    since = q.since;
    hosts = selected_hosts q.hosts;
    has_text = not (tools.to_lower (trim_space q.text) == "");
    matches = matches;
    read = read;
  }

  -- Each round takes one entry out of the heap.
  abbrev pub run_plan : Option ℕ → List Partition → Plan → QueryResult
  run_plan until partitions plan =
      let heap = initial_heap until 0 partitions in
      query_loop plan (suc (entries_left heap)) heap (record { messages = []; skipped = 0 })

  -- `Query`, on the partitions in the order of `messageFiles`.
  pub query : List Partition → Query → QueryResult
  query partitions q = elim (compile_text_filter tools q.text) [
    | none ↦ invalid_filter
    | some matches ↦ run_plan q.until partitions (plan_of q matches)
  ]
