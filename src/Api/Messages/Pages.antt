-- ===== src/Api/Messages/Pages.antt =====
-- The pages that `handleMessages` of internal/api/router.go gives to the browser: with the query of
-- internal/storage behind it, and the request of frontend/src/api.ts before it.
use logthing.Prelude.{
  ℕ, zero, suc, ◌+◌, ◌≤◌, ◌<◌, String, ◌≡◌, refl, ap, ◌∙◌, Bool, false, Option, none, some, List,
  [], ◌∷◌, take, drop, length, All, ltb, arith, if◌then◌else◌, if_both,
}
use logthing.Prelude.Int.{pos}
use logthing.Prelude.Text.Decimal.{int_limit}
use logthing.Frontend.Api.{trim_js, ListMessagesParams, messages_query}
use logthing.Model.{Message}
use logthing.Storage.Filter.{TextTools, compile_text_filter}
use logthing.Storage.Query.{Query, IndexEntry, Partition, found, query}
use logthing.Storage.Query.Merge.{Place}
use logthing.Storage.Query.Sorted.{AreDescending, places_until}
use logthing.Storage.Query.Pages.{all_hits, query-page}
use logthing.Api.Query.{max_message_limit}
use logthing.Api.Query.Sent.{AreSendable, parse_messages_query-messages_query}
use logthing.Api.Messages.{Reply, messages, reply_to, handle_messages}

module _ {ℓ} {A : Type ℓ} where
  take-take-suc : (n : ℕ) (xs : List A) → take n (take (suc n) xs) ≡ take n xs
  take-take-suc zero xs = refl
  take-take-suc (suc n) [] = refl
  take-take-suc (suc n) (x ∷ xs) = ap (◌∷◌ x) (take-take-suc n xs)

  take-suc_short :
      (n : ℕ) (xs : List A) → ltb n (length (take (suc n) xs)) ≡ false → take (suc n) xs ≡ take n xs
  take-suc_short zero [] h = refl
  take-suc_short zero (x ∷ xs) h = absurd (ground arith)
  take-suc_short (suc n) [] h = refl
  take-suc_short (suc n) (x ∷ xs) h = ap (◌∷◌ x) (take-suc_short n xs (ground arith))

  -- Whether one more was found than the limit is whether there are more behind the page.
  ltb-length-take-suc : (n : ℕ) (xs : List A) → ltb n (length (take (suc n) xs)) ≡ ltb n (length xs)
  ltb-length-take-suc zero [] = refl
  ltb-length-take-suc zero (x ∷ xs) = ground arith
  ltb-length-take-suc (suc n) [] = refl
  ltb-length-take-suc (suc n) (x ∷ xs) = ground (arith, ltb-length-take-suc n xs)

  shown_page :
      (n : ℕ) (xs : List A)
      → (if ltb n (length (take (suc n) xs)) then take n (take (suc n) xs) else take (suc n) xs)
        ≡ take n xs
  shown_page n xs =
      if_both (λ (l : List A). l ≡ take n xs) (ltb n (length (take (suc n) xs))) _ _
        (λ _. take-take-suc n xs) (take-suc_short n xs)

  ltb-length-drop : (n o : ℕ) (xs : List A) → ltb n (length (drop o xs)) ≡ ltb (o + n) (length xs)
  ltb-length-drop n zero xs = ap (λ k. ltb k (length xs)) (omega arith)
  ltb-length-drop n (suc o) [] = ground arith
  ltb-length-drop n (suc o) (x ∷ xs) = ground (arith, ltb-length-drop n o xs)

abbrev page_reply : ListMessagesParams → List Message → Reply
page_reply p hits =
    let shown = take p.limit (drop p.offset hits) in
    messages shown (record {
      count = length shown;
      limit = p.limit;
      offset = p.offset;
      has_more = ltb (p.offset + p.limit) (length hits);
    })

module _ (tools : TextTools) (read : String → IndexEntry → Option Message)
    (parse_time : String → Option ℕ) where
  -- The query that the request of the browser becomes.
  abbrev browser_query : ListMessagesParams → Query
  browser_query p = record {
    text = trim_js p.query;
    hosts = p.hosts;
    limit = pos p.limit;
    offset = pos p.offset;
    since = none;
    until = none;
  }

  reply_to-page :
      (p : ListMessagesParams) (hits : List Message)
      → reply_to (browser_query p) (some (found (take (suc p.limit) (drop p.offset hits))))
        ≡ page_reply p hits
  reply_to-page p hits =
      let rest = drop p.offset hits in
      let more = ltb p.limit (length (take (suc p.limit) rest)) in
      ap
        (λ (shown : List Message).
          messages shown
            (record { count = length shown; limit = p.limit; offset = p.offset; has_more = more }))
        (shown_page p.limit rest)
      ∙ ap
          (λ (b : Bool). messages (take p.limit rest) (record {
            count = length (take p.limit rest);
            limit = p.limit;
            offset = p.offset;
            has_more = b;
          }))
          (ltb-length-take-suc p.limit rest ∙ ltb-length-drop p.limit p.offset hits)

  -- A page as it comes to the browser from the store: the matches, latest first, behind the offset, at most as
  -- many as the limit, and whether there are more behind them. The request's limit is one that the
  -- server takes, its offset fits an `int`, its hosts arrive as they are and its filter compiles;
  -- each index has its entries latest first, and the line of each entry can be read.
  pub handle_messages-page :
      (partitions : List Partition) (p : ListMessagesParams)
      (stored : String → IndexEntry → Message) {matches : Message → Bool}
      → 0 < p.limit
      → p.limit ≤ max_message_limit
      → p.offset < int_limit
      → AreSendable p.hosts
      → AreDescending partitions
      → compile_text_filter tools (trim_js p.query) ≡ some matches
      → All (λ (e : Place). read e.0 e.1 ≡ some (stored e.0 e.1)) (places_until none partitions)
      → handle_messages parse_time (λ q. some (query tools read partitions q)) (messages_query p)
        ≡ page_reply p (all_hits tools read partitions (browser_query p) stored matches)
  unfolding handle_messages
  handle_messages-page ps p stored {matches} l l' o h d c r =
      let q = browser_query p in
      let more = record q { limit = pos (p.limit + 1) } in
      let e : (if ltb 0 (p.limit + 1) then p.limit + 1 else 200) ≡ suc p.limit = ground arith in
      rw (parse_messages_query-messages_query parse_time p l l' o h) (
        ap (λ r. reply_to q (some r)) (query-page tools read ps more stored d c r)
        ∙ ap
            (λ n.
              reply_to q
                (some (found (take n (drop p.offset (all_hits tools read ps q stored matches))))))
            e
        ∙ reply_to-page p (all_hits tools read ps q stored matches))
