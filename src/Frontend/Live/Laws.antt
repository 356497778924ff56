-- ===== src/Frontend/Live/Laws.antt =====
-- What a live message does to the list of frontend/src/App.tsx.
use logthing.Prelude.{
  ℕ, zero, suc, String, ◌≡◌, refl, ◌∙◌, ap, Bool, false, not, ◌&&◌, ◌||◌, Option, List, [], ◌∷◌,
  ◌==◌, eq_iff, any, keep, take, length, arith, ltb,
}
use logthing.Prelude.Int.{ℤ}
use logthing.Prelude.Sorting.Order.{any-sort}
use logthing.Frontend.Types.{SyslogMessage}
use logthing.Frontend.Live.{latest_first, merge_message, next_messages}

abbrev pub has_id : String → List SyslogMessage → Bool
has_id id messages = any (λ m. m.id == id) messages

abbrev pub HasDistinctIds : List SyslogMessage → Type 0
HasDistinctIds [] = Unit
HasDistinctIds (x ∷ xs) = (has_id x.id xs ≡ false) × HasDistinctIds xs

has_id-without :
    (i id : String) (xs : List SyslogMessage)
    → has_id i (keep (λ m. not (m.id == id)) xs) ≡ (not (i == id) && has_id i xs)
has_id-without i id [] = ground arith
has_id-without i id (x ∷ xs) =
    ground (arith, has_id-without i id xs, eq_iff x.id id, eq_iff x.id i, eq_iff i id)

module _ (date_parse : String → Option ℤ) where
  -- The merged list has the new message's identifier and those of the old messages, and no other.
  has_id-merge_message :
      (i : String) (message : SyslogMessage) (current : List SyslogMessage)
      → has_id i (merge_message date_parse message current) ≡ (message.id == i || has_id i current)
  unfolding merge_message
  has_id-merge_message i message current =
      any-sort (latest_first date_parse) (λ m. m.id == i)
        (message ∷ keep (λ existing. not (existing.id == message.id)) current)
      ∙ ground
          (arith, has_id-without i message.id current, eq_iff message.id i, eq_iff i message.id)

  take_all : (n : ℕ) (xs : List SyslogMessage) → ltb n (length xs) ≡ false → take n xs ≡ xs
  take_all zero [] h = refl
  take_all zero (x ∷ xs) h = absurd (ground arith)
  take_all (suc n) [] h = refl
  take_all (suc n) (x ∷ xs) h = ap (◌∷◌ x) (take_all n xs (ground arith))

  -- Unless the list is reported as longer than the page, the new message and every old one is in it,
  -- by identifier, and no other.
  pub has_id-next_messages :
      (limit : ℕ) (message : SyslogMessage) (current : List SyslogMessage)
      → (next_messages date_parse limit message current).1 ≡ false
      → (i : String)
      → has_id i (next_messages date_parse limit message current).0
        ≡ (message.id == i || has_id i current)
  unfolding next_messages
  has_id-next_messages limit message current m i =
      ap (has_id i) (take_all limit (merge_message date_parse message current) m)
      ∙ has_id-merge_message i message current
