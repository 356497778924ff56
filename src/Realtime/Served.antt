-- ===== src/Realtime/Served.antt =====
-- The hub of internal/realtime/hub.go, as one of its subscribers sees it.
use logthing.Prelude.{
  ℕ, ◌<◌, ◌≡◌, refl, sym, ap, ◌∙◌, inl, inr, true, false, not, Option, none, some, List, [], ◌∷◌,
  eqb, any, keep, map, All, arith, if◌then◌else◌, Bool-cases, Option-cases,
}
use logthing.Model.{Message}
use logthing.Realtime.{
  Subscriber, Hub, subscribe, unsubscribe, offer, publish, rest, receive, append, Event, subscribed,
  unsubscribed, received, appended, handle, run, Use, send, take_first, left,
}

-- What is in the channel of a subscriber.
abbrev pub buffer_of : ℕ → List Subscriber → Option (List Message)
buffer_of n [] = none
buffer_of n (s ∷ ss) = if eqb s.number n then some s.buffer else buffer_of n ss

-- What an event is to a subscriber's channel.
abbrev pub uses_of : ℕ → List Event → List Use
uses_of n [] = []
uses_of n (subscribed ∷ events) = uses_of n events
uses_of n (unsubscribed m ∷ events) = uses_of n events
uses_of n (received m ∷ events) =
    let later = uses_of n events in if eqb m n then take_first ∷ later else later
uses_of n (appended (some error) message ∷ events) = uses_of n events
uses_of n (appended none message ∷ events) = send message ∷ uses_of n events

-- An event that does not end the subscription.
abbrev Stays : ℕ → Event → Type 0
Stays n subscribed = Unit
Stays n (unsubscribed m) = eqb m n ≡ false
Stays n (received m) = Unit
Stays n (appended error message) = Unit

buffer_of-keep :
    (n m : ℕ) (ss : List Subscriber)
    → eqb m n ≡ false
    → buffer_of n (keep (λ s. not (eqb s.number m)) ss) ≡ buffer_of n ss
buffer_of-keep n m [] e = refl
buffer_of-keep n m (s ∷ ss) e = ground (arith, buffer_of-keep n m ss e)

buffer_of-offer :
    (n : ℕ) (message : Message) (ss : List Subscriber) {b : List Message}
    → buffer_of n ss ≡ some b
    → buffer_of n (map (λ (s : Subscriber). record s { buffer = offer message s.buffer }) ss)
      ≡ some (offer message b)
buffer_of-offer n message [] e = absurd (cc e)
buffer_of-offer n message (s ∷ ss) {b} e = elim (Bool-cases (eqb s.number n)) [
  | inl same ↦ let k : s.buffer ≡ b = cc (rw same at e) in rw (same, k)
  | inr other ↦ rw other (buffer_of-offer n message ss (rw other at e))
]

-- A subscriber takes a message out of its own channel only.
buffer_of-receive :
    (n m : ℕ) (ss : List Subscriber) {b : List Message}
    → buffer_of n ss ≡ some b
    → buffer_of n (
        map
          (λ (s : Subscriber). if eqb s.number m then record s { buffer = rest s.buffer } else s)
          ss)
      ≡ some (if eqb m n then rest b else b)
buffer_of-receive n m [] e = absurd (cc e)
buffer_of-receive n m (s ∷ ss) {b} e = elim (Bool-cases (eqb s.number n)) [
  | inl same ↦
      let k : s.buffer ≡ b = cc (rw same at e) in
      elim (Bool-cases (eqb s.number m)) [
        | inl own ↦ let this : eqb m n ≡ true = ground arith in rw (own, same, this, k)
        | inr foreign ↦ let this : eqb m n ≡ false = ground arith in rw (foreign, same, this, k)
      ]
  | inr other ↦
      let k = buffer_of-receive n m ss (rw other at e) in
      elim (Bool-cases (eqb s.number m)) [
        | inl own ↦ rw (own, other) k
        | inr foreign ↦ rw (foreign, other) k
      ]
]

-- A subscriber is there, with this in its channel, and no later one can have its number.
record Serves (n : ℕ) (b : List Message) (h : Hub) : Type 0 where
  known : buffer_of n h.subscribers ≡ some b
  older : n < h.next_number

-- What one event does to the channel.
abbrev after : ℕ → Event → List Message → List Message
after n subscribed b = b
after n (unsubscribed m) b = b
after n (received m) b = if eqb m n then rest b else b
after n (appended (some error) message) b = b
after n (appended none message) b = offer message b

handle-Serves :
    (n : ℕ) (e : Event) (h : Hub) {h' : Hub} {b : List Message}
    → Stays n e
    → handle e h ≡ some h'
    → Serves n b h
    → Serves n (after n e b) h'
unfolding handle subscribe unsubscribe receive append publish
handle-Serves n subscribed h {h'} {b} st e v =
    let same : subscribe h ≡ h' = cc in
    let other : eqb h.next_number n ≡ false = (let o = v.older in ground arith) in
    rw (← same) record { known = rw other v.known; older = (let o = v.older in omega arith) }
handle-Serves n (unsubscribed m) h {h'} {b} st e v =
    elim (Bool-cases (any (λ (s : Subscriber). eqb s.number m) h.subscribers)) [
      | inl there ↦
          let same : record h {
            subscribers = keep (λ (s : Subscriber). not (eqb s.number m)) h.subscribers;
          }
              ≡ h' =
            cc (rw there at e) in
          rw (← same)
            record { known = buffer_of-keep n m h.subscribers st ∙ v.known; older = v.older }
      | inr gone ↦ absurd (cc (rw gone at e))
    ]
handle-Serves n (received m) h {h'} {b} st e v =
    let same : receive m h ≡ h' = cc in
    rw (← same) record { known = buffer_of-receive n m h.subscribers v.known; older = v.older }
handle-Serves n (appended (some error) message) h {h'} {b} st e v =
    let same : h ≡ h' = cc in rw (← same) v
handle-Serves n (appended none message) h {h'} {b} st e v =
    let same : publish message h ≡ h' = cc in
    rw (← same) record { known = buffer_of-offer n message h.subscribers v.known; older = v.older }

left-uses_of :
    (n : ℕ) (e : Event) (events : List Event) (b : List Message)
    → left (uses_of n (e ∷ events)) b ≡ left (uses_of n events) (after n e b)
unfolding left
left-uses_of n subscribed events b = refl
left-uses_of n (unsubscribed m) events b = refl
left-uses_of n (received m) events b = elim (Bool-cases (eqb m n)) [
  | inl own ↦ rw own
  | inr foreign ↦ rw foreign
]
left-uses_of n (appended (some error) message) events b = refl
left-uses_of n (appended none message) events b = refl

run-Serves :
    (n : ℕ) (events : List Event) (h : Hub) {h' : Hub} {b : List Message}
    → All (Stays n) events
    → run events h ≡ some h'
    → Serves n b h
    → buffer_of n h'.subscribers ≡ some (left (uses_of n events) b)
unfolding run left
run-Serves n [] h {h'} {b} st e v = let same : h ≡ h' = cc in rw (← same) v.known
run-Serves n (x ∷ events) h {h'} {b} (s, st) e v = elim (Option-cases (handle x h)) [
  | inl none_left ↦ absurd (cc (rw (run, none_left) at e))
  | inr (next, k) ↦
      run-Serves n events next st (rw (run, k) at e) (handle-Serves n x h s k v)
      ∙ ap some (sym (left-uses_of n x events b))
]

-- If a hub has a new subscriber that does not unsubscribe then, whatever others come, go, take
-- messages or do not, and whatever the store refuses, as long as nothing panics, the subscriber's
-- channel holds what a channel of its own would hold that was sent each message that the store
-- accepted, in their order, and from which only it took messages.
pub run-left :
    (events : List Event) (h : Hub) {h' : Hub}
    → All (Stays h.next_number) events
    → run events (subscribe h) ≡ some h'
    → buffer_of h.next_number h'.subscribers ≡ some (left (uses_of h.next_number events) [])
unfolding subscribe
run-left events h {h'} st e =
    let this : eqb h.next_number h.next_number ≡ true = ground arith in
    run-Serves h.next_number events (subscribe h) st e
      (record { known = rw this; older = omega arith })
