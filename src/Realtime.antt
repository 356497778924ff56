-- ===== src/Realtime.antt =====
-- internal/realtime/hub.go: live messages go to the subscribers' channels, and wait for no one. A
-- channel is its buffer; each subscriber has a number that no other has had.
pub mod Laws
pub mod Served
use logthing.Prelude.{
  ℕ, suc, String, Bool, not, Option, none, some, List, [], ◌∷◌, ◌++◌, ltb, eqb, any, keep, map,
  length, if◌then◌else◌,
}
use logthing.Model.{Message}

-- `subscriberBuffer`
abbrev subscriber_buffer : ℕ
subscriber_buffer = 64

pub record Subscriber : Type 0 where
  pub number : ℕ
  pub buffer : List Message

pub record Hub : Type 0 where
  pub next_number : ℕ
  pub subscribers : List Subscriber

-- `NewHub`
abbrev pub new_hub : Hub
new_hub = record { next_number = 0; subscribers = [] }

-- `Subscribe`, whose channel gets the number `next_number`.
unfoldable pub subscribe : Hub → Hub
subscribe h = record {
  next_number = suc h.next_number;
  subscribers = record { number = h.next_number; buffer = [] } ∷ h.subscribers;
}

-- The function that `Subscribe` returns. A second call closes the channel again, which panics.
unfoldable pub unsubscribe : ℕ → Hub → Option Hub
unsubscribe n h =
    if any (λ (s : Subscriber). eqb s.number n) h.subscribers
    then some
        (record h { subscribers = keep (λ (s : Subscriber). not (eqb s.number n)) h.subscribers })
    else none

-- The `select` of `Publish`: a message is dropped if the buffer is full.
unfoldable pub offer : Message → List Message → List Message
offer message buffer =
    if ltb (length buffer) subscriber_buffer then buffer ++ message ∷ [] else buffer

-- `Publish`
unfoldable pub publish : Message → Hub → Hub
unfolding offer
publish message h = record h {
  subscribers =
      map (λ (s : Subscriber). record s { buffer = offer message s.buffer }) h.subscribers;
}

abbrev pub rest : List Message → List Message
rest [] = []
rest (m ∷ ms) = ms

-- A subscriber takes the first message out of its channel.
unfoldable pub receive : ℕ → Hub → Hub
receive n h = record h {
  subscribers =
      map (λ (s : Subscriber). if eqb s.number n then record s { buffer = rest s.buffer } else s)
        h.subscribers;
}

-- `PublishingStore.Append`: `stored` is the error of the store, if it gave one.
unfoldable pub append : Option String → Message → Hub → Hub × Option String
append (some error) message h = (h, some error)
append none message h = (publish message h, none)

pub data Event : Type 0 where
  subscribed : Event
  unsubscribed received : ℕ → Event
  appended : Option String → Message → Event

-- What is left of the hub, unless the event panics.
unfoldable pub handle : Event → Hub → Option Hub
unfolding append publish
handle subscribed h = some (subscribe h)
handle (unsubscribed n) h = unsubscribe n h
handle (received n) h = some (receive n h)
handle (appended error message) h = some (append error message h).0

unfoldable pub run : List Event → Hub → Option Hub
unfolding handle
run [] h = some h
run (e ∷ events) h = elim (handle e h) [ none ↦ none | some next ↦ run events next ]

-- One channel, used by the hub and by its subscriber.
pub data Use : Type 0 where
  send : Message → Use
  take_first : Use

abbrev first : List Message → List Message
first [] = []
first (m ∷ ms) = m ∷ []

-- What the subscriber gets, and what is left in the buffer.
pub taken : List Use → List Message → List Message
unfolding offer
taken [] buffer = []
taken (send message ∷ uses) buffer = taken uses (offer message buffer)
taken (take_first ∷ uses) buffer = first buffer ++ taken uses (rest buffer)

pub left : List Use → List Message → List Message
unfolding offer
left [] buffer = buffer
left (send message ∷ uses) buffer = left uses (offer message buffer)
left (take_first ∷ uses) buffer = left uses (rest buffer)

abbrev pub sent : List Use → List Message
sent [] = []
sent (send message ∷ uses) = message ∷ sent uses
sent (take_first ∷ uses) = sent uses
