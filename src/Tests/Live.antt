-- ===== src/Tests/Live.antt =====
-- internal/realtime/hub.go at concrete inputs.
use logthing.Prelude.{◌≡◌, refl, none, some, List, [], ◌∷◌, ◌++◌}
use logthing.Realtime.{
  Hub, new_hub, subscribe, unsubscribe, offer, publish, receive, append, Event, subscribed,
  unsubscribed, received, appended, handle, run, Use, send, take_first, taken, left, sent,
}
use logthing.Realtime.Laws.{Sublist, taken-Sublist}
use logthing.Realtime.Served.{buffer_of, uses_of, run-left}
use logthing.Tests.Engine.{down, up}

-- Another subscriber comes before, and leaves; a message that the store refuses is not published.
abbrev hub : Hub
hub = record { next_number = 1; subscribers = record { number = 0; buffer = [] } ∷ [] }

abbrev events : List Event
events =
    appended none down
    ∷ unsubscribed 0
    ∷ appended (some "disk full") up
    ∷ appended none up
    ∷ received 1
    ∷ []

abbrev after_events : Hub
after_events = record {
  next_number = 2;
  subscribers = record { number = 1; buffer = up ∷ [] } ∷ [];
}

from_new : run (subscribed ∷ subscribed ∷ events) new_hub ≡ some after_events
unfolding run handle subscribe unsubscribe publish offer receive append
from_new = refl

-- A second call of the function that ends a subscription.
closed_twice : run (unsubscribed 0 ∷ unsubscribed 0 ∷ []) hub ≡ none
unfolding run handle unsubscribe
closed_twice = refl

run-left_example : buffer_of 1 after_events.subscribers ≡ some (left (uses_of 1 events) [])
unfolding run handle subscribe unsubscribe publish offer receive append
run-left_example = run-left events hub (tt, (refl, (tt, (tt, (tt, tt))))) refl

abbrev uses : List Use
uses = send down ∷ take_first ∷ send up ∷ []

taken-Sublist_example : Sublist (taken uses [] ++ left uses []) (sent uses)
taken-Sublist_example = taken-Sublist uses []
