-- ===== src/Routing/Samples.antt =====
-- The theorem on the event router at concrete happenings.
use agent_setup.Base.{ℕ, ◌⊎◌, ◌<◌, zero, suc, ◌≡◌, refl, true, List, [], ◌∷◌, All, String}
use agent_setup.Base.Result.{ok, raise, overflow_error}
use agent_setup.Types.Common.{SessionId}
use agent_setup.Types.Events.{Event, test_event}
use agent_setup.Utils.EventBuffer.Drain.{segment}
use agent_setup.Routing.EventRouter.{Listener, EventRouter, new_router}
use agent_setup.Routing.EventRouter.Delivery.{
  Fed, Happening, arrives, sends, retries, closes, nack_begins, nack_ends, begins, happen_all,
  happen_all-Fed,
}

abbrev session : SessionId
session = record { master_node_id = "m"; election_clock = 1 }

abbrev numbered : ℕ → Event
numbered zero = record { event_id = "first"; kind = test_event }
numbered (suc n) = record { event_id = "later"; kind = test_event }

abbrev from : String → ℕ → Happening
from origin i =
    arrives (record { origin_idx = i; origin = origin; session = session; event = numbered i })

abbrev listeners : List Listener
listeners = record { is_open = true; got = [] } ∷ record { is_open = true; got = [] } ∷ []

-- The second event comes first, and the router asks for the one that is missing; one receiver closes; an event of the node's own is sent again.
abbrev happenings : List Happening
happenings =
    from "m" 1
    ∷ nack_begins
    ∷ sends "s" 0 5 (numbered 0)
    ∷ closes 1
    ∷ retries 40
    ∷ nack_ends 0 true
    ∷ from "m" 0
    ∷ from "m" 1
    ∷ []

happen_all-Fed_example :
    ((r : EventRouter) × (happen_all (new_router session listeners) happenings ≡ ok r)
      × All (Fed (segment numbered 0 r.buffer.next_idx_to_release)) r.internal_outbound)
    ⊎ ((happen_all (new_router session listeners) happenings ≡ raise overflow_error)
        × (1024 < begins happenings))
happen_all-Fed_example =
    happen_all-Fed session numbered listeners happenings ((λ p. refl), ((λ p. refl), tt))
      ((λ a b. refl), (tt, (tt, (tt, (tt, (tt, ((λ a b. refl), ((λ a b. refl), tt))))))))
