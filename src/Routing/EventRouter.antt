-- ===== src/Routing/EventRouter.antt =====
-- src/exo/routing/event_router.py, class `EventRouter`. The bodies of its tasks, cut where they
-- await, are functions of the router; the events that one drain releases are sent on in one step,
-- and a round of the retry is one step. Times are whole numbers of half seconds.
pub mod Delivery
use agent_setup.Base.{
  ℕ, zero, suc, ◌+◌, ◌*◌, ◌^◌, min, Bool, true, false, not, ◌&&◌, Option, none, some, List, [], ◌∷◌,
  ◌++◌, String, leb, ltb, modify, if◌then◌else◌,
}
use agent_setup.Base.Eq.{Eq, ◌==◌, text_eq, number_eq}
use agent_setup.Base.Dict.{Dict, get, has, insert, without}
use agent_setup.Base.Result.{Result, ok, raise, overflow_error, ◌>>=◌}
use agent_setup.Types.Common.{SessionId, session_eq}
use agent_setup.Types.Events.{Event, GlobalForwarderEvent, LocalForwarderEvent}
use agent_setup.Types.Equality.{event_eq}
use agent_setup.Utils.EventBuffer.{OrderedBuffer, empty, ingest, drain_indexed}

-- A receiver of the node's own: whether it is open, and what it was sent.
pub record Listener : Type 0 where
  pub is_open : Bool
  pub got : List (ℕ × Event)

-- The cancel scope of a request for events, and whether it was cancelled.
pub record Scope : Type 0 where
  pub scope_id : ℕ
  pub cancel_called : Bool

pub record EventRouter : Type 0 where
  pub session_id : SessionId
  pub buffer : OrderedBuffer Event
  pub out_for_delivery : Dict String (ℕ × LocalForwarderEvent)
  pub external_sent : List LocalForwarderEvent
  pub internal_outbound : List Listener
  pub nack_cancel_scope : Option Scope
  pub nack_attempts : ℕ
  pub nack_started : List ℕ
  pub nack_waiting : Dict ℕ ℕ
  pub next_scope : ℕ
  pub requested : List ℕ

abbrev pub new_router : SessionId → List Listener → EventRouter
new_router session listeners = record {
  session_id = session;
  buffer = empty;
  out_for_delivery = [];
  external_sent = [];
  internal_outbound = listeners;
  nack_cancel_scope = none;
  nack_attempts = 0;
  nack_started = [];
  nack_waiting = [];
  next_scope = 0;
  requested = [];
}

-- _ingest, one round: an event of this node goes out under the index of its sender.
unfoldable pub ingest_local :
    EventRouter → (system_id : String) → (idx now : ℕ) → Event → EventRouter
ingest_local r system_id idx now event =
    let f_ev : LocalForwarderEvent = record {
      origin_idx = idx;
      origin = system_id;
      session = r.session_id;
      event = event;
    } in
    record r {
      external_sent = r.external_sent ++ f_ev ∷ [];
      out_for_delivery = insert r.out_for_delivery event.event_id (now, f_ev);
    }

-- _simple_retry, one round: the events that go out again, and when each was sent last.
unfoldable pub due : ℕ → Dict String (ℕ × LocalForwarderEvent) → List LocalForwarderEvent
due now [] = []
due now ((e_id, (time, event)) ∷ rest) =
    let later = due now rest in if ltb (time + 10) now then event ∷ later else later

unfoldable pub touched :
    ℕ → Dict String (ℕ × LocalForwarderEvent) → Dict String (ℕ × LocalForwarderEvent)
touched now [] = []
touched now ((e_id, (time, event)) ∷ rest) =
    (e_id, (if ltb (time + 10) now then now else time, event)) ∷ touched now rest

unfoldable pub simple_retry : EventRouter → ℕ → EventRouter
simple_retry r now = record r {
  out_for_delivery = touched now r.out_for_delivery;
  external_sent = r.external_sent ++ due now r.out_for_delivery;
}

-- The loop over the receivers: one that is closed is cleared away.
unfoldable pub broadcast : ℕ × Event → List Listener → List Listener
broadcast event [] = []
broadcast event (l ∷ ls) =
    let rest = broadcast event ls in
    if l.is_open then record l { got = l.got ++ event ∷ [] } ∷ rest else rest

unfoldable pub broadcast_all : List (ℕ × Event) → List Listener → List Listener
broadcast_all [] ls = ls
broadcast_all (event ∷ events) ls = broadcast_all events (broadcast event ls)

abbrev pub cancelled_scope : Option Scope → Option Scope
cancelled_scope none = none
cancelled_scope (some scope) = some (record scope { cancel_called = true })

-- Nothing asks for the missing events yet.
abbrev pub may_request : Option Scope → Bool
may_request none = true
may_request (some scope) = scope.cancel_called

-- What a drain of the buffer leads to.
abbrev pub after_drain : EventRouter → List (ℕ × Event) → OrderedBuffer Event → EventRouter
after_drain r [] buffer =
    if may_request r.nack_cancel_scope
    then record r {
      buffer = buffer;
      nack_started = r.nack_started ++ buffer.next_idx_to_release ∷ [];
    }
    else record r { buffer = buffer }
after_drain r (event ∷ events) buffer = record r {
  buffer = buffer;
  nack_attempts = 0;
  nack_cancel_scope = cancelled_scope r.nack_cancel_scope;
  internal_outbound = broadcast_all (event ∷ events) r.internal_outbound;
}

-- _run_ext_in, one round.
unfoldable pub run_ext_in : EventRouter → GlobalForwarderEvent → Result EventRouter
run_ext_in r event =
    if not (event.session == r.session_id)
    then ok r
    else (if not (event.origin == r.session_id.master_node_id)
        then ok r
        else (ingest r.buffer event.origin_idx event.event >>= λ buf. ok (
            after_drain
              (record r { out_for_delivery = without r.out_for_delivery event.event.event_id })
              (drain_indexed buf).0 (drain_indexed buf).1)))

-- min(cap, base * 2.0 ** attempts), of half a second and ten seconds.
unfoldable pub nack_delay : ℕ → Result ℕ
nack_delay attempts = if leb 1024 attempts then raise overflow_error else ok (min 20 (2 ^ attempts))

-- _nack_request up to its sleep: the delay, and the router after it. An index is never negative.
unfoldable pub begin_nack : EventRouter → ℕ → Result (ℕ × EventRouter)
begin_nack r since_idx = nack_delay r.nack_attempts >>= λ delay. ok (
  delay,
  record r {
    nack_cancel_scope = some (record { scope_id = r.next_scope; cancel_called = false });
    next_scope = suc r.next_scope;
    nack_attempts = suc r.nack_attempts;
    nack_waiting = insert r.nack_waiting r.next_scope since_idx;
  },
)

abbrev pub start_first : EventRouter → List ℕ → Result EventRouter
start_first r [] = ok r
start_first r (since_idx ∷ started) =
    begin_nack (record r { nack_started = started }) since_idx >>= λ p. ok p.1

-- The first of the started requests begins; there may be none.
unfoldable pub start_nack : EventRouter → Result EventRouter
start_nack r = start_first r r.nack_started

-- `if self._nack_cancel_scope is scope`
abbrev pub left_scope : ℕ → Option Scope → Option Scope
left_scope id none = none
left_scope id (some scope) = if scope.scope_id == id then none else some scope

abbrev pub asked : List ℕ → Bool → Option ℕ → List ℕ
asked requested woke none = requested
asked requested woke (some since_idx) = if woke then requested ++ since_idx ∷ [] else requested

-- _nack_request from its sleep on: it woke up, or was cancelled.
unfoldable pub end_nack : EventRouter → ℕ → Bool → EventRouter
end_nack r id woke = record r {
  requested = asked r.requested woke (get r.nack_waiting id);
  nack_waiting = without r.nack_waiting id;
  nack_cancel_scope = left_scope id r.nack_cancel_scope;
}
