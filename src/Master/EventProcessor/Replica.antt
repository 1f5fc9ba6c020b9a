-- ===== src/Master/EventProcessor/Replica.antt =====
-- A node that follows the master: `EventRouter` buffers what the master sends, and
-- `Worker._event_applier` applies what the buffer releases.
use native.Mathlib.Nat.{add-zero, zero-add}
use agent_setup.Base.{
  ℕ, zero, suc, ◌+◌, ◌<◌, ◌≡◌, ◌≢◌, refl, sym, ap, Option, none, some, List, [], ◌∷◌, ◌++◌, arith,
  length, get_elem?, false≢true, Bool, true, false,
}
use mathlib.Core.List.{Memᴰ}
use agent_setup.Base.Eq.{◌==◌, text_eq}
use agent_setup.Base.Result.{ok, ◌>>=◌}
use agent_setup.Types.Events.{Event, test_event}
use agent_setup.Types.Equality.{event_eq}
use agent_setup.Types.State.{initial}
use agent_setup.Shared.Interface.{TopologyOps}
use agent_setup.Base.Dict.{Dict}
use agent_setup.Types.Common.{NodeId}
use agent_setup.Types.Nodes.{NetworkInterfaceInfo, ThunderboltBridgeStatus}
use agent_setup.Shared.Apply.Bridges.{finding, replays-bridges}
use agent_setup.Shared.Apply.Order.{event_applier, indexed}
use agent_setup.Utils.EventBuffer.{empty}
use agent_setup.Utils.EventBuffer.Drain.{segment}
use agent_setup.Utils.EventBuffer.Stream.{Call, arrive, release, run}
use agent_setup.Utils.EventBuffer.Exact.{run_exact}
use agent_setup.Master.EventProcessor.{Master}
use agent_setup.Master.EventProcessor.Log.{Logged}

or_default : Option Event → Event
or_default none = record { event_id = ""; kind = test_event }
or_default (some event) = event

-- The log as a stream, with a dummy beyond its end.
stream_of : List Event → ℕ → Event
unfolding or_default
stream_of log i = or_default (get_elem? log i)

beyond : (log : List Event) → get_elem? log (length log) ≡ none
beyond [] = refl
beyond (x ∷ log) = beyond log

within : (log : List Event) (k : ℕ) → k < length log → (x : Event) × (get_elem? log k ≡ some x)
within [] k lt = absurd (omega arith)
within (x ∷ log) zero lt = (x, refl)
within (x ∷ log) (suc k) lt = within log k (omega arith)

inside : (log : List Event) (k : ℕ) (x : Event) → get_elem? log k ≡ some x → k < length log
inside [] k x h = absurd (cc)
inside (y ∷ log) zero x h = omega arith
inside (y ∷ log) (suc k) x h = let lt = inside log k x h in omega arith

-- A segment of a stream that agrees with a list is that list, with the indices.
segment-indexed :
    (f : ℕ → Event) (i : ℕ) (log : List Event)
    → ((k : ℕ) (x : Event) → get_elem? log k ≡ some x → f (i + k) ≡ x)
    → segment f i (length log) ≡ indexed i log
unfolding indexed
segment-indexed f i [] same = refl
segment-indexed f i (x ∷ log) same =
    let first : f i ≡ x = rw add-zero at (same 0 x refl) in
    let rest =
      segment-indexed f (suc i) log
        λ k y h. let shift : suc i + k ≡ i + suc k = omega arith in rw shift (same (suc k) y h) in
    rw (first, rest)

abbrev other_event : Event
other_event = record { event_id = "other"; kind = test_event }

abbrev id_is_empty : Event → Bool
id_is_empty x = x.event_id == ""

dummy_apart : or_default none ≢ other_event
unfolding or_default
dummy_apart h = let p : true ≡ false = ap id_is_empty h in false≢true (sym p)

module _ (net : TopologyOps) where
  open net use {Topology, empty as bare}

  -- What arrives are entries of the log under their indices, and all of them do arrive.
  pub record Delivered (log : List Event) (calls : List (Call Event)) : Type 0 where
    pub sent : (i : ℕ) (x : Event) → Memᴰ (arrive i x) calls → get_elem? log i ≡ some x
    pub arrived : (i : ℕ) (x : Event) → get_elem? log i ≡ some x → Memᴰ (arrive i x) calls

  -- If a master's state is the one that the events of its log make, and a node has received each
  -- entry of that log at least once and nothing else, in any order, with drains anywhere between
  -- the arrivals and one at the end, then the node applies what its buffer released without an
  -- exception and has the master's state in every field but the cycles of Thunderbolt bridges,
  -- which each process may find in its own way.
  pub replica_catches_up :
      (cycles : Topology
        → Dict NodeId ThunderboltBridgeStatus
        → Dict NodeId (List NetworkInterfaceInfo)
        → List (List NodeId))
      (m : Master Topology) (calls : List (Call Event))
      → Logged net m
      → Delivered m.event_log calls
      → (found : List (List NodeId)) × ((run empty [] (calls ++ release ∷ []) >>= λ r.
            event_applier (finding net cycles) (initial bare) r.0)
          ≡ ok (record m.state { thunderbolt_bridge_cycles = found }))
  unfolding stream_of or_default
  replica_catches_up cycles m calls l d =
      let log = m.event_log in
      let f = stream_of log in
      let (b, returns) =
        run_exact f calls (length log) other_event (rw (beyond log) dummy_apart)
          (λ i t mem. rw (d.sent i t mem) refl)
          (λ k lt. let (x, h) = within log k lt in rw h (d.arrived k x h))
          (λ i t mem. inside log i t (d.sent i t mem)) in
      let (found, applied) = replays-bridges net cycles (indexed 0 log) m.state l.replays in
      (found, rw (returns, segment-indexed f 0 log (λ k x h. rw (zero-add, h) refl)) applied)
