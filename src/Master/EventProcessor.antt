-- ===== src/Master/EventProcessor.antt =====
-- src/exo/master/main.py, `_event_processor`: the events of all nodes are put in order, numbered,
-- applied, logged and sent. What the master sends itself is a list of contents: the identifiers of
-- new events are fresh and play no part. `clock` reads the time at which an event gets its index.
pub mod Log
pub mod Streams
pub mod Replica
use agent_setup.Base.{
  ℕ, Bool, true, false, not, ◌&&◌, Option, none, some, List, [], ◌∷◌, ◌++◌, String, length, any_of,
  all_of, if◌then◌else◌,
}
use agent_setup.Base.Eq.{Eq, ◌==◌, number_eq, text_eq}
use agent_setup.Base.Dict.{Dict, get, has, insert, without, keys, values}
use agent_setup.Base.Result.{Result, ok, ◌>>=◌}
use agent_setup.Types.Common.{NodeId, SessionId, session_eq}
use agent_setup.Types.Tasks.{TaskId}
use agent_setup.Types.Events.{
  Event, EventKind, IndexedEvent, GlobalForwarderEvent, LocalForwarderEvent, node_gathered_info,
  traces_collected, traces_merged,
}
use agent_setup.Types.Equality.{event_eq}
use agent_setup.Types.State.{State, initial}
use agent_setup.Shared.Interface.{TopologyOps}
use agent_setup.Shared.Apply.{apply}
use agent_setup.Utils.EventBuffer.{MultiSourceBuffer, multi_ingest, multi_drain}

pub record Master (T : Type 0) : Type 0 where
  pub node_id : NodeId
  pub session_id : SessionId
  pub state : State T
  pub multi_buffer : MultiSourceBuffer String Event
  pub event_log : List Event
  pub pending_traces : Dict TaskId (Dict ℕ (List String))
  pub expected_ranks : Dict TaskId (List ℕ)
  pub global_sent : List GlobalForwarderEvent
  pub local_sent : List EventKind

-- Master(node_id, session_id), over an empty topology.
unfoldable pub master_init : {T : Type 0} → T → NodeId → SessionId → Master T
master_init topology node_id session_id = record {
  node_id = node_id;
  session_id = session_id;
  state = initial topology;
  multi_buffer = [];
  event_log = [];
  pending_traces = [];
  expected_ranks = [];
  global_sent = [];
  local_sent = [];
}

-- A report gets the master's time.
unfoldable pub stamp : ℕ → Event → Event
stamp now event = elim event.kind [
  | node_gathered_info node_id when info ↦ record event {
    kind = node_gathered_info node_id now info;
  }
  | _ ↦ event
]

-- isinstance(event, TracesCollected), with what such an event carries.
abbrev pub traces_of : EventKind → Option (TaskId × ℕ × List String)
traces_of (traces_collected task_id rank traces) = some (task_id, rank, traces)
traces_of _ = none

abbrev or_no_dict : {K V : Type 0} → Option (Dict K V) → Dict K V
or_no_dict none = []
or_no_dict (some d) = d

concat_values : Dict ℕ (List String) → List String
concat_values [] = []
concat_values ((rank, traces) ∷ d) = traces ++ concat_values d

-- The ranks that are still expected of a task are all there.
abbrev has_all : Dict ℕ (List String) → Option (List ℕ) → Bool
has_all got none = false
has_all got (some ranks) = all_of (has got) ranks

module _ {T : Type 0} where
  -- _merge_and_save_traces
  unfoldable pub merge_and_save_traces : Master T → TaskId → Master T
  unfolding concat_values
  merge_and_save_traces m task_id = record m {
    local_sent =
        m.local_sent
        ++ traces_merged task_id (concat_values (or_no_dict (get m.pending_traces task_id))) ∷ [];
    pending_traces = without m.pending_traces task_id;
    expected_ranks = without m.expected_ranks task_id;
  }

  -- _handle_traces_collected
  unfoldable pub handle_traces_collected : Master T → TaskId → ℕ → List String → Master T
  handle_traces_collected m task_id rank traces =
      let got = insert (or_no_dict (get m.pending_traces task_id)) rank traces in
      let m' = record m { pending_traces = insert m.pending_traces task_id got } in
      if has_all got (get m.expected_ranks task_id) then merge_and_save_traces m' task_id else m'

  -- The new state is stored, and the event logged and sent.
  abbrev pub append_and_send : Master T → Event → State T → Master T
  append_and_send m event state = record m {
    state = state;
    event_log = m.event_log ++ event ∷ [];
    global_sent =
        m.global_sent
        ++ record {
          origin_idx = length m.event_log;
          origin = m.node_id;
          session = m.session_id;
          event = event;
        }
          ∷ [];
  }

module _ (net : TopologyOps) (clock : ℕ → ℕ) where
  open net use {Topology}

  -- The body of the inner loop for an event that gets an index.
  unfoldable pub index_event : Master Topology → Event → Result (Master Topology)
  index_event m event = do
    let stamped = stamp (clock (length m.event_log)) event
    state ← apply net m.state (record { idx = length m.event_log; event = stamped })
    ok (append_and_send m stamped state)

  process_as :
      Master Topology → Event → Option (TaskId × ℕ × List String) → Result (Master Topology)
  process_as m event none = index_event m event
  process_as m event (some (task_id, rank, traces)) =
      ok (handle_traces_collected m task_id rank traces)

  -- The body of the inner loop: traces are handled on the side.
  unfoldable pub process_event : Master Topology → Event → Result (Master Topology)
  unfolding process_as
  process_event m event = process_as m event (traces_of event.kind)

  unfoldable pub process_events : Master Topology → List Event → Result (Master Topology)
  process_events m [] = ok m
  process_events m (event ∷ events) = process_event m event >>= λ m'. process_events m' events

  -- _event_processor, for one event of a node. An exception leaves the loop.
  unfoldable pub on_local_event : Master Topology → LocalForwarderEvent → Result (Master Topology)
  on_local_event m local =
      if local.session == m.session_id
      then (do
        buffer ← multi_ingest m.multi_buffer local.origin_idx local.event local.origin
        let drained = multi_drain buffer
        process_events (record m { multi_buffer = drained.1 }) drained.0)
      else ok m

  unfoldable pub event_processor :
      Master Topology → List LocalForwarderEvent → Result (Master Topology)
  event_processor m [] = ok m
  event_processor m (local ∷ locals) = on_local_event m local >>= λ m'. event_processor m' locals
