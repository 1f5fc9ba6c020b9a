-- ===== src/Master/CommandProcessor.antt =====
-- src/exo/master/main.py, `_command_processor`. What the handler draws (identifiers, a port) is an
-- argument. An index that a node asks for is not negative.
pub mod Kept
pub mod Removed
pub mod Placed
pub mod Resend
use agent_setup.Base.{
  ℕ, suc, ◌+◌, ◌-◌, min, Bool, true, false, not, ◌&&◌, Option, none, some, List, [], ◌∷◌, ◌++◌,
  String, map, length, keep_if, any_of, ltb, if◌then◌else◌,
}
use agent_setup.Base.Eq.{◌==◌, text_eq}
use agent_setup.Base.Seq.{sort_down, take, drop}
use agent_setup.Base.Dict.{Dict, get, insert, without, keys, values}
use agent_setup.Base.Result.{Result, ok, raise, value_error, ◌>>=◌}
use agent_setup.Types.Common.{NodeId, SessionId}
use agent_setup.Types.Workers.{
  ModelCard, ModelId, RunnerId, ShardMetadata, Instance, InstanceId, Host,
}
use agent_setup.Types.Nodes.{InstanceLink, NetworkInterfaceInfo}
use agent_setup.Types.Tasks.{Task, TaskId, CommandId, TaskKind, TaskStatus, in_flight}
use agent_setup.Types.Events.{Event, EventKind, GlobalForwarderEvent}
use agent_setup.Types.State.{State}
use agent_setup.Shared.Interface.{TopologyOps}
use agent_setup.Master.EventProcessor.{Master}
use agent_setup.Master.Placement.Allocation.{Floats}
use agent_setup.Master.InstanceChoice.{
  count_in_flight, prefill_only, least_loaded, runs_model, prefill_endpoint_for,
}
use agent_setup.Master.Placement.Cycles.{among}
use agent_setup.Master.Placement.Hosts.{find_ip_prioritised}
use agent_setup.Master.Placement.Choice.{PlaceInstance, Cluster, Fresh, place_instance}
use agent_setup.Master.Placement.Transitions.{
  add_instance_to_placements, delete_instance, get_transition_events, cancel_unnecessary_downloads,
}

-- A command. Of a generation's parameters the model is read; the images' hashes, the number of
-- chunks and the rest go into the task.
pub data Command : Type 0 where
  test_command : Command
  text_generation : ModelId → List String → String → Command
  image_generation : ModelId → String → Command
  image_edits : ModelId → ℕ → String → Command
  place_command : PlaceInstance → Command
  create_command : Instance → Command
  delete_command : InstanceId → Command
  task_cancelled task_finished : CommandId → Command
  send_input_chunk : CommandId → String → Command
  request_event_log : ℕ → Command
  add_custom_model_card : ModelCard → Command
  delete_custom_model_card : ModelId → Command
  set_instance_link : String → List InstanceId → List InstanceId → Command
  delete_instance_link : String → Command

-- The master with what its command processor keeps and sends besides.
pub record Commander (T : Type 0) : Type 0 where
  pub master : Master T
  pub command_task_mapping : Dict CommandId TaskId
  pub download_sent : List (NodeId × ModelId)

-- TaskId() and what a placement draws.
pub record Draws : Type 0 where
  pub task_id : TaskId
  pub fresh : Fresh

-- list(dict.fromkeys(ids))
unfoldable pub from_keys : List InstanceId → Dict InstanceId (Unit {0}) → List InstanceId
from_keys [] d = keys d
from_keys (i ∷ ids) d = from_keys ids (insert d i tt)

-- What the state shows of a task's end: a pending task of the instance.
abbrev pub created : TaskId → InstanceId → TaskKind → EventKind
created task_id i kind = EventKind.task_created task_id (record {
  task_id = task_id;
  task_status = TaskStatus.pending;
  instance_id = i;
  error_type = none;
  error_message = none;
  kind = kind;
})

unfoldable pub ranks_of : Dict RunnerId ShardMetadata → List ℕ
ranks_of [] = []
ranks_of ((r, shard) ∷ shards) = shard.device_rank ∷ ranks_of shards

abbrev expect : Dict TaskId (List ℕ) → TaskId → Option Instance → Dict TaskId (List ℕ)
expect ranks task_id none = ranks
expect ranks task_id (some i) = insert ranks task_id (ranks_of i.shard_assignments.runner_to_shard)

unfoldable pub cancel_event : Option TaskId → List EventKind
cancel_event none = []
cancel_event (some task_id) = EventKind.task_status_updated task_id TaskStatus.cancelled ∷ []

unfoldable pub delete_event : Option TaskId → List EventKind
delete_event none = []
delete_event (some task_id) = EventKind.task_deleted task_id ∷ []

module _ {T : Type 0} where
  -- The cluster as the state knows it.
  abbrev pub cluster_of : State T → Cluster T
  cluster_of s = record {
    topology = s.topology;
    node_memory = s.node_memory;
    node_network = s.node_network;
    node_backends = s.node_backends;
    download_status = s.downloads;
    node_rdma_ctl = s.node_rdma_ctl;
  }

  -- The events of a log that are sent again, with their indices.
  unfoldable pub resent : Master T → ℕ → List Event → List GlobalForwarderEvent
  resent m i [] = []
  resent m i (event ∷ events) =
      record { origin_idx = i; origin = m.node_id; session = m.session_id; event = event }
      ∷ resent m (suc i) events

  -- RequestEventLog: at most 1000 events from an index on.
  unfoldable pub request_log : Master T → ℕ → Master T
  request_log m since =
      let end = min (since + 1000) (length m.event_log) in
      record m {
        global_sent = m.global_sent ++ resent m since (take (end - since) (drop since m.event_log));
      }

  -- A task for an image command, with the ranks whose traces are awaited.
  unfoldable pub image_task :
      Bool
      → Commander T
      → CommandId
      → TaskId
      → ModelId
      → TaskKind
      → Result (Commander T × List EventKind)
  image_task tracing c command_id task_id model kind =
      let s = c.master.state in
      least_loaded (runs_model model) (values s.tasks) (values s.instances) >>= λ i. ok (
        record c {
          command_task_mapping = insert c.command_task_mapping command_id task_id;
          master =
              if tracing
              then record (c.master) {
                expected_ranks = expect c.master.expected_ranks task_id (get s.instances i);
              }
              else c.master;
        },
        created task_id i kind ∷ [],
      )

module _ (floats : Floats) (net : TopologyOps) (listing : List InstanceId → List InstanceId) where
  open net use {Topology}

  -- The `match` over the command: what the processor becomes, and the events that it generates.
  unfoldable pub handle_command :
      Bool
      → Draws
      → Commander Topology
      → CommandId
      → Command
      → Result (Commander Topology × List EventKind)
  handle_command tracing draws c command_id test_command = ok (c, [])
  handle_command tracing draws c command_id (text_generation model image_hashes rest) =
      let s = c.master.state in
      least_loaded
        (λ i. runs_model model i && not (prefill_only (values s.instance_links) i.instance_id))
        (values s.tasks) (values s.instances)
      >>= λ i. ok (
        record c { command_task_mapping = insert c.command_task_mapping command_id draws.task_id },
        created draws.task_id i (
              TaskKind.text_generation command_id image_hashes
                (prefill_endpoint_for net listing s i) rest)
            ∷ [],
      )
  handle_command tracing draws c command_id (image_generation model rest) =
      image_task tracing c command_id draws.task_id model
        (TaskKind.image_generation command_id rest)
  handle_command tracing draws c command_id (image_edits model chunks rest) =
      image_task tracing c command_id draws.task_id model
        (TaskKind.image_edits command_id chunks rest)
  handle_command tracing draws c command_id (delete_command instance_id) = do
    let s = c.master.state
    placement ← delete_instance instance_id s.instances
    cancelled ← cancel_unnecessary_downloads placement s.downloads
    ok (
      record c { download_sent = c.download_sent ++ cancelled },
      get_transition_events s.instances placement s.tasks,
    )
  handle_command tracing draws c command_id (place_command command) = do
    let s = c.master.state
    placement ← place_instance floats net command [] (cluster_of s) s.instances draws.fresh
    ok (c, get_transition_events s.instances placement s.tasks)
  handle_command tracing draws c command_id (create_command instance_) =
      let s = c.master.state in
      ok (
        c,
        get_transition_events s.instances (add_instance_to_placements instance_ s.instances)
            s.tasks,
      )
  handle_command tracing draws c command_id (send_input_chunk chunk_command chunk) =
      ok (c, EventKind.input_chunk_received chunk_command chunk ∷ [])
  handle_command tracing draws c command_id (task_cancelled cancelled) =
      ok (c, cancel_event (get c.command_task_mapping cancelled))
  handle_command tracing draws c command_id (task_finished finished) = ok (
    record c { command_task_mapping = without c.command_task_mapping finished },
    delete_event (get c.command_task_mapping finished),
  )
  handle_command tracing draws c command_id (add_custom_model_card card) =
      ok (c, EventKind.custom_model_card_added card ∷ [])
  handle_command tracing draws c command_id (delete_custom_model_card model_id) =
      ok (c, EventKind.custom_model_card_deleted model_id ∷ [])
  handle_command tracing draws c command_id (set_instance_link link_id prefill decode) = ok (
    c,
    EventKind.instance_link_created (record {
      link_id = link_id;
      prefill_instances = from_keys prefill [];
      decode_instances = from_keys decode [];
    })
        ∷ [],
  )
  handle_command tracing draws c command_id (delete_instance_link link_id) =
      ok (c, EventKind.instance_link_deleted link_id ∷ [])
  handle_command tracing draws c command_id (request_event_log since) =
      ok (record c { master = request_log c.master since }, [])

  send_all : Commander Topology × List EventKind → Commander Topology
  send_all (c, generated) = record c {
    master = record (c.master) { local_sent = c.master.local_sent ++ generated };
  }

  -- A ValueError is logged and the next command taken; another exception ends the loop.
  pub recover :
      Commander Topology
      → Result (Commander Topology × List EventKind)
      → Result (Commander Topology)
  unfolding send_all
  recover c (ok done) = ok (send_all done)
  recover c (raise value_error) = ok c
  recover c (raise other) = raise other

  -- _command_processor, for one command.
  unfoldable pub on_command :
      Bool → Draws → Commander Topology → CommandId → Command → Result (Commander Topology)
  unfolding recover
  on_command tracing draws c command_id command =
      recover c (handle_command tracing draws c command_id command)
