-- ===== src/Types/Events.antt =====
-- src/exo/shared/types/events.py. An event has its identifier and its content. The chunks and the
-- traces, which no operation here looks into, are texts. `when` is the instant that the text of the
-- source denotes, in microseconds.
use agent_setup.Base.{ℕ, List, String}
use agent_setup.Types.Common.{NodeId, SessionId}
use agent_setup.Types.Workers.{
  ModelCard, ModelId, RunnerId, RunnerStatus, Instance, InstanceId, DownloadProgress,
}
use agent_setup.Types.Tasks.{Task, TaskId, TaskStatus, CommandId}
use agent_setup.Types.Nodes.{GatheredInfo, Connection, InstanceLink}

pub data EventKind : Type 0 where
  test_event : EventKind
  task_created : TaskId → Task → EventKind
  task_acknowledged task_deleted : TaskId → EventKind
  task_status_updated : TaskId → TaskStatus → EventKind
  task_failed : TaskId → String → String → EventKind
  instance_created : Instance → EventKind
  instance_deleted : InstanceId → EventKind
  runner_status_updated : RunnerId → RunnerStatus → EventKind
  node_timed_out : NodeId → EventKind
  node_gathered_info : NodeId → ℕ → GatheredInfo → EventKind
  node_download_progress : DownloadProgress → EventKind
  chunk_generated input_chunk_received : CommandId → String → EventKind
  topology_edge_created topology_edge_deleted : Connection → EventKind
  custom_model_card_added : ModelCard → EventKind
  custom_model_card_deleted : ModelId → EventKind
  traces_collected : TaskId → ℕ → List String → EventKind
  traces_merged : TaskId → List String → EventKind
  instance_link_created : InstanceLink → EventKind
  instance_link_deleted : String → EventKind

pub record Event : Type 0 where
  pub event_id : String
  pub kind : EventKind

pub record IndexedEvent : Type 0 where
  pub idx : ℕ
  pub event : Event

-- Events on the network: the master's to all nodes, and a node's to the master.
pub record GlobalForwarderEvent : Type 0 where
  pub origin_idx : ℕ
  pub origin : NodeId
  pub session : SessionId
  pub event : Event

pub record LocalForwarderEvent : Type 0 where
  pub origin_idx : ℕ
  pub origin : String
  pub session : SessionId
  pub event : Event
