-- ===== src/Types/State.antt =====
-- src/exo/shared/types/state.py. The topology's type is a parameter: see Shared.Interface.
use agent_setup.Base.{ℕ, List, [], String}
use agent_setup.Base.Int.{ℤ, negsuc}
use agent_setup.Base.Dict.{Dict}
use agent_setup.Types.Common.{NodeId}
use agent_setup.Types.Workers.{
  ModelCard, ModelId, RunnerId, RunnerStatus, Instance, InstanceId, DownloadProgress,
}
use agent_setup.Types.Tasks.{Task, TaskId}
use agent_setup.Types.Nodes.{
  MemoryUsage, DiskUsage, SystemPerformanceProfile, NodeIdentity, NetworkInterfaceInfo,
  ThunderboltIdentifier, ThunderboltBridgeStatus, InstanceLink,
}
use agent_setup.Base.{Bool}

pub record State (T : Type 0) : Type 0 where
  pub instances : Dict InstanceId Instance
  pub runners : Dict RunnerId RunnerStatus
  pub downloads : Dict NodeId (List DownloadProgress)
  pub tasks : Dict TaskId Task
  pub last_seen : Dict NodeId ℕ
  pub topology : T
  pub last_event_applied_idx : ℤ
  pub node_identities : Dict NodeId NodeIdentity
  pub node_memory : Dict NodeId MemoryUsage
  pub node_disk : Dict NodeId DiskUsage
  pub node_system : Dict NodeId SystemPerformanceProfile
  pub node_network : Dict NodeId (List NetworkInterfaceInfo)
  pub node_thunderbolt : Dict NodeId (List ThunderboltIdentifier)
  pub node_thunderbolt_bridge : Dict NodeId ThunderboltBridgeStatus
  pub node_rdma_ctl : Dict NodeId Bool
  pub node_backends : Dict NodeId (List String)
  pub thunderbolt_bridge_cycles : List (List NodeId)
  pub instance_links : Dict String InstanceLink
  pub prefill_server_ports : Dict RunnerId ℕ
  pub custom_model_cards : Dict ModelId ModelCard

-- State(), over an empty topology.
unfoldable pub initial : {T : Type 0} → T → State T
initial topology = record {
  instances = [];
  runners = [];
  downloads = [];
  tasks = [];
  last_seen = [];
  topology = topology;
  last_event_applied_idx = negsuc 0;
  node_identities = [];
  node_memory = [];
  node_disk = [];
  node_system = [];
  node_network = [];
  node_thunderbolt = [];
  node_thunderbolt_bridge = [];
  node_rdma_ctl = [];
  node_backends = [];
  thunderbolt_bridge_cycles = [];
  instance_links = [];
  prefill_server_ports = [];
  custom_model_cards = [];
}
