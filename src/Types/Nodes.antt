-- ===== src/Types/Nodes.antt =====
-- src/exo/shared/types/profiling.py, thunderbolt.py, topology.py, instance_link.py and the records of
-- src/exo/utils/info_gatherer/info_gatherer.py: what nodes report about themselves. Amounts of
-- memory are numbers of bytes; readings that are floats are only stored, and are texts here.
use agent_setup.Base.{ℕ, Bool, Option, List, String}
use agent_setup.Types.Common.{NodeId}
use agent_setup.Types.Workers.{InstanceId}

pub record MemoryUsage : Type 0 where
  pub ram_total : ℕ
  pub ram_available : ℕ
  pub swap_total : ℕ
  pub swap_available : ℕ

pub record DiskUsage : Type 0 where
  pub total : ℕ
  pub available : ℕ

pub record SystemPerformanceProfile : Type 0 where
  pub gpu_usage : String
  pub temp : String
  pub sys_power : String
  pub pcpu_usage : String
  pub ecpu_usage : String

pub record NodeIdentity : Type 0 where
  pub model_id : String
  pub chip_id : String
  pub friendly_name : String
  pub os_version : String
  pub os_build_version : String

pub data InterfaceType : Type 0 where
  wifi ethernet maybe_ethernet thunderbolt unknown : InterfaceType

pub record NetworkInterfaceInfo : Type 0 where
  pub name : String
  pub ip_address : String
  pub interface_type : InterfaceType

pub record ThunderboltIdentifier : Type 0 where
  pub rdma_interface : String
  pub domain_uuid : String
  pub link_speed : String

pub record ThunderboltConnection : Type 0 where
  pub source_uuid : String
  pub sink_uuid : String

pub record ThunderboltBridgeStatus : Type 0 where
  pub enabled : Bool
  pub is_present : Bool
  pub service_name : Option String

-- RDMAConnection (source and sink interface), SocketConnection (the sink's IP address and port).
pub data Edge : Type 0 where
  rdma : String → String → Edge
  socket : String → ℕ → Edge

pub record Connection : Type 0 where
  pub source : NodeId
  pub sink : NodeId
  pub edge : Edge

pub record InstanceLink : Type 0 where
  pub link_id : String
  pub prefill_instances : List InstanceId
  pub decode_instances : List InstanceId

pub data GatheredInfo : Type 0 where
  macmon_metrics : SystemPerformanceProfile → MemoryUsage → GatheredInfo
  memory_usage : MemoryUsage → GatheredInfo
  node_disk_usage : DiskUsage → GatheredInfo
  node_config : GatheredInfo
  misc_data : String → GatheredInfo
  static_node_information : String → String → String → String → GatheredInfo
  node_network_interfaces : List NetworkInterfaceInfo → GatheredInfo
  mac_thunderbolt_identifiers : List ThunderboltIdentifier → GatheredInfo
  mac_thunderbolt_connections : List ThunderboltConnection → GatheredInfo
  thunderbolt_bridge_info : ThunderboltBridgeStatus → GatheredInfo
  rdma_ctl_status : Bool → GatheredInfo
  node_backends : List String → GatheredInfo
