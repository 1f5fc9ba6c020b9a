-- ===== src/Master/Placement/Choice.antt =====
-- placement.py: `place_instance`. What the master's state says of the cluster is one record; the
-- identifiers and the port that the code draws are arguments.
pub mod Filters
pub mod Suited
use agent_setup.Base.{
  ℕ, Bool, true, false, not, ◌&&◌, Option, none, some, List, [], ◌∷◌, leb, nat_beq, length, keep_if,
  any_of, all_of, if◌then◌else◌, String,
}
use agent_setup.Base.Eq.{text_eq}
use agent_setup.Base.Dict.{Dict, get, insert}
use agent_setup.Base.Result.{Result, ok, raise, assertion_error, key_error, ◌>>=◌, ◌>>◌, or_raise}
use agent_setup.Types.Common.{NodeId}
use agent_setup.Types.Nodes.{MemoryUsage, NetworkInterfaceInfo}
use agent_setup.Types.Workers.{
  ModelCard, DownloadProgress, ShardAssignments, RunnerId, Instance, InstanceId, InstanceKind,
}
use agent_setup.Shared.Interface.{TopologyOps}
use agent_setup.Master.Placement.Allocation.{Floats}
use agent_setup.Master.Placement.Shards.{
  Sharding, by_pipeline, require, is_nil, get_shard_assignments,
}
use agent_setup.Master.Placement.Hosts.{ring_hosts, devices_matrix, jaccl_coordinators}
use agent_setup.Master.Placement.Cycles.{
  Cycle, InstanceMeta, mlx_ring, mlx_jaccl, among, filter_cycles_by_memory, filter_by_sharding,
  get_smallest_cycles, required_backends, supports, all_rdma_ctl_enabled, key_below, best_cycle,
}

-- The command PlaceInstance.
pub record PlaceInstance : Type 0 where
  pub model_card : ModelCard
  pub sharding : Sharding
  pub instance_meta : InstanceMeta
  pub min_nodes : ℕ

-- The arguments of `place_instance` that describe the cluster.
pub record Cluster (T : Type 0) : Type 0 where
  pub topology : T
  pub node_memory : Dict NodeId MemoryUsage
  pub node_network : Dict NodeId (List NetworkInterfaceInfo)
  pub node_backends : Dict NodeId (List String)
  pub download_status : Dict NodeId (List DownloadProgress)
  pub node_rdma_ctl : Dict NodeId Bool

-- InstanceId(), the RunnerId() of each rank, random_ephemeral_port()
pub record Fresh : Type 0 where
  pub instance_id : InstanceId
  pub runner_id : ℕ → RunnerId
  pub port : ℕ

-- The cycles that are long enough, contain the required nodes and have the memory. No required
-- nodes filter nothing.
unfoldable pub eligible :
    PlaceInstance → List NodeId → Dict NodeId MemoryUsage → List Cycle → List Cycle
eligible command required_nodes node_memory cycles =
    filter_cycles_by_memory
      (keep_if (λ (c : Cycle). all_of (among c) required_nodes)
        (keep_if (λ (c : Cycle). leb command.min_nodes (length c)) cycles))
      node_memory command.model_card.storage_size

-- Jaccl keeps the cycles over RDMA only.
unfoldable pub rdma_only : InstanceMeta → (Cycle → Bool) → List Cycle → Result (List Cycle)
rdma_only mlx_ring rdma cycles = ok cycles
rdma_only mlx_jaccl rdma cycles = do
  let kept = keep_if rdma cycles
  require (not (is_nil kept))
  ok kept

-- Cycles with a leaf node go first.
unfoldable pub prefer_leaf : (NodeId → Bool) → List Cycle → List Cycle
prefer_leaf leaf cycles =
    let kept = keep_if (any_of leaf) cycles in if is_nil kept then cycles else kept

-- A single node runs as a pipeline in a ring.
unfoldable pub resolved : PlaceInstance → Cycle → PlaceInstance
resolved command cycle =
    if nat_beq (length cycle) 1
    then record command { sharding = by_pipeline; instance_meta = mlx_ring }
    else command

-- get_device_rank
unfoldable pub device_rank_of : ShardAssignments → NodeId → Result ℕ
device_rank_of a n = do
  runner_id ← or_raise (get a.node_to_runner n) key_error
  shard ← or_raise (get a.runner_to_shard runner_id) assertion_error
  ok shard.device_rank

-- [node_id for node_id in cycle if get_device_rank(node_id) == 0]
unfoldable pub zero_nodes : ShardAssignments → Cycle → Result (List NodeId)
zero_nodes a [] = ok []
zero_nodes a (n ∷ ns) = do
  rank ← device_rank_of a n
  rest ← zero_nodes a ns
  ok (if nat_beq rank 0 then n ∷ rest else rest)

abbrev pub the_only : List NodeId → Result NodeId
the_only (n ∷ []) = ok n
the_only _ = raise assertion_error

module _ (net : TopologyOps) where
  open net use {Topology, is_rdma_cycle}

  abbrev pub over_rdma : Cluster Topology → Cycle → Bool
  over_rdma cluster cycle =
      is_rdma_cycle cluster.topology cycle && all_rdma_ctl_enabled cluster.node_rdma_ctl cycle

  -- What the instance needs besides its shards.
  unfoldable pub instance_kind :
      InstanceMeta
      → Topology
      → Dict NodeId (List NetworkInterfaceInfo)
      → ShardAssignments
      → ℕ
      → Cycle
      → Result InstanceKind
  instance_kind mlx_jaccl graph node_network a port cycle = do
    zeros ← zero_nodes a cycle
    coordinator ← the_only zeros
    devices ← devices_matrix net node_network graph cycle
    coordinators ← jaccl_coordinators net node_network graph coordinator port
    ok (InstanceKind.mlx_jaccl devices coordinators)
  instance_kind mlx_ring graph node_network a port cycle = do
    hosts ← ring_hosts net node_network graph port cycle
    ok (InstanceKind.mlx_ring hosts port)

module _ (floats : Floats) (net : TopologyOps) where
  open net use {Topology, get_cycles, get_subgraph_from_nodes, node_is_leaf}

  -- `place_instance` up to the choice of the cycle.
  unfoldable pub select_cycle : PlaceInstance → List NodeId → Cluster Topology → Result Cycle
  select_cycle command required_nodes cluster = do
    let fitting = eligible command required_nodes cluster.node_memory (get_cycles cluster.topology)
    require (not (is_nil fitting))
    sharded ← filter_by_sharding command.model_card command.sharding fitting
    smallest ← get_smallest_cycles sharded
    let backends = required_backends command.instance_meta command.model_card
    require (not (is_nil backends))
    let supported = keep_if (supports cluster.node_backends backends) smallest
    require (not (is_nil supported))
    linked ← rdma_only command.instance_meta (over_rdma net cluster) supported
    best_cycle
        (key_below floats cluster.download_status cluster.node_memory command.model_card.model_id)
        (prefer_leaf (node_is_leaf cluster.topology) linked)

  -- The instance on the cycle that was chosen.
  unfoldable pub build_instance : PlaceInstance → Cluster Topology → Fresh → Cycle → Result Instance
  build_instance command cluster fresh cycle = do
    a ←
        get_shard_assignments floats fresh.runner_id command.model_card cycle command.sharding
          cluster.node_memory
    kind ←
        instance_kind net command.instance_meta (get_subgraph_from_nodes cluster.topology cycle)
          cluster.node_network a fresh.port cycle
    ok (record { instance_id = fresh.instance_id; shard_assignments = a; kind = kind })

  unfoldable pub place_instance :
      PlaceInstance
      → List NodeId
      → Cluster Topology
      → Dict InstanceId Instance
      → Fresh
      → Result (Dict InstanceId Instance)
  place_instance command required_nodes cluster current_instances fresh = do
    cycle ← select_cycle command required_nodes cluster
    placed ← build_instance (resolved command cycle) cluster fresh cycle
    ok (insert current_instances fresh.instance_id placed)
