-- ===== src/Shared/Interface.antt =====
-- What `apply` and the placement use of src/exo/shared/topology.py, class `Topology`. An operation that mutates the
-- object returns the new one. `get_thunderbolt_bridge_cycles` numbers the nodes in the order of a
-- Python set, which is each process's own: a value of the interface is one process's view.
use agent_setup.Base.{Bool, List}
use agent_setup.Base.Dict.{Dict}
use agent_setup.Types.Common.{NodeId}
use agent_setup.Types.Nodes.{Connection, Edge, NetworkInterfaceInfo, ThunderboltBridgeStatus}

pub record TopologyOps : Type 1 where
  pub Topology : Type 0
  pub empty : Topology
  pub list_nodes : Topology → List NodeId
  pub add_node : Topology → NodeId → Topology
  pub remove_node : Topology → NodeId → Topology
  pub add_connection : Topology → Connection → Topology
  pub remove_connection : Topology → Connection → Topology
  pub replace_all_out_rdma_connections : Topology → NodeId → List Connection → Topology
  pub remove_all_rdma_connections_touching : Topology → NodeId → Topology
  pub get_thunderbolt_bridge_cycles :
      Topology
      → Dict NodeId ThunderboltBridgeStatus
      → Dict NodeId (List NetworkInterfaceInfo)
      → List (List NodeId)
  pub get_cycles : Topology → List (List NodeId)
  pub get_subgraph_from_nodes : Topology → List NodeId → Topology
  pub get_all_connections_between : Topology → NodeId → NodeId → List Edge
  pub is_rdma_cycle : Topology → List NodeId → Bool
  pub node_is_leaf : Topology → NodeId → Bool
