-- ===== src/Shared/Apply/Gathered.antt =====
-- apply_node_gathered_info: what each kind of report adds to the state, whose `last_seen` and
-- topology already hold the node.
use agent_setup.Base.{
  Bool, true, false, not, ◌&&◌, Option, none, some, List, [], ◌∷◌, ◌++◌, String, if◌then◌else◌,
}
use agent_setup.Base.Eq.{text_eq}
use agent_setup.Base.Dict.{Dict, get, insert}
use agent_setup.Types.Common.{NodeId}
use agent_setup.Types.Nodes.{
  NodeIdentity, ThunderboltIdentifier, ThunderboltConnection, ThunderboltBridgeStatus, Connection,
  rdma, GatheredInfo,
}
use agent_setup.Types.State.{State}
use agent_setup.Shared.Interface.{TopologyOps}

-- _is_rdma_ctl_enabled
unfoldable pub is_rdma_ctl_enabled : NodeId → Dict NodeId Bool → Bool
is_rdma_ctl_enabled node_id node_rdma_ctl = elim (get node_rdma_ctl node_id) [
  | none ↦ false
  | some enabled ↦ enabled
]

-- NodeIdentity()
abbrev pub unknown_identity : NodeIdentity
unknown_identity = record {
  model_id = "Unknown";
  chip_id = "Unknown";
  friendly_name = "Unknown";
  os_version = "Unknown";
  os_build_version = "Unknown";
}

abbrev pub identity_or_unknown : Option NodeIdentity → NodeIdentity
identity_or_unknown none = unknown_identity
identity_or_unknown (some identity) = identity

add_identifiers :
    NodeId
    → List ThunderboltIdentifier
    → Dict String (NodeId × String)
    → Dict String (NodeId × String)
add_identifiers node_id [] conn_map = conn_map
add_identifiers node_id (ident ∷ idents) conn_map =
    add_identifiers node_id idents
      (insert conn_map ident.domain_uuid (node_id, ident.rdma_interface))

add_nodes :
    Dict NodeId (List ThunderboltIdentifier)
    → Dict String (NodeId × String)
    → Dict String (NodeId × String)
unfolding add_identifiers
add_nodes [] conn_map = conn_map
add_nodes ((node_id, idents) ∷ nodes) conn_map =
    add_nodes nodes (add_identifiers node_id idents conn_map)

-- conn_map
unfoldable pub thunderbolt_map :
    Dict NodeId (List ThunderboltIdentifier) → Dict String (NodeId × String)
unfolding add_nodes
thunderbolt_map nodes = add_nodes nodes []

rdma_connection :
    NodeId
    → Dict NodeId Bool
    → Option (NodeId × String)
    → Option (NodeId × String)
    → List Connection
rdma_connection node_id node_rdma_ctl (some (source, source_iface)) (some (sink, sink_iface)) =
    if is_rdma_ctl_enabled node_id node_rdma_ctl && is_rdma_ctl_enabled sink node_rdma_ctl
    then record { source = node_id; sink = sink; edge = rdma source_iface sink_iface } ∷ []
    else []
rdma_connection node_id node_rdma_ctl _ _ = []

-- as_rdma_conns
unfoldable pub as_rdma_conns :
    NodeId
    → Dict NodeId Bool
    → Dict String (NodeId × String)
    → List ThunderboltConnection
    → List Connection
unfolding rdma_connection
as_rdma_conns node_id node_rdma_ctl conn_map [] = []
as_rdma_conns node_id node_rdma_ctl conn_map (conn ∷ conns) =
    rdma_connection node_id node_rdma_ctl (get conn_map conn.source_uuid)
      (get conn_map conn.sink_uuid)
    ++ as_rdma_conns node_id node_rdma_ctl conn_map conns

-- status is not None and status.enabled
abbrev pub bridge_enabled : Option ThunderboltBridgeStatus → Bool
bridge_enabled none = false
bridge_enabled (some status) = status.enabled

abbrev differ : Bool → Bool → Bool
differ true b = not b
differ false b = b

module _ (net : TopologyOps) where
  open net use {
    Topology, replace_all_out_rdma_connections, remove_all_rdma_connections_touching,
    get_thunderbolt_bridge_cycles,
  }

  unfoldable pub gathered : NodeId → GatheredInfo → State Topology → State Topology
  gathered node_id (GatheredInfo.macmon_metrics profile memory) s = record s {
    node_system = insert s.node_system node_id profile;
    node_memory = insert s.node_memory node_id memory;
  }
  gathered node_id (GatheredInfo.memory_usage memory) s = record s {
    node_memory = insert s.node_memory node_id memory;
  }
  gathered node_id (GatheredInfo.node_disk_usage usage) s = record s {
    node_disk = insert s.node_disk node_id usage;
  }
  gathered node_id GatheredInfo.node_config s = s
  gathered node_id (GatheredInfo.misc_data friendly_name) s =
      let current = identity_or_unknown (get s.node_identities node_id) in
      record s {
        node_identities =
            insert s.node_identities node_id (record current { friendly_name = friendly_name });
      }
  gathered node_id (GatheredInfo.static_node_information model chip os_version os_build_version) s =
      let current = identity_or_unknown (get s.node_identities node_id) in
      record s {
        node_identities = insert s.node_identities node_id (record current {
          model_id = model;
          chip_id = chip;
          os_version = os_version;
          os_build_version = os_build_version;
        });
      }
  gathered node_id (GatheredInfo.node_network_interfaces ifaces) s = record s {
    node_network = insert s.node_network node_id ifaces;
  }
  gathered node_id (GatheredInfo.mac_thunderbolt_identifiers idents) s = record s {
    node_thunderbolt = insert s.node_thunderbolt node_id idents;
  }
  gathered node_id (GatheredInfo.mac_thunderbolt_connections conns) s = record s {
    topology =
        replace_all_out_rdma_connections s.topology node_id
          (as_rdma_conns node_id s.node_rdma_ctl (thunderbolt_map s.node_thunderbolt) conns);
  }
  gathered node_id (GatheredInfo.thunderbolt_bridge_info status) s =
      let bridges = insert s.node_thunderbolt_bridge node_id status in
      record s {
        node_thunderbolt_bridge = bridges;
        thunderbolt_bridge_cycles =
            if differ (bridge_enabled (get s.node_thunderbolt_bridge node_id)) status.enabled
            then get_thunderbolt_bridge_cycles s.topology bridges s.node_network
            else s.thunderbolt_bridge_cycles;
      }
  gathered node_id (GatheredInfo.rdma_ctl_status enabled) s = record s {
    node_rdma_ctl = insert s.node_rdma_ctl node_id enabled;
    topology =
        if enabled then s.topology else remove_all_rdma_connections_touching s.topology node_id;
  }
  gathered node_id (GatheredInfo.node_backends backends) s = record s {
    node_backends = insert s.node_backends node_id backends;
  }
