-- ===== src/Master/Placement/Hosts.antt =====
-- placement_utils.py: the addresses by which the nodes of an instance reach each other.
use agent_setup.Base.{
  ℕ, suc, ◌+◌, ◌-◌, ◌%◌, Bool, true, false, Option, none, some, List, [], ◌∷◌, String, ltb, nat_beq,
  length, ◌||◌, if◌then◌else◌,
}
use agent_setup.Base.Eq.{◌==◌, text_eq}
use agent_setup.Base.Dict.{Dict, get, insert}
use agent_setup.Base.Result.{Result, ok, raise, value_error, ◌>>=◌, or_raise}
use agent_setup.Types.Common.{NodeId}
use agent_setup.Types.Workers.{Host}
use agent_setup.Types.Nodes.{Edge, NetworkInterfaceInfo, InterfaceType}
use agent_setup.Shared.Interface.{TopologyOps}

-- _find_connection_ip
unfoldable pub socket_ips : List Edge → List String
socket_ips [] = []
socket_ips (Edge.socket ip port ∷ edges) = ip ∷ socket_ips edges
socket_ips (Edge.rdma source_iface sink_iface ∷ edges) = socket_ips edges

-- {iface.ip_address: iface.interface_type for iface in interfaces}
unfoldable pub ip_types :
    List NetworkInterfaceInfo → Dict String InterfaceType → Dict String InterfaceType
ip_types [] d = d
ip_types (iface ∷ ifaces) d = ip_types ifaces (insert d iface.ip_address iface.interface_type)

abbrev pub ring_priority : InterfaceType → ℕ
ring_priority InterfaceType.thunderbolt = 0
ring_priority InterfaceType.maybe_ethernet = 1
ring_priority InterfaceType.ethernet = 2
ring_priority InterfaceType.wifi = 3
ring_priority InterfaceType.unknown = 4

abbrev pub rdma_priority : InterfaceType → ℕ
rdma_priority InterfaceType.ethernet = 0
rdma_priority InterfaceType.wifi = 1
rdma_priority InterfaceType.unknown = 2
rdma_priority InterfaceType.maybe_ethernet = 3
rdma_priority InterfaceType.thunderbolt = 4

-- priority.get(ip_to_type.get(ip, "unknown"), 2), where every type has a priority
abbrev pub priority_of : Bool → Option InterfaceType → ℕ
priority_of true none = ring_priority InterfaceType.unknown
priority_of false none = rdma_priority InterfaceType.unknown
priority_of true (some t) = ring_priority t
priority_of false (some t) = rdma_priority t

-- min(ips, key=…): the first of the least
unfoldable pub min_from : (String → ℕ) → String → List String → String
min_from key best [] = best
min_from key best (ip ∷ ips) = min_from key (if ltb (key ip) (key best) then ip else best) ips

-- The first RDMA connection's interface.
unfoldable pub first_rdma : List Edge → Result String
first_rdma [] = raise value_error
first_rdma (Edge.rdma source_iface sink_iface ∷ edges) = ok source_iface
first_rdma (Edge.socket ip port ∷ edges) = first_rdma edges

abbrev pub interfaces_of : Option (List NetworkInterfaceInfo) → List NetworkInterfaceInfo
interfaces_of none = []
interfaces_of (some ifaces) = ifaces

best_ip : (String → ℕ) → List String → Option String
best_ip key [] = none
best_ip key (ip ∷ ips) = some (min_from key ip ips)

module _ (net : TopologyOps) (node_network : Dict NodeId (List NetworkInterfaceInfo)) where
  open net use {Topology, list_nodes, get_all_connections_between}

  unfoldable pub find_ip_prioritised : Topology → Bool → NodeId → NodeId → Option String
  unfolding best_ip
  find_ip_prioritised graph ring node_id other_node_id =
      let types = ip_types (interfaces_of (get node_network other_node_id)) [] in
      best_ip (λ ip. priority_of ring (get types ip))
        (socket_ips (get_all_connections_between graph node_id other_node_id))

  -- One entry of a node's list of hosts in a ring of `world` nodes.
  unfoldable pub host_at : Topology → ℕ → ℕ → ℕ → NodeId → ℕ → NodeId → Result Host
  host_at graph port world rank node_id idx other =
      if nat_beq idx rank
      then ok (record { ip = "0.0.0.0"; port = port })
      else if nat_beq idx ((rank + world - 1) % world) || nat_beq idx ((rank + 1) % world)
      then (or_raise (find_ip_prioritised graph true node_id other) value_error >>= λ ip.
          ok (record { ip = ip; port = port }))
      else ok (record { ip = "198.51.100.1"; port = 0 })

  unfoldable pub hosts_for : Topology → ℕ → ℕ → ℕ → NodeId → ℕ → List NodeId → Result (List Host)
  hosts_for graph port world rank node_id idx [] = ok []
  hosts_for graph port world rank node_id idx (other ∷ others) = do
    host ← host_at graph port world rank node_id idx other
    hosts ← hosts_for graph port world rank node_id (suc idx) others
    ok (host ∷ hosts)

  unfoldable pub hosts_from :
      Topology
      → ℕ
      → List NodeId
      → ℕ
      → List NodeId
      → Dict NodeId (List Host)
      → Result (Dict NodeId (List Host))
  hosts_from graph port cycle rank [] d = ok d
  hosts_from graph port cycle rank (node_id ∷ node_ids) d = do
    hosts ← hosts_for graph port (length cycle) rank node_id 0 cycle
    hosts_from graph port cycle (suc rank) node_ids (insert d node_id hosts)

  -- get_mlx_ring_hosts_by_node
  unfoldable pub ring_hosts : Topology → ℕ → List NodeId → Result (Dict NodeId (List Host))
  ring_hosts graph port cycle = hosts_from graph port cycle 0 cycle []

  unfoldable pub device_row :
      Topology → ℕ → NodeId → ℕ → List NodeId → Result (List (Option String))
  device_row graph i node_i j [] = ok []
  device_row graph i node_i j (node_j ∷ nodes) = do
    cell ←
        (if nat_beq i j
          then ok none
          else (first_rdma (get_all_connections_between graph node_i node_j) >>= λ iface.
              ok (some iface)))
    cells ← device_row graph i node_i (suc j) nodes
    ok (cell ∷ cells)

  unfoldable pub device_rows :
      Topology → List NodeId → ℕ → List NodeId → Result (List (List (Option String)))
  device_rows graph cycle i [] = ok []
  device_rows graph cycle i (node_i ∷ nodes) = do
    row ← device_row graph i node_i 0 cycle
    rows ← device_rows graph cycle (suc i) nodes
    ok (row ∷ rows)

  -- get_mlx_jaccl_devices_matrix
  unfoldable pub devices_matrix : Topology → List NodeId → Result (List (List (Option String)))
  devices_matrix graph cycle = device_rows graph cycle 0 cycle

  -- get_ip_for_node
  unfoldable pub ip_for_node : Topology → NodeId → NodeId → Result String
  ip_for_node graph coordinator n =
      if n == coordinator
      then ok "0.0.0.0"
      else or_raise (find_ip_prioritised graph false n coordinator) value_error

  unfoldable pub coordinators_from :
      Topology → NodeId → ℕ → List NodeId → Dict NodeId Host → Result (Dict NodeId Host)
  coordinators_from graph coordinator port [] d = ok d
  coordinators_from graph coordinator port (n ∷ nodes) d = do
    ip ← ip_for_node graph coordinator n
    coordinators_from graph coordinator port nodes (insert d n (record { ip = ip; port = port }))

  -- get_mlx_jaccl_coordinators; an address "IP:PORT" is kept as its two parts.
  unfoldable pub jaccl_coordinators : Topology → NodeId → ℕ → Result (Dict NodeId Host)
  jaccl_coordinators graph coordinator port =
      coordinators_from graph coordinator port (list_nodes graph) []
