-- ===== src/Shared/Apply.antt =====
-- src/exo/shared/apply.py: how each event changes the state.
pub mod Gathered
pub mod Order
pub mod Bridges
pub mod Links
pub mod WellFormed
pub mod Preserve
use agent_setup.Base.{
  ℕ, suc, ◌-◌, Bool, true, false, not, ◌&&◌, ◌||◌, Option, none, some, List, [], ◌∷◌, ◌++◌, String,
  keep_if, if◌then◌else◌,
}
use agent_setup.Base.Int.{ℤ, pos, sub_ℕ, eqb_ℤ}
use agent_setup.Base.Eq.{◌==◌, text_eq}
use agent_setup.Base.Dict.{Dict, get, has, insert, without}
use agent_setup.Base.Result.{Result, ok, raise, assertion_error, ◌>>=◌, ◌>>◌, assert}
use agent_setup.Types.Common.{NodeId}
use agent_setup.Types.Workers.{
  ModelCard, ModelId, RunnerId, RunnerStatus, runner_shutdown, runner_ready, Instance, InstanceId,
  DownloadProgress,
}
use agent_setup.Types.Tasks.{Task, TaskId, TaskStatus, is_failed}
use agent_setup.Types.Nodes.{Connection, InstanceLink, ThunderboltBridgeStatus, GatheredInfo}
use agent_setup.Types.Events.{Event, IndexedEvent, EventKind}
use agent_setup.Types.State.{State}
use agent_setup.Shared.Interface.{TopologyOps}
use Gathered.{gathered, bridge_enabled}

abbrev pub model_of : DownloadProgress → ModelId
model_of dp = dp.shard_metadata.model_card.model_id

-- The loop that replaces the first entry of the same model, or appends.
unfoldable pub replace_download : List DownloadProgress → DownloadProgress → List DownloadProgress
replace_download [] dp = dp ∷ []
replace_download (old ∷ current) dp =
    let rest = replace_download current dp in
    if model_of old == model_of dp then dp ∷ current else old ∷ rest

abbrev pub or_nil {ℓ} : {A : Type ℓ} → Option (List A) → List A
or_nil none = []
or_nil (some xs) = xs

abbrev pub same_strings : List String → List String → Bool
same_strings [] [] = true
same_strings (x ∷ xs) (y ∷ ys) = x == y && same_strings xs ys
same_strings _ _ = false

abbrev pub is_empty {ℓ} : {A : Type ℓ} → List A → Bool
is_empty [] = true
is_empty (x ∷ xs) = false

-- [i for i in ids if i != gone]
abbrev pub others : InstanceId → List InstanceId → List InstanceId
others gone ids = keep_if (λ i. not (i == gone)) ids

-- The body of the loop over the links in apply_instance_deleted: a link loses the instance, and is
-- dropped when one of its sides is left empty.
unfoldable pub prune_link : InstanceId → InstanceLink → Option InstanceLink
prune_link gone link =
    let prefill = others gone link.prefill_instances in
    let decode = others gone link.decode_instances in
    if is_empty prefill || is_empty decode
    then none
    else if same_strings prefill link.prefill_instances && same_strings decode link.decode_instances
    then some link
    else some (record link { prefill_instances = prefill; decode_instances = decode })

keep_link : String → Option InstanceLink → Dict String InstanceLink → Dict String InstanceLink
keep_link link_id none links = links
keep_link link_id (some link) links = (link_id, link) ∷ links

unfoldable pub prune_links : Dict String InstanceLink → InstanceId → Dict String InstanceLink
unfolding keep_link
prune_links [] gone = []
prune_links ((link_id, link) ∷ links) gone =
    keep_link link_id (prune_link gone link) (prune_links links gone)

set_status : TaskStatus → Task → Task
set_status status task =
    if is_failed status
    then record task { task_status = status }
    else record task { task_status = status; error_type = none; error_message = none }

set_error : String → String → Task → Task
set_error error_type message task = record task {
  error_type = some error_type;
  error_message = some message;
}

module _ {T : Type 0} where
  unfoldable pub apply_node_download_progress : DownloadProgress → State T → State T
  apply_node_download_progress dp s = record s {
    downloads =
        insert s.downloads dp.node_id (replace_download (or_nil (get s.downloads dp.node_id)) dp);
  }

  unfoldable pub apply_task_created : TaskId → Task → State T → State T
  apply_task_created task_id task s = record s { tasks = insert s.tasks task_id task }

  unfoldable pub apply_task_deleted : TaskId → State T → State T
  apply_task_deleted task_id s = record s { tasks = without s.tasks task_id }

  with_task : State T → TaskId → (Task → Task) → Option Task → State T
  with_task s task_id update none = s
  with_task s task_id update (some task) = record s { tasks = insert s.tasks task_id (update task) }

  unfoldable pub apply_task_status_updated : TaskId → TaskStatus → State T → State T
  unfolding set_status with_task
  apply_task_status_updated task_id status s =
      with_task s task_id (set_status status) (get s.tasks task_id)

  unfoldable pub apply_task_failed : TaskId → String → String → State T → State T
  unfolding set_error with_task
  apply_task_failed task_id error_type message s =
      with_task s task_id (set_error error_type message) (get s.tasks task_id)

  unfoldable pub apply_instance_created : Instance → State T → State T
  apply_instance_created instance_ s = record s {
    instances = insert s.instances instance_.instance_id instance_;
  }

  unfoldable pub apply_instance_deleted : InstanceId → State T → State T
  apply_instance_deleted instance_id s = record s {
    instances = without s.instances instance_id;
    instance_links = prune_links s.instance_links instance_id;
  }

  unfoldable pub apply_instance_link_created : InstanceLink → State T → State T
  apply_instance_link_created link s = record s {
    instance_links = insert s.instance_links link.link_id link;
  }

  unfoldable pub apply_instance_link_deleted : String → State T → State T
  apply_instance_link_deleted link_id s = record s {
    instance_links = without s.instance_links link_id;
  }

  unfoldable pub apply_runner_status_updated : RunnerId → RunnerStatus → State T → State T
  apply_runner_status_updated runner_id runner_shutdown s = record s {
    runners = without s.runners runner_id;
    prefill_server_ports = without s.prefill_server_ports runner_id;
  }
  apply_runner_status_updated runner_id (runner_ready (some port)) s = record s {
    runners = insert s.runners runner_id (runner_ready (some port));
    prefill_server_ports = insert s.prefill_server_ports runner_id port;
  }
  apply_runner_status_updated runner_id status s = record s {
    runners = insert s.runners runner_id status;
  }

  unfoldable pub apply_custom_model_card_added : ModelCard → State T → State T
  apply_custom_model_card_added card s = record s {
    custom_model_cards = insert s.custom_model_cards card.model_id card;
  }

  unfoldable pub apply_custom_model_card_deleted : ModelId → State T → State T
  apply_custom_model_card_deleted model_id s = record s {
    custom_model_cards = without s.custom_model_cards model_id;
  }

module _ (net : TopologyOps) where
  open net use {
    Topology, add_node, remove_node, add_connection, remove_connection,
    get_thunderbolt_bridge_cycles,
  }

  -- The cycles are computed anew only if the node that leaves had its bridge enabled.
  unfoldable pub apply_node_timed_out : NodeId → State Topology → State Topology
  apply_node_timed_out node_id s =
      let topology = remove_node s.topology node_id in
      let bridges = without s.node_thunderbolt_bridge node_id in
      let network = without s.node_network node_id in
      record s {
        downloads = without s.downloads node_id;
        topology = topology;
        last_seen = without s.last_seen node_id;
        node_memory = without s.node_memory node_id;
        node_disk = without s.node_disk node_id;
        node_system = without s.node_system node_id;
        node_network = network;
        node_thunderbolt = without s.node_thunderbolt node_id;
        node_thunderbolt_bridge = bridges;
        node_rdma_ctl = without s.node_rdma_ctl node_id;
        thunderbolt_bridge_cycles =
            if bridge_enabled (get s.node_thunderbolt_bridge node_id)
            then get_thunderbolt_bridge_cycles topology bridges network
            else s.thunderbolt_bridge_cycles;
      }

  unfoldable pub apply_node_gathered_info :
      NodeId → ℕ → GatheredInfo → State Topology → State Topology
  apply_node_gathered_info node_id when info s = gathered net node_id info (record s {
    last_seen = insert s.last_seen node_id when;
    topology = add_node s.topology node_id;
  })

  unfoldable pub apply_topology_edge_created : Connection → State Topology → State Topology
  apply_topology_edge_created conn s = record s { topology = add_connection s.topology conn }

  unfoldable pub apply_topology_edge_deleted : Connection → State Topology → State Topology
  apply_topology_edge_deleted conn s = record s { topology = remove_connection s.topology conn }

  unfoldable pub dispatch : EventKind → State Topology → State Topology
  dispatch EventKind.test_event s = s
  dispatch (EventKind.task_created task_id task) s = apply_task_created task_id task s
  dispatch (EventKind.task_acknowledged task_id) s = s
  dispatch (EventKind.task_deleted task_id) s = apply_task_deleted task_id s
  dispatch (EventKind.task_status_updated task_id status) s =
      apply_task_status_updated task_id status s
  dispatch (EventKind.task_failed task_id error_type message) s =
      apply_task_failed task_id error_type message s
  dispatch (EventKind.instance_created instance_) s = apply_instance_created instance_ s
  dispatch (EventKind.instance_deleted instance_id) s = apply_instance_deleted instance_id s
  dispatch (EventKind.runner_status_updated runner_id status) s =
      apply_runner_status_updated runner_id status s
  dispatch (EventKind.node_timed_out node_id) s = apply_node_timed_out node_id s
  dispatch (EventKind.node_gathered_info node_id when info) s =
      apply_node_gathered_info node_id when info s
  dispatch (EventKind.node_download_progress dp) s = apply_node_download_progress dp s
  dispatch (EventKind.chunk_generated command_id chunk) s = s
  dispatch (EventKind.input_chunk_received command_id chunk) s = s
  dispatch (EventKind.topology_edge_created conn) s = apply_topology_edge_created conn s
  dispatch (EventKind.topology_edge_deleted conn) s = apply_topology_edge_deleted conn s
  dispatch (EventKind.custom_model_card_added card) s = apply_custom_model_card_added card s
  dispatch (EventKind.custom_model_card_deleted model_id) s =
      apply_custom_model_card_deleted model_id s
  dispatch (EventKind.traces_collected task_id rank traces) s = s
  dispatch (EventKind.traces_merged task_id traces) s = s
  dispatch (EventKind.instance_link_created link) s = apply_instance_link_created link s
  dispatch (EventKind.instance_link_deleted link_id) s = apply_instance_link_deleted link_id s

  unfoldable pub event_apply : Event → State Topology → State Topology
  unfolding dispatch
  event_apply event s = dispatch event.kind s

  unfoldable pub apply : State Topology → IndexedEvent → Result (State Topology)
  apply s event = do
    assert (eqb_ℤ s.last_event_applied_idx (sub_ℕ event.idx 1))
    ok (record (event_apply event.event s) { last_event_applied_idx = pos event.idx })
