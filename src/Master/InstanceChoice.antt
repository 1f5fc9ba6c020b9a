-- ===== src/Master/InstanceChoice.antt =====
-- src/exo/master/main.py: the instance for a command, and `_prefill_endpoint_for`. The order in which
-- Python goes through a set of texts, which it leaves open, is the argument `listing`.
pub mod Least
use agent_setup.Base.{
  ℕ, suc, ◌+◌, ◌-◌, min, Bool, true, false, not, ◌&&◌, Option, none, some, List, [], ◌∷◌, ◌++◌,
  String, map, length, keep_if, any_of, ltb, if◌then◌else◌,
}
use agent_setup.Base.Eq.{◌==◌, text_eq}
use agent_setup.Base.Seq.{sort_down, take, drop}
use agent_setup.Base.Dict.{Dict, get, insert, without, keys, values}
use agent_setup.Base.Result.{Result, ok, raise, value_error, ◌>>=◌}
use agent_setup.Types.Common.{NodeId, SessionId}
use agent_setup.Types.Workers.{
  ModelCard, ModelId, RunnerId, ShardMetadata, Instance, InstanceId, Host,
}
use agent_setup.Types.Nodes.{InstanceLink, NetworkInterfaceInfo}
use agent_setup.Types.Tasks.{Task, TaskId, CommandId, TaskKind, TaskStatus, in_flight}
use agent_setup.Types.Events.{Event, EventKind, GlobalForwarderEvent}
use agent_setup.Types.State.{State}
use agent_setup.Shared.Interface.{TopologyOps}
use agent_setup.Master.EventProcessor.{Master}
use agent_setup.Master.Placement.Allocation.{Floats}
use agent_setup.Master.Placement.Cycles.{among}
use agent_setup.Master.Placement.Hosts.{find_ip_prioritised}
use agent_setup.Master.Placement.Choice.{PlaceInstance, Cluster, Fresh, place_instance}
use agent_setup.Master.Placement.Transitions.{
  add_instance_to_placements, delete_instance, get_transition_events, cancel_unnecessary_downloads,
}

-- sum(1 for task in tasks.values() if …)
unfoldable pub count_in_flight : List Task → InstanceId → ℕ
count_in_flight tasks i =
    length (keep_if (λ (t : Task). t.instance_id == i && in_flight t.task_status) tasks)

-- The instances that only prefill: on the prefill side of some link and on no decode side.
unfoldable pub prefill_only : List InstanceLink → InstanceId → Bool
prefill_only links i =
    any_of (λ (l : InstanceLink). among l.prefill_instances i) links
    && not (any_of (λ (l : InstanceLink). among l.decode_instances i) links)

-- The loop that fills instance_task_counts.
unfoldable pub task_counts :
    (Instance → Bool) → List Task → List Instance → Dict InstanceId ℕ → Dict InstanceId ℕ
task_counts suits tasks [] counts = counts
task_counts suits tasks (i ∷ instances) counts =
    task_counts suits tasks instances (
      if suits i then insert counts i.instance_id (count_in_flight tasks i.instance_id) else counts)

abbrev pub count_of : Dict InstanceId ℕ → InstanceId → ℕ
count_of counts i = elim (get counts i) [ none ↦ 0 | some n ↦ n ]

-- sorted(ids, key=count)
unfoldable pub by_count : (InstanceId → ℕ) → List InstanceId → List InstanceId
by_count count ids = sort_down (λ a b. ltb (count b) (count a)) ids

abbrev pub first_id : List InstanceId → Result InstanceId
first_id [] = raise value_error
first_id (i ∷ ids) = ok i

-- The instance that is chosen; none at all raises.
unfoldable pub least_loaded : (Instance → Bool) → List Task → List Instance → Result InstanceId
least_loaded suits tasks instances =
    let counts = task_counts suits tasks instances [] in
    first_id (by_count (count_of counts) (keys counts))

abbrev pub runs_model : ModelId → Instance → Bool
runs_model model i = i.shard_assignments.model_id == model

-- sources: the other sides of the links that the instance decodes for.
unfoldable pub prefill_sources : InstanceId → List InstanceLink → List InstanceId
prefill_sources i [] = []
prefill_sources i (link ∷ links) =
    let rest = prefill_sources i links in
    if among link.decode_instances i then link.prefill_instances ++ rest else rest

abbrev or_next : Option Host → Option Host → Option Host
or_next (some h) next = some h
or_next none next = next

abbrev pub first_node : Dict NodeId RunnerId → Option NodeId
first_node [] = none
first_node ((n, r) ∷ nodes) = some n

module _ (net : TopologyOps) (listing : List InstanceId → List InstanceId) where
  open net use {Topology}

  -- The loop over the nodes of a source.
  unfoldable pub endpoint_at : State Topology → NodeId → Dict NodeId RunnerId → Option Host
  endpoint_at s decode_node [] = none
  endpoint_at s decode_node ((node_id, runner_id) ∷ nodes) =
      let rest = endpoint_at s decode_node nodes in
      elim (get s.prefill_server_ports runner_id) [
        | none ↦ rest
        | some port ↦
            elim (find_ip_prioritised net s.node_network s.topology true decode_node node_id) [
              | none ↦ rest
              | some ip ↦ some (record { ip = ip; port = port })
            ]
      ]

  -- The loop over the sources.
  unfoldable pub endpoint_from : State Topology → NodeId → List InstanceId → Option Host
  endpoint_from s decode_node [] = none
  endpoint_from s decode_node (i ∷ sources) =
      let rest = endpoint_from s decode_node sources in
      elim (get s.instances i) [
        | none ↦ rest
        | some instance_ ↦
            or_next (endpoint_at s decode_node instance_.shard_assignments.node_to_runner) rest
      ]

  -- _prefill_endpoint_for
  unfoldable pub prefill_endpoint_for : State Topology → InstanceId → Option Host
  prefill_endpoint_for s i = elim (get s.instances i) [
    | none ↦ none
    | some decode ↦ elim (first_node decode.shard_assignments.node_to_runner) [
      | none ↦ none
      | some decode_node ↦ endpoint_from s decode_node (
          by_count (count_in_flight (values s.tasks))
            (listing (keep_if (λ j. not (j == i)) (prefill_sources i (values s.instance_links)))))
    ]
  ]
