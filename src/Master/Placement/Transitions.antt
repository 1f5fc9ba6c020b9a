-- ===== src/Master/Placement/Transitions.antt =====
-- placement.py: from the instances that are and those that shall be to events and to downloads that
-- nobody needs any more. Events are their contents.
pub mod Reached
pub mod Downloads
use agent_setup.Base.{
  Bool, not, ◌&&◌, Option, none, some, List, [], ◌∷◌, ◌++◌, any_of, if◌then◌else◌,
}
use agent_setup.Base.Eq.{◌==◌, text_eq}
use agent_setup.Base.Dict.{Dict, get, has, insert, without}
use agent_setup.Base.Result.{Result, ok, key_error, ◌>>=◌, ◌>>◌, or_raise}
use agent_setup.Types.Common.{NodeId}
use agent_setup.Types.Workers.{
  RunnerId, ShardMetadata, ModelId, Instance, InstanceId, DownloadProgress, DownloadStatus,
  download_ongoing,
}
use agent_setup.Types.Tasks.{Task, TaskId, TaskStatus, in_flight}
use agent_setup.Types.Events.{EventKind}
use agent_setup.Master.Placement.Shards.{require}

unfoldable pub add_instance_to_placements :
    Instance → Dict InstanceId Instance → Dict InstanceId Instance
add_instance_to_placements instance_ current_instances =
    insert current_instances instance_.instance_id instance_

unfoldable pub delete_instance :
    InstanceId → Dict InstanceId Instance → Result (Dict InstanceId Instance)
delete_instance instance_id current_instances = do
  require (has current_instances instance_id)
  ok (without current_instances instance_id)

-- The first loop of get_transition_events.
unfoldable pub creations : Dict InstanceId Instance → Dict InstanceId Instance → List EventKind
creations current_instances [] = []
creations current_instances ((instance_id, instance_) ∷ target) =
    let rest = creations current_instances target in
    if has current_instances instance_id then rest else EventKind.instance_created instance_ ∷ rest

-- The innermost loop: the tasks that an instance which goes has not finished.
unfoldable pub cancellations : InstanceId → Dict TaskId Task → List EventKind
cancellations instance_id [] = []
cancellations instance_id ((task_id, task) ∷ tasks) =
    let rest = cancellations instance_id tasks in
    if task.instance_id == instance_id && in_flight task.task_status
    then EventKind.task_status_updated task.task_id TaskStatus.cancelled ∷ rest
    else rest

-- The second loop of get_transition_events.
unfoldable pub deletions :
    Dict InstanceId Instance → Dict TaskId Task → Dict InstanceId Instance → List EventKind
deletions target tasks [] = []
deletions target tasks ((instance_id, instance_) ∷ current) =
    let rest = deletions target tasks current in
    if has target instance_id
    then rest
    else cancellations instance_id tasks ++ (EventKind.instance_deleted instance_id ∷ rest)

unfoldable pub get_transition_events :
    Dict InstanceId Instance → Dict InstanceId Instance → Dict TaskId Task → List EventKind
get_transition_events current_instances target_instances tasks =
    creations current_instances target_instances
    ++ deletions target_instances tasks current_instances

-- isinstance(v, DownloadOngoing)
abbrev pub is_ongoing : DownloadStatus → Bool
is_ongoing (download_ongoing downloaded total) = Bool.true
is_ongoing _ = Bool.false

-- currently_downloading, for one node.
unfoldable pub ongoing_at : NodeId → List DownloadProgress → List (NodeId × ModelId)
ongoing_at node_id [] = []
ongoing_at node_id (dp ∷ dps) =
    let rest = ongoing_at node_id dps in
    if is_ongoing dp.status then (node_id, dp.shard_metadata.model_card.model_id) ∷ rest else rest

unfoldable pub currently_downloading : Dict NodeId (List DownloadProgress) → List (NodeId × ModelId)
currently_downloading [] = []
currently_downloading ((node_id, dps) ∷ status) =
    ongoing_at node_id dps ++ currently_downloading status

-- active_models, for one instance.
unfoldable pub models_at :
    Dict RunnerId ShardMetadata → Dict NodeId RunnerId → Result (List (NodeId × ModelId))
models_at shards [] = ok []
models_at shards ((node_id, runner_id) ∷ nodes) = do
  shard ← or_raise (get shards runner_id) key_error
  rest ← models_at shards nodes
  ok ((node_id, shard.model_card.model_id) ∷ rest)

unfoldable pub active_models : Dict InstanceId Instance → Result (List (NodeId × ModelId))
active_models [] = ok []
active_models ((instance_id, instance_) ∷ instances) = do
  let a = instance_.shard_assignments
  here ← models_at a.runner_to_shard a.node_to_runner
  rest ← active_models instances
  ok (here ++ rest)

abbrev pub same_pair : NodeId × ModelId → NodeId × ModelId → Bool
same_pair p q = p.0 == q.0 && p.1 == q.1

-- The pairs that CancelDownload commands are made of.
unfoldable pub unnecessary :
    List (NodeId × ModelId) → List (NodeId × ModelId) → List (NodeId × ModelId)
unnecessary active [] = []
unnecessary active (pair ∷ downloading) =
    let rest = unnecessary active downloading in
    if not (any_of (λ q. same_pair q pair) active) then pair ∷ rest else rest

unfoldable pub cancel_unnecessary_downloads :
    Dict InstanceId Instance
    → Dict NodeId (List DownloadProgress)
    → Result (List (NodeId × ModelId))
cancel_unnecessary_downloads instances download_status = do
  active ← active_models instances
  ok (unnecessary active (currently_downloading download_status))
