-- ===== src/Worker/Plan/Setup.antt =====
-- The planners that bring an instance up: runner, download, group, model, warm-up.
use agent_setup.Base.{
  ℕ, ◌+◌, Bool, true, false, not, ◌&&◌, ◌||◌, Option, none, some, List, [], ◌∷◌, ltb, nat_beq,
  length, any_of, all_of, if◌then◌else◌,
}
use agent_setup.Base.Eq.{◌==◌, text_eq}
use agent_setup.Base.Dict.{Dict, get, has, insert, keys, values}
use agent_setup.Base.Result.{
  Result, ok, raise, assertion_error, ◌>>=◌, ◌>>◌, assert, or_raise, first_some,
}
use agent_setup.Types.Common.{NodeId}
use agent_setup.Types.Workers.{
  ModelId, RunnerId, InstanceId, Instance, bound_shard, RunnerStatus, DownloadProgress,
  DownloadStatus,
}
use agent_setup.Types.Tasks.{TaskKind}
use agent_setup.Utils.KeyedBackoff.{KeyedBackoff, should_proceed}
use agent_setup.Worker.Plan.{
  RunnerSupervisor, Planned, new, is_idle, is_failed_runner, is_connecting, is_connected, is_loaded,
  may_load, is_warm, status_is, instance_of, all_are, others_are, other_failed,
}

-- … and backoff.should_proceed(key): the task is returned if the backoff lets it.
abbrev pub if_allowed : Result Bool → Planned → Result (Option Planned)
if_allowed (ok true) task = ok (some task)
if_allowed (ok false) task = ok none
if_allowed (raise e) task = raise e

module _ (node_id : NodeId) (runners : Dict RunnerId RunnerSupervisor)
    (all_runners : Dict RunnerId RunnerStatus) (now : ℕ) where
  create_at : KeyedBackoff InstanceId → Instance → Option RunnerId → Result (Option Planned)
  create_at backoff instance_ none = ok none
  create_at backoff instance_ (some runner_id) =
      if has runners runner_id
      then ok none
      else if other_failed all_runners runner_id (values instance_.shard_assignments.node_to_runner)
          && not (status_is is_failed_runner (get all_runners runner_id))
      then ok none
      else if_allowed (should_proceed backoff now instance_.instance_id) (
          new instance_.instance_id (
            TaskKind.create_runner (record {
              instance_ = instance_;
              bound_runner_id = runner_id;
              bound_node_id = node_id;
            })))

  unfoldable pub create_one : KeyedBackoff InstanceId → Instance → Result (Option Planned)
  unfolding create_at
  create_one backoff instance_ =
      create_at backoff instance_ (get instance_.shard_assignments.node_to_runner node_id)

  -- _create_runner
  unfoldable pub create_runner :
      KeyedBackoff InstanceId → Dict InstanceId Instance → Result (Option Planned)
  create_runner backoff instances = first_some (create_one backoff) (values instances)

abbrev pub downloads_of : Option (List DownloadProgress) → List DownloadProgress
downloads_of none = []
downloads_of (some dps) = dps

-- {dp.shard_metadata.model_card.model_id: dp for dp in dps}: the last one of a model counts.
unfoldable pub by_model :
    List DownloadProgress → Dict ModelId DownloadProgress → Dict ModelId DownloadProgress
by_model [] d = d
by_model (dp ∷ dps) d = by_model dps (insert d dp.shard_metadata.model_card.model_id dp)

-- Not there, or neither ongoing, nor completed, nor failed.
abbrev pub needs_download : Option DownloadProgress → Bool
needs_download none = true
needs_download (some dp) = elim dp.status [
  | DownloadStatus.download_pending downloaded total ↦ true
  | DownloadStatus.download_completed total read_only ↦ false
  | DownloadStatus.download_failed message ↦ false
  | DownloadStatus.download_ongoing downloaded total ↦ false
]

abbrev pub is_completed : DownloadStatus → Bool
is_completed (DownloadStatus.download_completed total read_only) = true
is_completed _ = false

unfoldable pub download_one :
    KeyedBackoff ModelId
    → ℕ
    → Dict ModelId DownloadProgress
    → RunnerSupervisor
    → Result (Option Planned)
download_one backoff now status runner = do
  shard ← or_raise (bound_shard runner.bound_instance) assertion_error
  let model_id = shard.model_card.model_id
  (if is_idle runner.status && needs_download (get status model_id)
      then if_allowed (should_proceed backoff now model_id)
          (new (instance_of runner) (TaskKind.download_model shard))
      else ok none)

-- _model_needs_download
unfoldable pub model_needs_download :
    NodeId
    → Dict RunnerId RunnerSupervisor
    → Dict NodeId (List DownloadProgress)
    → KeyedBackoff ModelId
    → ℕ
    → Result (Option Planned)
model_needs_download node_id runners global_download_status backoff now =
    first_some
      (download_one backoff now (by_model (downloads_of (get global_download_status node_id)) []))
      (values runners)

abbrev pub runner_ids : RunnerSupervisor → List RunnerId
runner_ids r = keys r.bound_instance.instance_.shard_assignments.runner_to_shard

abbrev pub is_single : RunnerSupervisor → Bool
is_single r = nat_beq (length (runner_ids r)) 1

-- Every node of the instance has completed the download of its model.
unfoldable pub all_downloaded : Dict NodeId (List DownloadProgress) → ModelId → List NodeId → Bool
all_downloaded status model_id nodes =
    all_of
      (λ nid.
        any_of
          (λ (dp : DownloadProgress).
            is_completed dp.status && dp.shard_metadata.model_card.model_id == model_id)
          (downloads_of (get status nid)))
      nodes

module _ (all_runners : Dict RunnerId RunnerStatus) where
  unfoldable pub connect_one : RunnerSupervisor → Result (Option Planned)
  connect_one runner =
      let runner_id = runner.bound_instance.bound_runner_id in
      if is_single runner
      then ok none
      else if not (
          is_idle runner.status
          && all_are all_runners (λ s. is_connecting s || is_idle s) (runner_ids runner))
      then ok none
      else (do
        shard ← or_raise (bound_shard runner.bound_instance) assertion_error
        assert (ltb shard.device_rank shard.world_size)
        (if ltb (shard.device_rank + 1) shard.world_size
              || (nat_beq (shard.device_rank + 1) shard.world_size
                  && others_are all_runners runner_id is_connecting (runner_ids runner))
            then ok (some (new (instance_of runner) TaskKind.connect_to_group))
            else ok none))

  -- _init_distributed_backend
  unfoldable pub init_distributed_backend : Dict RunnerId RunnerSupervisor → Result (Option Planned)
  init_distributed_backend runners = first_some connect_one (values runners)

  unfoldable pub load_one :
      Dict NodeId (List DownloadProgress) → RunnerSupervisor → Result (Option Planned)
  load_one global_download_status runner =
      let assignments = runner.bound_instance.instance_.shard_assignments in
      if not (
        all_downloaded global_download_status assignments.model_id
          (keys assignments.node_to_runner))
      then ok none
      else if is_single runner && is_idle runner.status
      then ok (some (new (instance_of runner) TaskKind.load_model))
      else if is_connected runner.status && all_are all_runners may_load (runner_ids runner)
      then ok (some (new (instance_of runner) TaskKind.load_model))
      else ok none

  -- _load_model
  unfoldable pub load_model :
      Dict NodeId (List DownloadProgress) → Dict RunnerId RunnerSupervisor → Result (Option Planned)
  load_model global_download_status runners =
      first_some (load_one global_download_status) (values runners)

  unfoldable pub warmup_one : RunnerSupervisor → Result (Option Planned)
  warmup_one runner = do
    shard ← or_raise (bound_shard runner.bound_instance) assertion_error
    let rank = shard.device_rank
    assert (ltb rank shard.world_size)
    (if is_loaded runner.status
          && ((ltb 0 rank
                && all_are all_runners (λ s. is_loaded s || is_warm s) (runner_ids runner))
              || (nat_beq rank 0
                  && others_are all_runners runner.bound_instance.bound_runner_id is_warm
                      (runner_ids runner)))
        then ok (some (new (instance_of runner) TaskKind.start_warmup))
        else ok none)

  -- _ready_to_warmup
  unfoldable pub ready_to_warmup : Dict RunnerId RunnerSupervisor → Result (Option Planned)
  ready_to_warmup runners = first_some warmup_one (values runners)
