-- ===== src/Worker/Plan/Serve.antt =====
-- The planner of the tasks that the runners serve, and `plan`, which asks all planners in turn.
use agent_setup.Base.{
  ℕ, Bool, true, false, not, ◌&&◌, ◌||◌, Option, none, some, List, String, ltb, length, all_of,
  if◌then◌else◌,
}
use agent_setup.Base.Eq.{◌==◌, text_eq}
use agent_setup.Base.Dict.{Dict, get, values}
use agent_setup.Base.Result.{Result, ok, ◌>>=◌, or_else, first_some}
use agent_setup.Types.Common.{NodeId}
use agent_setup.Types.Workers.{
  ModelId, RunnerId, InstanceId, Instance, RunnerStatus, DownloadProgress,
}
use agent_setup.Types.Tasks.{Task, TaskId, TaskKind, CommandId, in_flight}
use agent_setup.Utils.KeyedBackoff.{KeyedBackoff}
use agent_setup.Worker.Plan.{
  RunnerSupervisor, Planned, existing, is_serving, mem, instance_of, all_serving, cancel_tasks,
  kill_runner,
}
use agent_setup.Worker.Plan.Setup.{
  create_runner, model_needs_download, init_distributed_backend, load_model, ready_to_warmup,
  runner_ids,
}

abbrev pub chunks_of : Option (Dict ℕ String) → ℕ
chunks_of none = 0
chunks_of (some chunks) = length chunks

module _ (input_chunk_buffer : Dict CommandId (Dict ℕ String)) (image_cache : List String) where
  -- The task is a generation whose inputs have all arrived.
  unfoldable pub has_inputs : TaskKind → Bool
  has_inputs (TaskKind.text_generation command_id image_hashes endpoint rest) =
      all_of (λ h. mem h image_cache) image_hashes
  has_inputs (TaskKind.image_generation command_id rest) = true
  has_inputs (TaskKind.image_edits command_id total rest) =
      not (ltb 0 total && ltb (chunks_of (get input_chunk_buffer command_id)) total)
  has_inputs _ = false

  module _ (all_runners : Dict RunnerId RunnerStatus) where
    unfoldable pub serve_on : Task → RunnerSupervisor → Result (Option Planned)
    serve_on task runner =
        if not (task.instance_id == instance_of runner)
        then ok none
        else if mem task.task_id runner.completed || mem task.task_id runner.in_progress
        then ok none
        else if is_serving runner.status
        then (all_serving all_runners (runner_ids runner) >>= λ ready.
            if ready then ok (some (existing task)) else ok none)
        else ok none

    unfoldable pub serve_one : Dict RunnerId RunnerSupervisor → Task → Result (Option Planned)
    serve_one runners task =
        if in_flight task.task_status && has_inputs task.kind
        then first_some (serve_on task) (values runners)
        else ok none

    -- _pending_tasks
    unfoldable pub pending_tasks :
        Dict RunnerId RunnerSupervisor → Dict TaskId Task → Result (Option Planned)
    pending_tasks runners tasks = first_some (serve_one runners) (values tasks)

    unfoldable pub plan :
        NodeId
        → Dict RunnerId RunnerSupervisor
        → Dict NodeId (List DownloadProgress)
        → Dict InstanceId Instance
        → Dict TaskId Task
        → KeyedBackoff InstanceId
        → KeyedBackoff ModelId
        → ℕ
        → Result (Option Planned)
    plan node_id runners downloads instances tasks instance_backoff download_backoff now =
        or_else (cancel_tasks runners tasks) (
          or_else (kill_runner runners all_runners instances) (
            or_else (create_runner node_id runners all_runners now instance_backoff instances) (
              or_else (model_needs_download node_id runners downloads download_backoff now) (
                or_else (init_distributed_backend all_runners runners) (
                  or_else (load_model all_runners downloads runners) (
                    or_else (ready_to_warmup all_runners runners)
                      (pending_tasks runners tasks)))))))
