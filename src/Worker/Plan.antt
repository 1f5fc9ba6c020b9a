-- ===== src/Worker/Plan.antt =====
-- src/exo/worker/plan.py: the next task of a worker. A planner returns nothing, or a task that
-- exists, or a new one, whose identifier is fresh and not modelled. `now` is the reading of the
-- clock in the backoffs. Of a runner's tasks and of the caches only the keys are looked at.
pub mod Setup
pub mod Serve
pub mod Readings
pub mod Safety
pub mod Precedence
use agent_setup.Base.{
  ℕ, suc, ◌+◌, Bool, true, false, not, ◌&&◌, ◌||◌, Option, none, some, List, [], ◌∷◌, String, ltb,
  leb, length, any_of, all_of, if◌then◌else◌,
}
use agent_setup.Base.Eq.{◌==◌, text_eq, number_eq}
use agent_setup.Base.Dict.{Dict, get, has, insert, keys, values, is_some}
use agent_setup.Base.Result.{
  Result, ok, raise, key_error, assertion_error, ◌>>=◌, ◌>>◌, assert, or_raise, or_else, first_some,
}
use agent_setup.Types.Common.{NodeId}
use agent_setup.Types.Workers.{
  ModelId, RunnerId, InstanceId, Instance, BoundInstance, bound_shard, ShardMetadata, RunnerStatus,
  DownloadProgress, DownloadStatus,
}
use agent_setup.Types.Tasks.{Task, TaskId, TaskKind, CommandId, in_flight, is_cancelled}
use agent_setup.Utils.KeyedBackoff.{KeyedBackoff, should_proceed}

pub record RunnerSupervisor : Type 0 where
  pub bound_instance : BoundInstance
  pub status : RunnerStatus
  pub in_progress : List TaskId
  pub completed : List TaskId
  pub cancelled : List TaskId

pub data Planned : Type 0 where
  existing : Task → Planned
  new : InstanceId → TaskKind → Planned

abbrev pub is_idle : RunnerStatus → Bool
is_idle RunnerStatus.runner_idle = true
is_idle _ = false

abbrev pub is_failed_runner : RunnerStatus → Bool
is_failed_runner (RunnerStatus.runner_failed message) = true
is_failed_runner _ = false

abbrev pub is_connecting : RunnerStatus → Bool
is_connecting RunnerStatus.runner_connecting = true
is_connecting _ = false

abbrev pub is_connected : RunnerStatus → Bool
is_connected RunnerStatus.runner_connected = true
is_connected _ = false

abbrev pub is_loaded : RunnerStatus → Bool
is_loaded RunnerStatus.runner_loaded = true
is_loaded _ = false

-- (RunnerConnected, RunnerLoading, RunnerLoaded)
abbrev pub may_load : RunnerStatus → Bool
may_load RunnerStatus.runner_connected = true
may_load (RunnerStatus.runner_loading loaded total) = true
may_load RunnerStatus.runner_loaded = true
may_load _ = false

-- (RunnerWarmingUp, RunnerReady)
abbrev pub is_warm : RunnerStatus → Bool
is_warm RunnerStatus.runner_warming_up = true
is_warm (RunnerStatus.runner_ready port) = true
is_warm _ = false

-- (RunnerReady, RunnerRunning)
abbrev pub is_serving : RunnerStatus → Bool
is_serving (RunnerStatus.runner_ready port) = true
is_serving RunnerStatus.runner_running = true
is_serving _ = false

-- isinstance(all_runners.get(runner_id), …)
abbrev pub status_is : (RunnerStatus → Bool) → Option RunnerStatus → Bool
status_is test none = false
status_is test (some status) = test status

abbrev pub mem : String → List String → Bool
mem x xs = any_of (λ y. y == x) xs

abbrev pub instance_of : RunnerSupervisor → InstanceId
instance_of r = r.bound_instance.instance_.instance_id

module _ (all_runners : Dict RunnerId RunnerStatus) where
  -- all(isinstance(all_runners.get(id), …) for id in ids)
  unfoldable pub all_are : (RunnerStatus → Bool) → List RunnerId → Bool
  all_are test ids = all_of (λ id. status_is test (get all_runners id)) ids

  -- … for id in ids if id != runner_id
  unfoldable pub others_are : RunnerId → (RunnerStatus → Bool) → List RunnerId → Bool
  others_are runner_id test ids =
      all_of (λ id. id == runner_id || status_is test (get all_runners id)) ids

  unfoldable pub other_failed : RunnerId → List RunnerId → Bool
  other_failed runner_id ids =
      any_of (λ id. not (id == runner_id) && status_is is_failed_runner (get all_runners id)) ids

  -- all(isinstance(all_runners[id], (RunnerReady, RunnerRunning)) for id in ids)
  unfoldable pub all_serving : List RunnerId → Result Bool
  all_serving [] = ok true
  all_serving (id ∷ ids) =
      let rest = all_serving ids in
      or_raise (get all_runners id) key_error >>= λ status.
      if is_serving status then rest else ok false

module _ (runners : Dict RunnerId RunnerSupervisor) where
  -- _cancel_tasks
  unfoldable pub cancel_on : Task → RunnerId × RunnerSupervisor → Result (Option Planned)
  cancel_on task (runner_id, runner) =
      if not (task.instance_id == instance_of runner)
      then ok none
      else if mem task.task_id runner.cancelled
      then ok none
      else ok (some (new task.instance_id (TaskKind.cancel_task task.task_id runner_id)))

  unfoldable pub cancel_one : Task → Result (Option Planned)
  cancel_one task =
      if not (is_cancelled task.task_status) then ok none else first_some (cancel_on task) runners

  unfoldable pub cancel_tasks : Dict TaskId Task → Result (Option Planned)
  cancel_tasks tasks = first_some cancel_one (values tasks)

  module _ (all_runners : Dict RunnerId RunnerStatus) where
    -- _kill_runner
    unfoldable pub kill_one : Dict InstanceId Instance → RunnerSupervisor → Result (Option Planned)
    kill_one instances runner =
        let runner_id = runner.bound_instance.bound_runner_id in
        let shutdown = new (instance_of runner) (TaskKind.shutdown runner_id) in
        let ids = values runner.bound_instance.instance_.shard_assignments.node_to_runner in
        if not (has instances (instance_of runner))
        then ok (some shutdown)
        else if is_failed_runner runner.status
        then ok (some shutdown)
        else if other_failed all_runners runner_id ids
        then ok (some shutdown)
        else ok none

    unfoldable pub kill_runner : Dict InstanceId Instance → Result (Option Planned)
    kill_runner instances = first_some (kill_one instances) (values runners)
