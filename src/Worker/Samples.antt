-- ===== src/Worker/Samples.antt =====
-- The theorems on the worker's planners at concrete inputs: an instance on one node.
use mathlib.Core.List.{Memᴰ}
use agent_setup.Base.{String, ◌≡◌, refl, false, none, some, List, [], ◌∷◌, all_of, any_of}
use agent_setup.Base.Eq.{text_eq}
use agent_setup.Base.Dict.{Dict, get, keys, values}
use agent_setup.Base.Result.{ok, first_some}
use agent_setup.Types.Common.{NodeId}
use agent_setup.Types.Workers.{
  ModelCard, ShardMetadata, pipeline, mlx_ring, Instance, bound_shard, RunnerId, RunnerStatus,
  DownloadProgress, DownloadStatus,
}
use agent_setup.Types.Tasks.{Task, TaskId, TaskKind, pending, TaskStatus}
use agent_setup.Worker.Plan.{RunnerSupervisor, Planned, existing, new, others_are, all_serving}
use agent_setup.Worker.Plan.Setup.{
  all_downloaded, load_one, load_model, warmup_one, ready_to_warmup,
}
use agent_setup.Worker.Plan.Serve.{has_inputs, serve_on, serve_one, pending_tasks, plan}
use agent_setup.Utils.KeyedBackoff.{KeyedBackoff}
use agent_setup.Worker.Plan.Precedence.{Cancels, plan-Cancels}
use agent_setup.Worker.Plan.Safety.{
  MayLoad, MayServe, MayWarmUp, load_model-MayLoad, pending_tasks-MayServe,
  ready_to_warmup-MayWarmUp,
}

abbrev card : ModelCard
card = record {
  model_id = "m";
  storage_size = 8;
  n_layers = 2;
  hidden_size = 4;
  supports_tensor = false;
  num_key_value_heads = none;
  base_model = "";
  backends = [];
  uses_cfg = false;
  other = "";
}

abbrev whole : ShardMetadata
whole = record {
  kind = pipeline;
  model_card = card;
  device_rank = 0;
  world_size = 1;
  start_layer = 0;
  end_layer = 2;
  n_layers = 2;
}

abbrev one_node : Instance
one_node = record {
  instance_id = "i";
  shard_assignments = record {
    model_id = "m";
    runner_to_shard = ("r", whole) ∷ [];
    node_to_runner = ("n", "r") ∷ [];
  };
  kind = mlx_ring [] 5000;
}

abbrev supervisor : RunnerStatus → RunnerSupervisor
supervisor status = record {
  bound_instance = record { instance_ = one_node; bound_runner_id = "r"; bound_node_id = "n" };
  status = status;
  in_progress = [];
  completed = [];
  cancelled = [];
}

abbrev with_status : RunnerStatus → Dict RunnerId RunnerSupervisor
with_status status = ("r", supervisor status) ∷ []

abbrev downloaded : Dict NodeId (List DownloadProgress)
downloaded =
    (
      "n",
      record {
        node_id = "n";
        shard_metadata = whole;
        model_directory = "";
        status = DownloadStatus.download_completed 8 false;
      }
          ∷ [],
    )
    ∷ []

abbrev load : Planned
load = new "i" TaskKind.load_model

abbrev seen : RunnerStatus → Dict RunnerId RunnerStatus
seen status = ("r", status) ∷ []

loads :
    load_model (seen RunnerStatus.runner_idle) downloaded (with_status RunnerStatus.runner_idle)
    ≡ ok (some load)
unfolding load_model load_one first_some all_downloaded all_of any_of get keys values
loads = refl

load_model-MayLoad_example :
    (r : RunnerSupervisor) × Memᴰ r (values (with_status RunnerStatus.runner_idle))
    × MayLoad (seen RunnerStatus.runner_idle) downloaded load r
load_model-MayLoad_example =
    load_model-MayLoad (seen RunnerStatus.runner_idle) downloaded
      (with_status RunnerStatus.runner_idle) load loads

abbrev warm_up : Planned
warm_up = new "i" TaskKind.start_warmup

warms :
    ready_to_warmup (seen RunnerStatus.runner_loaded) (with_status RunnerStatus.runner_loaded)
    ≡ ok (some warm_up)
unfolding ready_to_warmup warmup_one first_some bound_shard others_are all_of get keys values
warms = refl

ready_to_warmup-MayWarmUp_example :
    (r : RunnerSupervisor) × Memᴰ r (values (with_status RunnerStatus.runner_loaded))
    × MayWarmUp (seen RunnerStatus.runner_loaded) warm_up r
ready_to_warmup-MayWarmUp_example =
    ready_to_warmup-MayWarmUp (seen RunnerStatus.runner_loaded)
      (with_status RunnerStatus.runner_loaded) warm_up warms

abbrev chat : Task
chat = record {
  task_id = "t";
  task_status = pending;
  instance_id = "i";
  error_type = none;
  error_message = none;
  kind = TaskKind.text_generation "c" ("h" ∷ []) none "";
}

abbrev ready : RunnerStatus
ready = RunnerStatus.runner_ready none

serves :
    pending_tasks [] ("h" ∷ []) (seen ready) (with_status ready) (("t", chat) ∷ [])
    ≡ ok (some (existing chat))
unfolding pending_tasks serve_one serve_on first_some has_inputs all_serving all_of any_of get keys
    values
serves = refl

pending_tasks-MayServe_example :
    (task : Task) × Memᴰ task (values {K = TaskId} (("t", chat) ∷ []))
    × ((r : RunnerSupervisor) × Memᴰ r (values (with_status ready))
        × MayServe (seen ready) [] ("h" ∷ []) task (existing chat) r)
pending_tasks-MayServe_example =
    pending_tasks-MayServe (seen ready) [] ("h" ∷ []) (with_status ready) (("t", chat) ∷ [])
      (existing chat) serves

-- The task is cancelled, and its runner is idle with its model downloaded: it could load.
abbrev stopped : Task
stopped = record chat { task_status = TaskStatus.cancelled }

abbrev no_backoff : KeyedBackoff String
no_backoff = record { base = 500; cap = 10000; attempts_of = []; last_time = [] }

plan-Cancels_example : Cancels (
    plan [] []
      (seen RunnerStatus.runner_idle)
      "n"
      (with_status RunnerStatus.runner_idle)
      downloaded
      (("i", one_node) ∷ [])
      (("t", stopped) ∷ [])
      no_backoff
      no_backoff
      0)
plan-Cancels_example =
    plan-Cancels (with_status RunnerStatus.runner_idle) [] [] (seen RunnerStatus.runner_idle) "n"
      downloaded (("i", one_node) ∷ []) (("t", stopped) ∷ []) no_backoff no_backoff 0 stopped "r"
      (supervisor RunnerStatus.runner_idle) (unfold values in Memᴰ.head refl) refl (Memᴰ.head refl)
      refl (unfold any_of in refl)
