-- ===== src/Types/Tasks.antt =====
-- src/exo/shared/types/tasks.py.
use agent_setup.Base.{◌≡◌, refl, ◌⊎◌, inl, inr, ℕ, Bool, true, false, Option, List, String}
use agent_setup.Types.Workers.{RunnerId, InstanceId, BoundInstance, ShardMetadata, Host}

abbrev pub TaskId : Type 0
TaskId = String

abbrev pub CommandId : Type 0
CommandId = String

pub data TaskStatus : Type 0 where
  pending running complete timed_out failed cancelled : TaskStatus

-- What each class of task adds to `BaseTask`. Of the parameters of a generation task the model, the
-- hashes of its images, the endpoint for prefill and the number of input chunks are read; the rest
-- is one text.
pub data TaskKind : Type 0 where
  create_runner : BoundInstance → TaskKind
  download_model : ShardMetadata → TaskKind
  load_model connect_to_group start_warmup : TaskKind
  text_generation : CommandId → List String → Option Host → String → TaskKind
  cancel_task : TaskId → RunnerId → TaskKind
  image_generation : CommandId → String → TaskKind
  image_edits : CommandId → ℕ → String → TaskKind
  shutdown : RunnerId → TaskKind

-- `error_type` and `error_message` belong to the generation tasks; `model_copy` writes them on any.
pub record Task : Type 0 where
  pub task_id : TaskId
  pub task_status : TaskStatus
  pub instance_id : InstanceId
  pub error_type : Option String
  pub error_message : Option String
  pub kind : TaskKind

abbrev pub is_failed : TaskStatus → Bool
is_failed failed = true
is_failed _ = false

abbrev pub is_cancelled : TaskStatus → Bool
is_cancelled cancelled = true
is_cancelled _ = false

-- task_status in (Pending, Running)
abbrev pub in_flight : TaskStatus → Bool
in_flight pending = true
in_flight running = true
in_flight _ = false

pub in_flight-cases : (s : TaskStatus) → in_flight s ≡ true → (s ≡ pending) ⊎ (s ≡ running)
in_flight-cases pending h = inl refl
in_flight-cases running h = inr refl
in_flight-cases _ h = absurd (cc)
