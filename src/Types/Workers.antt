-- ===== src/Types/Workers.antt =====
-- src/exo/shared/types/worker: shards, runners, instances and downloads; the fields of
-- src/exo/shared/models/model_cards.py that placement and planning read.
use agent_setup.Base.{ℕ, Bool, Option, List, String}
use agent_setup.Base.Dict.{Dict, get}
use agent_setup.Base.Eq.{text_eq}
use agent_setup.Types.Common.{NodeId}

abbrev pub ModelId : Type 0
ModelId = String

abbrev pub RunnerId : Type 0
RunnerId = String

abbrev pub InstanceId : Type 0
InstanceId = String

-- The fields that no operation reads are in `other`.
pub record ModelCard : Type 0 where
  pub model_id : ModelId
  pub storage_size : ℕ
  pub n_layers : ℕ
  pub hidden_size : ℕ
  pub supports_tensor : Bool
  pub num_key_value_heads : Option ℕ
  pub base_model : String
  pub backends : List String
  pub uses_cfg : Bool
  pub other : String

-- PipelineShardMetadata, CfgShardMetadata with its ranks and sizes, TensorShardMetadata.
pub data ShardKind : Type 0 where
  pipeline tensor : ShardKind
  cfg : ℕ → ℕ → ℕ → ℕ → ShardKind

pub record ShardMetadata : Type 0 where
  pub kind : ShardKind
  pub model_card : ModelCard
  pub device_rank : ℕ
  pub world_size : ℕ
  pub start_layer : ℕ
  pub end_layer : ℕ
  pub n_layers : ℕ

-- RunnerStatus. A failure's message and diagnostics are one text.
pub data RunnerStatus : Type 0 where
  runner_idle runner_connecting runner_connected : RunnerStatus
  runner_loading : ℕ → ℕ → RunnerStatus
  runner_loaded runner_warming_up : RunnerStatus
  runner_ready : Option ℕ → RunnerStatus
  runner_running runner_shutting_down runner_shutdown : RunnerStatus
  runner_failed : String → RunnerStatus

pub record ShardAssignments : Type 0 where
  pub model_id : ModelId
  pub runner_to_shard : Dict RunnerId ShardMetadata
  pub node_to_runner : Dict NodeId RunnerId

pub record Host : Type 0 where
  pub ip : String
  pub port : ℕ

-- MlxRingInstance and MlxJacclInstance, with what they add to `BaseInstance`.
pub data InstanceKind : Type 0 where
  mlx_ring : Dict NodeId (List Host) → ℕ → InstanceKind
  mlx_jaccl : List (List (Option String)) → Dict NodeId Host → InstanceKind

pub record Instance : Type 0 where
  pub instance_id : InstanceId
  pub shard_assignments : ShardAssignments
  pub kind : InstanceKind

pub record BoundInstance : Type 0 where
  pub instance_ : Instance
  pub bound_runner_id : RunnerId
  pub bound_node_id : NodeId

-- BoundInstance.bound_shard; the caller raises where there is none.
unfoldable pub bound_shard : BoundInstance → Option ShardMetadata
bound_shard b = get b.instance_.shard_assignments.runner_to_shard b.bound_runner_id

-- DownloadPending (downloaded, total), DownloadCompleted (total, read_only), DownloadFailed,
-- DownloadOngoing (downloaded, total).
pub data DownloadStatus : Type 0 where
  download_pending : ℕ → ℕ → DownloadStatus
  download_completed : ℕ → Bool → DownloadStatus
  download_failed : String → DownloadStatus
  download_ongoing : ℕ → ℕ → DownloadStatus

pub record DownloadProgress : Type 0 where
  pub node_id : NodeId
  pub shard_metadata : ShardMetadata
  pub model_directory : String
  pub status : DownloadStatus
