-- ===== src/Master/Placement/Cycles.antt =====
-- placement_utils.py and placement.py: which cycles of nodes can run a model, and which is best.
use agent_setup.Base.{
  ℕ, ◌%◌, Bool, true, false, not, ◌&&◌, ◌||◌, Option, none, some, List, [], ◌∷◌, String, map, ltb,
  leb, nat_beq, length, keep_if, any_of, all_of, if◌then◌else◌,
}
use agent_setup.Base.Eq.{◌==◌, text_eq}
use agent_setup.Base.Seq.{sum}
use agent_setup.Base.Dict.{Dict, get, has}
use agent_setup.Base.Result.{Result, ok, raise, value_error, ◌>>◌}
use text.Mathlib.Text.{starts_with}
use agent_setup.Types.Common.{NodeId}
use agent_setup.Types.Nodes.{MemoryUsage}
use agent_setup.Types.Workers.{ModelCard, ModelId, DownloadProgress, DownloadStatus}
use agent_setup.Master.Placement.Allocation.{Floats}
use agent_setup.Master.Placement.Shards.{Sharding, by_pipeline, by_tensor, require, is_nil}

abbrev pub Cycle : Type 0
Cycle = List NodeId

-- InstanceMeta
pub data InstanceMeta : Type 0 where
  mlx_ring mlx_jaccl : InstanceMeta

abbrev pub ram_of : Option MemoryUsage → ℕ
ram_of none = 0
ram_of (some m) = m.ram_available

-- The memory of a cycle whose nodes are all known.
unfoldable pub cycle_memory : Dict NodeId MemoryUsage → Cycle → ℕ
cycle_memory node_memory cycle = sum (map (λ n. ram_of (get node_memory n)) cycle)

-- The body of the loop of filter_cycles_by_memory.
unfoldable pub has_memory : Dict NodeId MemoryUsage → ℕ → Cycle → Bool
has_memory node_memory required cycle =
    all_of (has node_memory) cycle && leb required (cycle_memory node_memory cycle)

unfoldable pub filter_cycles_by_memory : List Cycle → Dict NodeId MemoryUsage → ℕ → List Cycle
filter_cycles_by_memory cycles node_memory required =
    keep_if (has_memory node_memory required) cycles

unfoldable pub shortest : ℕ → List Cycle → ℕ
shortest n [] = n
shortest n (cycle ∷ cycles) = shortest (if ltb (length cycle) n then length cycle else n) cycles

-- get_smallest_cycles; `min` of nothing raises.
unfoldable pub get_smallest_cycles : List Cycle → Result (List Cycle)
get_smallest_cycles [] = raise value_error
get_smallest_cycles (cycle ∷ cycles) =
    let n = shortest (length cycle) cycles in
    ok (keep_if (λ (c : Cycle). nat_beq (length c) n) (cycle ∷ cycles))

-- The condition on the heads of the keys and values, where it applies.
abbrev pub heads_divide : ModelCard → ℕ → Option ℕ → Bool
heads_divide card n none = true
heads_divide card n (some heads) =
    starts_with card.base_model "DeepSeek V4" || nat_beq (heads % n) 0

-- The conditions on a cycle for tensor sharding.
unfoldable pub fits_tensor : ModelCard → Cycle → Bool
fits_tensor card cycle =
    nat_beq (card.hidden_size % length cycle) 0
    && heads_divide card (length cycle) card.num_key_value_heads

-- The filters that the kind of sharding asks for.
unfoldable pub filter_by_sharding : ModelCard → Sharding → List Cycle → Result (List Cycle)
filter_by_sharding card by_tensor cycles = do
  require card.supports_tensor
  let kept = keep_if (fits_tensor card) cycles
  require (not (is_nil kept))
  ok kept
filter_by_sharding card by_pipeline cycles =
    if card.model_id == "mlx-community/DeepSeek-V3.1-8bit"
    then raise value_error
    else if starts_with card.base_model "Gemma 4"
    then (do
      let kept = keep_if (λ (c : Cycle). nat_beq (length c) 1) cycles
      require (not (is_nil kept))
      ok kept)
    else ok cycles

-- INSTANCE_META_BACKENDS
abbrev pub backends_of : InstanceMeta → List String
backends_of mlx_ring = "MlxMetal" ∷ "MlxCuda" ∷ "MlxCpu" ∷ []
backends_of mlx_jaccl = "MlxMetal" ∷ []

abbrev pub among : List String → String → Bool
among xs x = any_of (λ y. y == x) xs

-- set(INSTANCE_META_BACKENDS[meta]) & set(card.backends)
unfoldable pub required_backends : InstanceMeta → ModelCard → List String
required_backends meta card = keep_if (among card.backends) (backends_of meta)

abbrev pub backends_at : Option (List String) → List String
backends_at none = []
backends_at (some backends) = backends

-- Every node supports one of the backends.
unfoldable pub supports : Dict NodeId (List String) → List String → Cycle → Bool
supports node_backends backends cycle =
    all_of (λ n. any_of (among backends) (backends_at (get node_backends n))) cycle

abbrev pub enabled : Option Bool → Bool
enabled none = false
enabled (some b) = b

-- _all_rdma_ctl_enabled
unfoldable pub all_rdma_ctl_enabled : Dict NodeId Bool → Cycle → Bool
all_rdma_ctl_enabled node_rdma_ctl cycle = all_of (λ n. enabled (get node_rdma_ctl n)) cycle

module _ (floats : Floats) where
  open floats use {Float, divide, of_int, plus, equal, below}

  -- downloaded / total if total > 0 else 0.0
  abbrev pub fraction : ℕ → ℕ → Float
  fraction downloaded total = if ltb 0 total then divide downloaded total else of_int 0

  -- _get_node_download_fraction: the first entry of the model counts.
  unfoldable pub download_fraction : ModelId → List DownloadProgress → Float
  download_fraction model_id [] = of_int 0
  download_fraction model_id (dp ∷ dps) =
      let rest = download_fraction model_id dps in
      if not (dp.shard_metadata.model_card.model_id == model_id) then rest else elim dp.status [
        | DownloadStatus.download_completed total read_only ↦ of_int 1
        | DownloadStatus.download_ongoing downloaded total ↦ fraction downloaded total
        | DownloadStatus.download_pending downloaded total ↦ fraction downloaded total
        | DownloadStatus.download_failed message ↦ of_int 0
      ]

  abbrev pub progress_of : Option (List DownloadProgress) → List DownloadProgress
  progress_of none = []
  progress_of (some dps) = dps

  unfoldable pub score_from : Dict NodeId (List DownloadProgress) → ModelId → Float → Cycle → Float
  score_from download_status model_id acc [] = acc
  score_from download_status model_id acc (n ∷ ns) =
      score_from download_status model_id
        (plus acc (download_fraction model_id (progress_of (get download_status n)))) ns

  -- _cycle_download_score
  unfoldable pub cycle_download_score :
      Dict NodeId (List DownloadProgress) → ModelId → Cycle → Float
  cycle_download_score download_status model_id cycle =
      score_from download_status model_id (of_int 0) cycle

  -- The order of the pairs of a score and the memory.
  unfoldable pub key_below :
      Dict NodeId (List DownloadProgress) → Dict NodeId MemoryUsage → ModelId → Cycle → Cycle → Bool
  key_below download_status node_memory model_id a b =
      let sa = cycle_download_score download_status model_id a in
      let sb = cycle_download_score download_status model_id b in
      if equal sa sb
      then ltb (cycle_memory node_memory a) (cycle_memory node_memory b)
      else below sa sb

-- max(cycles, key=…): the first of the greatest.
unfoldable pub best_from : (Cycle → Cycle → Bool) → Cycle → List Cycle → Cycle
best_from key_lt best [] = best
best_from key_lt best (cycle ∷ cycles) =
    best_from key_lt (if key_lt best cycle then cycle else best) cycles

unfoldable pub best_cycle : (Cycle → Cycle → Bool) → List Cycle → Result Cycle
best_cycle key_lt [] = raise value_error
best_cycle key_lt (cycle ∷ cycles) = ok (best_from key_lt cycle cycles)
