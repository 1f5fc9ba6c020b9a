-- ===== src/Master/Placement/Shards.antt =====
-- placement_utils.py: from the allocated layers to the shards of a cycle's nodes. `fresh` gives the
-- identifiers that `RunnerId()` makes, one for each rank; floats are an interface.
pub mod Tiling
pub mod Positions
pub mod Pipeline
use agent_setup.Base.{
  ℕ, zero, suc, ◌+◌, ◌-◌, ◌*◌, ◌/◌, ◌%◌, Bool, true, false, not, ◌&&◌, Option, none, some, List, [],
  ◌∷◌, ◌++◌, map, ltb, leb, nat_beq, length, if◌then◌else◌, get_elem?,
}
use agent_setup.Base.Eq.{◌==◌, text_eq}
use agent_setup.Base.Seq.{sum, take}
use agent_setup.Base.Dict.{Dict, get, insert}
use agent_setup.Base.Result.{
  Result, ok, raise, index_error, key_error, value_error, ◌>>=◌, ◌>>◌, or_raise,
}
use agent_setup.Types.Common.{NodeId}
use agent_setup.Types.Nodes.{MemoryUsage}
use agent_setup.Types.Workers.{
  ModelCard, ShardMetadata, ShardKind, pipeline, tensor, cfg, ShardAssignments, RunnerId,
}
use agent_setup.Master.Placement.Allocation.{Floats, allocate_layers}

-- Sharding
pub data Sharding : Type 0 where
  by_pipeline by_tensor : Sharding

-- node_memory[node_id].ram_available
unfoldable pub available : Dict NodeId MemoryUsage → NodeId → Result ℕ
available node_memory node_id =
    or_raise (get node_memory node_id) key_error >>= λ m. ok m.ram_available

-- [node_memory[node_id].ram_available for node_id in node_ids]
unfoldable pub all_available : Dict NodeId MemoryUsage → List NodeId → Result (List ℕ)
all_available node_memory [] = ok []
all_available node_memory (node_id ∷ node_ids) = do
  m ← available node_memory node_id
  ms ← all_available node_memory node_ids
  ok (m ∷ ms)

abbrev pub is_nil {ℓ} : {A : Type ℓ} → List A → Bool
is_nil [] = true
is_nil (x ∷ xs) = false

abbrev pub require : Bool → Result (Unit {0})
require true = ok tt
require false = raise value_error

-- _compute_total_memory
unfoldable pub compute_total_memory : Dict NodeId MemoryUsage → List NodeId → Result ℕ
compute_total_memory node_memory node_ids = do
  ms ← all_available node_memory node_ids
  require (not (nat_beq (sum ms) 0))
  ok (sum ms)

-- The loop over the nodes that compares what a node needs with what it has.
unfoldable pub check_memory : ModelCard → List ℕ → List ℕ → Result (Unit {0})
check_memory card (n ∷ layers) (m ∷ ms) = do
  require (leb (card.storage_size * n / card.n_layers) m)
  check_memory card layers ms
check_memory card layers [] = ok tt
check_memory card [] (m ∷ ms) = raise index_error

-- One stage of a pipeline: the node at a rank takes the next layers.
abbrev pub pipeline_shard : ModelCard → ℕ → ℕ → ℕ → ℕ → ShardMetadata
pipeline_shard card rank world before layers = record {
  kind = pipeline;
  model_card = card;
  device_rank = rank;
  world_size = world;
  start_layer = before;
  end_layer = before + layers;
  n_layers = card.n_layers;
}

-- The loop of _get_shard_assignments_for_pure_pipeline from a rank on.
unfoldable pub assign_pipeline :
    (ℕ → RunnerId)
    → ModelCard
    → ℕ
    → List ℕ
    → ℕ
    → List NodeId
    → ShardAssignments
    → Result ShardAssignments
assign_pipeline fresh card world layers rank [] a = ok a
assign_pipeline fresh card world layers rank (node_id ∷ node_ids) a = do
  n ← or_raise (get_elem? layers rank) index_error
  let shard = pipeline_shard card rank world (sum (take rank layers)) n
  assign_pipeline fresh card world layers (suc rank) node_ids (record a {
    runner_to_shard = insert a.runner_to_shard (fresh rank) shard;
    node_to_runner = insert a.node_to_runner node_id (fresh rank);
  })

abbrev pub no_assignments : ModelCard → ShardAssignments
no_assignments card = record { model_id = card.model_id; runner_to_shard = []; node_to_runner = [] }

-- position_to_cfg_pipeline: the second group goes back down.
unfoldable pub ascending : ℕ → ℕ → List (ℕ × ℕ)
ascending r zero = []
ascending r (suc n) = (0, r) ∷ ascending (suc r) n

unfoldable pub descending : ℕ → List (ℕ × ℕ)
descending zero = []
descending (suc n) = (1, n) ∷ descending n

-- The loop of _get_shard_assignments_for_cfg_parallel from a rank on.
unfoldable pub assign_cfg :
    (ℕ → RunnerId)
    → ModelCard
    → ℕ
    → ℕ
    → List ℕ
    → ℕ
    → List (ℕ × ℕ)
    → List NodeId
    → ShardAssignments
    → Result ShardAssignments
assign_cfg fresh card world stages layers rank positions [] a = ok a
assign_cfg fresh card world stages layers rank [] (node_id ∷ node_ids) a = raise index_error
assign_cfg fresh card world stages layers rank ((group, stage) ∷ positions) (node_id ∷ node_ids) a =
    do
      n ← or_raise (get_elem? layers stage) index_error
      let shard = record (pipeline_shard card rank world (sum (take stage layers)) n) {
        kind = cfg group 2 stage stages;
      }
      assign_cfg fresh card world stages layers (suc rank) positions node_ids (record a {
        runner_to_shard = insert a.runner_to_shard (fresh rank) shard;
        node_to_runner = insert a.node_to_runner node_id (fresh rank);
      })

-- The loop of get_shard_assignments_for_tensor_parallel from a rank on.
unfoldable pub assign_tensor :
    (ℕ → RunnerId) → ModelCard → ℕ → ℕ → List NodeId → ShardAssignments → ShardAssignments
assign_tensor fresh card world rank [] a = a
assign_tensor fresh card world rank (node_id ∷ node_ids) a =
    assign_tensor fresh card world (suc rank) node_ids (record a {
      runner_to_shard = insert a.runner_to_shard (fresh rank) (record {
        kind = tensor;
        model_card = card;
        device_rank = rank;
        world_size = world;
        start_layer = 0;
        end_layer = card.n_layers;
        n_layers = card.n_layers;
      });
      node_to_runner = insert a.node_to_runner node_id (fresh rank);
    })

module _ (floats : Floats) where
  open floats use {divide}

  -- _allocate_and_validate_layers
  unfoldable pub allocate_and_validate :
      List NodeId → Dict NodeId MemoryUsage → ℕ → ModelCard → Result (List ℕ)
  allocate_and_validate node_ids node_memory total_memory card = do
    ms ← all_available node_memory node_ids
    layers ← allocate_layers floats card.n_layers (map (λ m. divide m total_memory) ms)
    check_memory card layers ms
    ok layers

  -- _get_shard_assignments_for_pure_pipeline
  unfoldable pub pure_pipeline :
      (ℕ → RunnerId) → ModelCard → List NodeId → Dict NodeId MemoryUsage → Result ShardAssignments
  pure_pipeline fresh card cycle node_memory = do
    require (not (is_nil cycle))
    total_memory ← compute_total_memory node_memory cycle
    layers ← allocate_and_validate cycle node_memory total_memory card
    assign_pipeline fresh card (length cycle) layers 0 cycle (no_assignments card)

  -- _get_shard_assignments_for_cfg_parallel
  unfoldable pub cfg_parallel :
      (ℕ → RunnerId) → ModelCard → List NodeId → Dict NodeId MemoryUsage → Result ShardAssignments
  cfg_parallel fresh card cycle node_memory = do
    require (not (is_nil cycle))
    let stages = length cycle / 2
    let nodes = take stages cycle
    pipeline_memory ← compute_total_memory node_memory nodes
    layers ← allocate_and_validate nodes node_memory pipeline_memory card
    assign_cfg fresh card (length cycle) stages layers 0 (ascending 0 stages ++ descending stages)
        cycle (no_assignments card)

  -- get_shard_assignments_for_pipeline_parallel
  unfoldable pub pipeline_parallel :
      (ℕ → RunnerId) → ModelCard → List NodeId → Dict NodeId MemoryUsage → Result ShardAssignments
  pipeline_parallel fresh card cycle node_memory =
      if card.uses_cfg && (leb 2 (length cycle) && nat_beq (length cycle % 2) 0)
      then cfg_parallel fresh card cycle node_memory
      else pure_pipeline fresh card cycle node_memory

  -- get_shard_assignments
  unfoldable pub get_shard_assignments :
      (ℕ → RunnerId)
      → ModelCard
      → List NodeId
      → Sharding
      → Dict NodeId MemoryUsage
      → Result ShardAssignments
  get_shard_assignments fresh card cycle by_pipeline node_memory =
      pipeline_parallel fresh card cycle node_memory
  get_shard_assignments fresh card cycle by_tensor node_memory =
      ok (assign_tensor fresh card (length cycle) 0 cycle (no_assignments card))
