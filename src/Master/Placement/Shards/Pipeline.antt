-- ===== src/Master/Placement/Shards/Pipeline.antt =====
-- What a placement as a pure pipeline gives to the nodes of its cycle.
use agent_setup.Base.{
  ℕ, suc, ◌+◌, ◌≤◌, ◌≡◌, refl, sym, ap, ◌∙◌, subst, Bool, true, false, not, none, some, List, [],
  ◌∷◌, map, arith, length, nat_beq, nat_beq_iff, ltb, Bool-cases, inl, inr,
}
use agent_setup.Base.Eq.{text_eq}
use agent_setup.Base.Seq.{sum, take}
use agent_setup.Base.Dict.{Dict, get, values}
use agent_setup.Base.Result.{Result, ok, raise, value_error, ◌>>◌, chain, ok-injective}
use agent_setup.Types.Common.{NodeId}
use agent_setup.Types.Nodes.{MemoryUsage}
use agent_setup.Types.Workers.{ModelCard, ShardAssignments, RunnerId}
use agent_setup.Master.Placement.Allocation.{Floats, floors, allocate_layers}
use agent_setup.Master.Placement.Allocation.Total.{Allocated, allocate_layers-Allocated}
use agent_setup.Master.Placement.Shards.{
  available, all_available, compute_total_memory, allocate_and_validate, pure_pipeline,
  no_assignments, require, is_nil, check_memory,
}
use agent_setup.Master.Placement.Shards.Positions.{InOrder, NoneTwice, assign_pipeline-InOrder}
use agent_setup.Master.Placement.Shards.Tiling.{
  Stages, Known, Earlier, Assigned, assign_pipeline-Assigned,
}

-- The shares that floats give the nodes, rounded down, are not above the layers in all, and below
-- them by at most one for each node.
pub record Rounds (floats : Floats) (total : ℕ) (ms : List ℕ) : Type 0 where
  pub low : sum (floors floats total (map (λ m. floats.divide m (sum ms)) ms)) ≤ total
  pub high : total ≤ sum (floors floats total (map (λ m. floats.divide m (sum ms)) ms)) + length ms

required :
    (b : Bool) {B : Type 0} (r : Result B) (x : B)
    → (require b >> r) ≡ ok x
    → (b ≡ true) × (r ≡ ok x)
required true r x h = (refl, h)
required false r x h = absurd (cc)

length-all_available :
    (memory : Dict NodeId MemoryUsage) (node_ids : List NodeId) (ms : List ℕ)
    → all_available memory node_ids ≡ ok ms
    → length ms ≡ length node_ids
unfolding all_available
length-all_available memory [] ms h = ap length (ok-injective ms [] (sym h))
length-all_available memory (node_id ∷ node_ids) ms h =
    let (m, got, h1) = chain (available memory node_id) _ ms h in
    let (rest, got', h2) = chain (all_available memory node_ids) _ ms h1 in
    let e = ok-injective (m ∷ rest) ms h2 in
    let same = length-all_available memory node_ids rest got' in
    let e' : suc (length rest) ≡ length ms = ap length e in omega arith

-- The total is that of the amounts.
compute_total_memory-sum :
    (memory : Dict NodeId MemoryUsage) (node_ids : List NodeId) (total : ℕ)
    → compute_total_memory memory node_ids ≡ ok total
    → (ms : List ℕ) × (all_available memory node_ids ≡ ok ms) × (sum ms ≡ total)
unfolding compute_total_memory
compute_total_memory-sum memory node_ids total h =
    let (ms, got, h1) = chain (all_available memory node_ids) _ total h in
    let (positive, h2) = required (not (nat_beq (sum ms) 0)) (ok (sum ms)) total h1 in
    (ms, got, ok-injective (sum ms) total h2)

length-map : {A B : Type 0} (f : A → B) (xs : List A) → length (map f xs) ≡ length xs
length-map f [] = refl
length-map f (x ∷ xs) = omega (arith, length-map f xs)

nothing_yet :
    (fresh : ℕ → RunnerId) (card : ModelCard) (world : ℕ) (layers : List ℕ)
    → Earlier fresh card world layers 0 (no_assignments card)
unfolding get
nothing_yet fresh card world layers k le = refl

placed :
    (fresh : ℕ → RunnerId) (card : ModelCard) (cycle : List NodeId) (layers : List ℕ)
    (a : ShardAssignments) {r : Result ShardAssignments}
    → sum layers ≡ card.n_layers
    → (s : Assigned fresh card (length cycle) layers 0 cycle (no_assignments card) r)
    → ok s.after ≡ ok a
    → (length a.runner_to_shard ≡ length cycle)
      × Stages card (length cycle) 0 0 card.n_layers (values a.runner_to_shard)
      × Known a
unfolding take sum get
placed fresh card cycle layers a total s e =
    let same : s.after ≡ a = ok-injective s.after a e in
    let runners : a.runner_to_shard ≡ s.added =
      ap (λ (x : ShardAssignments). x.runner_to_shard) (sym same) ∙ s.shards in
    (
      ap length runners ∙ s.count,
      rw runners (subst (λ n. Stages card (length cycle) 0 0 n (values s.added)) total s.stages),
      subst Known same (s.known (λ k r h. absurd (none_some r h))),
    )
  where
    none_some : (r : RunnerId) → none ≡ some r → ⊥
    none_some r h = cc

module _ (floats : Floats) where
  -- An allocation that returns has not met the two refusals.
  allocated :
      (total : ℕ) (ms layers : List ℕ)
      → Rounds floats total ms
      → allocate_layers floats total (map (λ m. floats.divide m (sum ms)) ms) ≡ ok layers
      → Allocated floats total (length ms) layers
  unfolding allocate_layers
  allocated total ms layers r h = elim (Bool-cases (nat_beq (length shares) 0)) [
    | inl none_ ↦ absurd (refused (rw none_ at h))
    | inr some_ ↦ elim (Bool-cases (ltb total (length shares))) [
      | inl few ↦ absurd (refused (rw (some_, few) at h))
      | inr enough ↦
          let same : length shares ≡ length ms = length-map (λ m. floats.divide m (sum ms)) ms in
          let (xs, returns, done) =
            allocate_layers-Allocated floats total shares
              (ground (arith, nat_beq_iff (length shares) 0)) (ground arith) r.low
              (rw same r.high) in
          let e : xs ≡ layers = ok-injective xs layers (sym returns ∙ h) in
          subst (λ n. Allocated floats total n layers) same
            (subst (λ l. Allocated floats total (length shares) l) e done)
    ]
  ]
    where
      shares : List floats.Float
      shares = map (λ m. floats.divide m (sum ms)) ms

      refused : raise value_error ≡ ok layers → ⊥
      refused e = cc

  allocate_and_validate-layers :
      (cycle : List NodeId) (memory : Dict NodeId MemoryUsage) (card : ModelCard)
      (ms layers : List ℕ)
      → all_available memory cycle ≡ ok ms
      → allocate_and_validate floats cycle memory (sum ms) card ≡ ok layers
      → allocate_layers floats card.n_layers (map (λ m. floats.divide m (sum ms)) ms) ≡ ok layers
  unfolding allocate_and_validate
  allocate_and_validate-layers cycle memory card ms layers got h =
      let (xs, given, h2) =
        chain (allocate_layers floats card.n_layers (map (λ m. floats.divide m (sum ms)) ms)) _
          layers (rw got at h) in
      let (u, fits, h3) = chain (check_memory card xs ms) _ layers h2 in given ∙ h3

  -- A pure pipeline that is placed on a cycle of distinct nodes has as many shards as the cycle has
  -- nodes; in the order of the ranks, from 0 up, they take the layers from the first to the last
  -- exactly once, each at least one. The node at each position of the cycle has a runner whose
  -- shard has that position as its rank, and every runner of a node has a shard. Identifiers of
  -- runners are assumed to differ, and the nodes' shares, rounded down, to be not above the layers
  -- in all and below them by at most one for each node.
  pub pure_pipeline-Stages :
      (fresh : ℕ → RunnerId) (card : ModelCard) (cycle : List NodeId)
      (memory : Dict NodeId MemoryUsage) (a : ShardAssignments)
      → ((i j : ℕ) → fresh i ≡ fresh j → i ≡ j)
      → NoneTwice cycle
      → ((ms : List ℕ) → all_available memory cycle ≡ ok ms → Rounds floats card.n_layers ms)
      → pure_pipeline floats fresh card cycle memory ≡ ok a
      → (length a.runner_to_shard ≡ length cycle)
        × Stages card (length cycle) 0 0 card.n_layers (values a.runner_to_shard)
        × Known a
        × InOrder cycle a
  unfolding pure_pipeline
  pure_pipeline-Stages fresh card cycle memory a inj apart rounds h =
      let (some_, h1) = required (not (is_nil cycle)) _ a h in
      let (total, summed, h2) = chain (compute_total_memory memory cycle) _ a h1 in
      let (layers, given, h3) =
        chain (allocate_and_validate floats cycle memory total card) _ a h2 in
      let (ms, got, e) = compute_total_memory-sum memory cycle total summed in
      let n = length-all_available memory cycle ms got in
      let l = allocated card.n_layers ms layers (rounds ms got) (
        allocate_and_validate-layers cycle memory card ms layers got (
          subst (λ t. allocate_and_validate floats cycle memory t card ≡ ok layers) (sym e)
            given)) in
      let count = l.count in
      let s =
        assign_pipeline-Assigned fresh card (length cycle) layers inj l.positive cycle 0
          (no_assignments card) (omega arith) (nothing_yet fresh card (length cycle) layers) in
      let (shards, stages, known) =
        placed fresh card cycle layers a l.layers s (sym s.returns ∙ h3) in
      (
        shards,
        stages,
        known,
        assign_pipeline-InOrder fresh card (length cycle) layers inj cycle (no_assignments card) a
            apart h3,
      )
