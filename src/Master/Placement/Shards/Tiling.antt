-- ===== src/Master/Placement/Shards/Tiling.antt =====
-- The shards of a pipeline divide the model's layers among the ranks.
use agent_setup.Base.{
  ℕ, suc, ◌+◌, ◌≤◌, ◌<◌, ◌≡◌, refl, ap, subst, true, none, some, List, [], ◌∷◌, ◌++◌, append-nil,
  append_assoc, arith, length, get_elem?, inl, inr, Bool-cases,
}
use agent_setup.Base.Eq.{◌==◌, text_eq, ==_eq, ==_refl}
use agent_setup.Base.Seq.{sum, take, get_within, sum-take-suc, take_all}
use agent_setup.Base.Dict.{Dict, get, insert, values, get-insert, insert-append, is_some}
use agent_setup.Base.Result.{Result, ok}
use agent_setup.Types.Common.{NodeId}
use agent_setup.Types.Workers.{ModelCard, ShardMetadata, ShardAssignments, RunnerId}
use agent_setup.Master.Placement.Shards.{pipeline_shard, assign_pipeline}

-- Shards of consecutive ranks from `rank` on, each with at least one layer, that follow each other
-- without a gap or an overlap from layer `start` to layer `end`.
abbrev pub Stages : ModelCard → ℕ → ℕ → ℕ → ℕ → List ShardMetadata → Type 0
Stages card world rank start end [] = start ≡ end
Stages card world rank start end (x ∷ xs) =
    (x.start_layer ≡ start)
    × (x.start_layer < x.end_layer)
    × (x.device_rank ≡ rank)
    × (x.world_size ≡ world)
    × (x.model_card ≡ card)
    × (x.n_layers ≡ card.n_layers)
    × Stages card world (suc rank) x.end_layer end xs

-- What the validator of `ShardAssignments` asks for: every node's runner has a shard.
abbrev pub Known : ShardAssignments → Type 0
Known a =
    (k : NodeId) (r : RunnerId)
    → get a.node_to_runner k ≡ some r
    → is_some (get a.runner_to_shard r) ≡ true

module _ (fresh : ℕ → RunnerId) (card : ModelCard) (world : ℕ) (layers : List ℕ) where
  -- The runners of the assignments so far are those of earlier ranks.
  abbrev pub Earlier : ℕ → ShardAssignments → Type 0
  Earlier rank a = (k : ℕ) → rank ≤ k → get a.runner_to_shard (fresh k) ≡ none

  -- What the loop adds from a rank on.
  pub record Assigned (rank : ℕ) (node_ids : List NodeId) (a : ShardAssignments)
      (r : Result ShardAssignments) : Type 0 where
    pub after : ShardAssignments
    pub returns : r ≡ ok after
    pub same_model : after.model_id ≡ a.model_id
    pub added : Dict RunnerId ShardMetadata
    pub shards : after.runner_to_shard ≡ a.runner_to_shard ++ added
    pub count : length added ≡ length node_ids
    pub known : Known a → Known after
    pub stages : Stages card world rank (sum (take rank layers)) (sum layers) (values added)

  one_more : (rank n : ℕ) (node_id : NodeId) (a : ShardAssignments) → ShardAssignments
  one_more rank n node_id a = record a {
    runner_to_shard =
        insert a.runner_to_shard (fresh rank)
          (pipeline_shard card rank world (sum (take rank layers)) n);
    node_to_runner = insert a.node_to_runner node_id (fresh rank);
  }

  one_more-Earlier :
      ((i j : ℕ) → fresh i ≡ fresh j → i ≡ j)
      → (rank n : ℕ) (node_id : NodeId) (a : ShardAssignments) → Earlier rank a
      → Earlier (suc rank) (one_more rank n node_id a)
  unfolding one_more
  one_more-Earlier inj rank n node_id a before k le = elim (Bool-cases (fresh rank == fresh k)) [
    | inl same ↦ let e = inj rank k (==_eq (fresh rank) (fresh k) same) in absurd (omega arith)
    | inr apart ↦ rw (get-insert, apart) (before k (omega arith))
  ]

  one_more-Known :
      (rank n : ℕ) (node_id : NodeId) (a : ShardAssignments)
      → Known a
      → Known (one_more rank n node_id a)
  unfolding one_more
  one_more-Known rank n node_id a known k r h =
      let shard = pipeline_shard card rank world (sum (take rank layers)) n in
      ground (
        arith,
        get-insert a.node_to_runner node_id k (fresh rank),
        get-insert a.runner_to_shard (fresh rank) r shard,
        known k r,
        ==_refl (fresh rank),
      )

  Assigned-next :
      (rank n : ℕ) (node_id : NodeId) (node_ids : List NodeId) (a : ShardAssignments)
      → get_elem? layers rank ≡ some n
      → 0 < n
      → get a.runner_to_shard (fresh rank) ≡ none
      → Assigned
          (suc rank)
          node_ids
          (one_more rank n node_id a)
          (assign_pipeline fresh card world layers (suc rank) node_ids (one_more rank n node_id a))
      → Assigned rank
          (node_id ∷ node_ids)
          a
          (assign_pipeline fresh card world layers rank (node_id ∷ node_ids) a)
  unfolding assign_pipeline one_more values
  Assigned-next rank n node_id node_ids a h more new next =
      let shard = pipeline_shard card rank world (sum (take rank layers)) n in
      record {
        after = next.after;
        returns = rw h next.returns;
        same_model = next.same_model;
        added = (fresh rank, shard) ∷ next.added;
        shards =
            rw (next.shards, insert-append a.runner_to_shard (fresh rank) shard new, append_assoc);
        count = omega (arith, next.count);
        known = λ k. next.known (one_more-Known rank n node_id a k);
        stages = (
          refl,
          omega arith,
          refl,
          refl,
          refl,
          refl,
          subst (λ s. Stages card world (suc rank) s (sum layers) (values next.added))
              (sum-take-suc layers rank n h) next.stages,
        );
      }

  pub assign_pipeline-Assigned :
      ((i j : ℕ) → fresh i ≡ fresh j → i ≡ j)
      → ((j v : ℕ) → get_elem? layers j ≡ some v → 0 < v)
      → (node_ids : List NodeId) (rank : ℕ) (a : ShardAssignments)
      → rank + length node_ids ≡ length layers
      → Earlier rank a
      → Assigned rank node_ids a (assign_pipeline fresh card world layers rank node_ids a)
  assign_pipeline-Assigned inj positive [] rank a e before =
      let at : rank ≡ length layers = omega arith in
      record {
        after = a;
        returns = unfold assign_pipeline in refl;
        same_model = refl;
        added = [];
        shards = rw append-nil;
        count = refl;
        known = λ k. k;
        stages = unfold values in rw at (ap sum (take_all layers));
      }
  assign_pipeline-Assigned inj positive (node_id ∷ node_ids) rank a e before =
      let (n, h) = get_within layers rank (omega arith) in
      Assigned-next rank n node_id node_ids a h (positive rank n h) (before rank (omega arith)) (
        assign_pipeline-Assigned inj positive node_ids (suc rank) (one_more rank n node_id a)
          (omega arith) (one_more-Earlier inj rank n node_id a before))
