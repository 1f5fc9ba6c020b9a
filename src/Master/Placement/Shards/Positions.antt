-- ===== src/Master/Placement/Shards/Positions.antt =====
-- Which shard the node at a position of the cycle gets.
use agent_setup.Base.{
  ℕ, zero, suc, ◌+◌, ◌<◌, ◌≡◌, refl, sym, ap, ◌∙◌, some, List, [], ◌∷◌, Bool, true, false, arith,
  get_elem?, if◌then◌else◌,
}
use agent_setup.Base.Eq.{◌==◌, text_eq, ==_eq, ==_refl}
use agent_setup.Base.Seq.{sum, take}
use agent_setup.Base.Dict.{get, insert, get-insert}
use agent_setup.Base.Result.{ok, index_error, chain, or_raise, ok-injective}
use agent_setup.Types.Common.{NodeId}
use agent_setup.Types.Workers.{ModelCard, ShardMetadata, ShardAssignments, RunnerId}
use agent_setup.Master.Placement.Shards.{pipeline_shard, assign_pipeline}

-- The node at each position of the cycle has a runner, and the runner the shard of that rank.
abbrev pub InOrder : List NodeId → ShardAssignments → Type 0
InOrder cycle a =
    (i : ℕ) (n : NodeId)
    → get_elem? cycle i ≡ some n
    → (r : RunnerId) × (x : ShardMetadata) × (get a.node_to_runner n ≡ some r)
      × (get a.runner_to_shard r ≡ some x)
      × (x.device_rank ≡ i)

-- No node is twice in the cycle.
abbrev pub NoneTwice : List NodeId → Type 0
NoneTwice cycle =
    (i j : ℕ) (n : NodeId) → get_elem? cycle i ≡ some n → get_elem? cycle j ≡ some n → i ≡ j

NoneTwice-tail : (n : NodeId) (ns : List NodeId) → NoneTwice (n ∷ ns) → NoneTwice ns
NoneTwice-tail n ns apart i j m p q = let e = apart (suc i) (suc j) m p q in omega arith

module _ (fresh : ℕ → RunnerId) (card : ModelCard) (world : ℕ) (layers : List ℕ) where
  -- What the loop makes of the nodes it has left, from a rank on.
  record Positions (rank : ℕ) (node_ids : List NodeId) (a after : ShardAssignments) : Type 0 where
    outside :
        (n : NodeId)
        → ((j : ℕ) → get_elem? node_ids j ≡ some n → ⊥)
        → get after.node_to_runner n ≡ get a.node_to_runner n
    earlier :
        (k : ℕ) → k < rank → get after.runner_to_shard (fresh k) ≡ get a.runner_to_shard (fresh k)
    runner :
        (i : ℕ) (n : NodeId)
        → get_elem? node_ids i ≡ some n
        → get after.node_to_runner n ≡ some (fresh (rank + i))
    shard :
        (i : ℕ) (n : NodeId)
        → get_elem? node_ids i ≡ some n
        → (x : ShardMetadata) × (get after.runner_to_shard (fresh (rank + i)) ≡ some x)
          × (x.device_rank ≡ rank + i)

  abbrev next_of : ℕ → ℕ → NodeId → ShardAssignments → ShardAssignments
  next_of rank layer_count node_id a = record a {
    runner_to_shard =
        insert a.runner_to_shard (fresh rank)
          (pipeline_shard card rank world (sum (take rank layers)) layer_count);
    node_to_runner = insert a.node_to_runner node_id (fresh rank);
  }

  module _ (inj : (i j : ℕ) → fresh i ≡ fresh j → i ≡ j) (rank layer_count : ℕ) (node_id : NodeId)
      (node_ids : List NodeId) (a after : ShardAssignments) where
    next : ShardAssignments
    next = next_of rank layer_count node_id a

    Positions-next :
        NoneTwice (node_id ∷ node_ids)
        → Positions (suc rank) node_ids next after
        → Positions rank (node_id ∷ node_ids) a after
    unfolding next
    Positions-next apart rest = record {
      outside = λ n absent.
          rest.outside n (λ j. absent (suc j))
          ∙ get-insert a.node_to_runner node_id n (fresh rank)
          ∙ other n (node_id == n) refl absent;
      earlier = λ k lt.
          rest.earlier k (omega arith)
          ∙ get-insert a.runner_to_shard (fresh rank) (fresh k) _
          ∙ before k lt (fresh rank == fresh k) refl;
      runner = λ i n h. runner_at i n h;
      shard = λ i n h. shard_at i n h;
    }
      where
        other :
            (n : NodeId) (b : Bool)
            → (node_id == n) ≡ b
            → ((j : ℕ) → get_elem? (node_id ∷ node_ids) j ≡ some n → ⊥)
            → (if b then some (fresh rank) else get a.node_to_runner n) ≡ get a.node_to_runner n
        other n true e absent = absurd (absent 0 (ap some (==_eq node_id n e)))
        other n false e absent = refl

        before :
            (k : ℕ)
            → k < rank
            → (b : Bool) → (fresh rank == fresh k) ≡ b
            → (if b
                then some (pipeline_shard card rank world (sum (take rank layers)) layer_count)
                else get a.runner_to_shard (fresh k))
              ≡ get a.runner_to_shard (fresh k)
        before k lt true e =
            let same = inj rank k (==_eq (fresh rank) (fresh k) e) in absurd (omega arith)
        before k lt false e = refl

        runner_at :
            (i : ℕ) (n : NodeId)
            → get_elem? (node_id ∷ node_ids) i ≡ some n
            → get after.node_to_runner n ≡ some (fresh (rank + i))
        runner_at zero n h =
            let e : node_id ≡ n = cc in
            rest.outside n (λ j k. let q = apart (suc j) 0 n k h in absurd (omega arith))
            ∙ get-insert a.node_to_runner node_id n (fresh rank)
            ∙ (rw e (rw (==_refl n) (ap (λ x. some (fresh x)) (omega arith))))
        runner_at (suc i) n h = rest.runner i n h ∙ ap (λ x. some (fresh x)) (omega arith)

        shard_at :
            (i : ℕ) (n : NodeId)
            → get_elem? (node_id ∷ node_ids) i ≡ some n
            → (x : ShardMetadata) × (get after.runner_to_shard (fresh (rank + i)) ≡ some x)
              × (x.device_rank ≡ rank + i)
        shard_at zero n h =
            let x = pipeline_shard card rank world (sum (take rank layers)) layer_count in
            (
              x,
              ap (λ k. get after.runner_to_shard (fresh k)) (omega arith)
                  ∙ rest.earlier rank (omega arith)
                  ∙ get-insert a.runner_to_shard (fresh rank) (fresh rank) x
                  ∙ (rw (==_refl (fresh rank))),
              omega arith,
            )
        shard_at (suc i) n h =
            let (x, at, is) = rest.shard i n h in
            (x, ap (λ k. get after.runner_to_shard (fresh k)) (omega arith) ∙ at, omega arith)

  assign_pipeline-Positions :
      ((i j : ℕ) → fresh i ≡ fresh j → i ≡ j)
      → (node_ids : List NodeId) (rank : ℕ) (a after : ShardAssignments) → NoneTwice node_ids
      → assign_pipeline fresh card world layers rank node_ids a ≡ ok after
      → Positions rank node_ids a after
  unfolding assign_pipeline
  assign_pipeline-Positions inj [] rank a after apart h =
      let e = ok-injective a after h in
      record {
        outside = λ n absent. ap (λ (x : ShardAssignments). get x.node_to_runner n) (sym e);
        earlier = λ k lt. ap (λ (x : ShardAssignments). get x.runner_to_shard (fresh k)) (sym e);
        runner = λ i n k. absurd (nowhere i n k);
        shard = λ i n k. absurd (nowhere i n k);
      }
    where
      nowhere : (i : ℕ) (n : NodeId) → get_elem? [] i ≡ some n → ⊥
      nowhere i n k = cc
  assign_pipeline-Positions inj (node_id ∷ node_ids) rank a after apart h =
      let (layer_count, got, h1) = chain (or_raise (get_elem? layers rank) index_error) _ after h in
      Positions-next inj rank layer_count node_id node_ids a after apart (
        assign_pipeline-Positions inj node_ids (suc rank)
          (next inj rank layer_count node_id node_ids a after) after
          (NoneTwice-tail node_id node_ids apart) (unfold next in h1))

  pub assign_pipeline-InOrder :
      ((i j : ℕ) → fresh i ≡ fresh j → i ≡ j)
      → (cycle : List NodeId) (a after : ShardAssignments) → NoneTwice cycle
      → assign_pipeline fresh card world layers 0 cycle a ≡ ok after
      → InOrder cycle after
  assign_pipeline-InOrder inj cycle a after apart h i n at =
      let all = assign_pipeline-Positions inj cycle 0 a after apart h in
      let (x, has_shard, ranked) = all.shard i n at in
      (fresh (0 + i), x, all.runner i n at, has_shard, omega (arith, ranked))
