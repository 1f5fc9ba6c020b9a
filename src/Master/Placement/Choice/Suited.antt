-- ===== src/Master/Placement/Choice/Suited.antt =====
-- placement.py: what holds of the cycle that `place_instance` chooses.
use mathlib.Core.List.{Memᴰ}
use agent_setup.Base.Eq.{◌==◌, text_eq, ==_eq, ==_refl}
use agent_setup.Base.{
  String, &&-eq-true, all_of-Mem, any_of-Mem, any_of-not-Mem, ◌↔◌, Option, none, some, false≢true,
  ◌≤◌, ◌≡◌, refl, ap, sym, subst, ◌∙◌, Bool, true, List, [], ◌∷◌, inl, inr, Bool-cases, length,
  keep_if, all_of, any_of, keep_if-Mem, keep_if-keeps, arith, leb, leb→le,
}
use agent_setup.Base.Result.{ok, chain, ok-injective}
use agent_setup.Base.Dict.{Dict, get, has}
use agent_setup.Types.Common.{NodeId}
use agent_setup.Types.Nodes.{MemoryUsage}
use agent_setup.Shared.Interface.{TopologyOps}
use agent_setup.Master.Placement.Allocation.{Floats}
use agent_setup.Master.Placement.Shards.{is_nil}
use agent_setup.Master.Placement.Cycles.{
  Cycle, InstanceMeta, mlx_ring, mlx_jaccl, among, has_memory, filter_cycles_by_memory,
  filter_by_sharding, cycle_memory, backends_at, backends_of, enabled, get_smallest_cycles,
  required_backends, supports, all_rdma_ctl_enabled,
}
use agent_setup.Master.Placement.Choice.{
  PlaceInstance, Cluster, eligible, rdma_only, prefer_leaf, over_rdma, select_cycle,
}
use agent_setup.Master.Placement.Choice.Filters.{
  required, kept, MayShard, best_cycle-Mem, get_smallest_cycles-Mem, filter_by_sharding-Mem,
}

-- The cycles that the choice is made from: cycles of the topology that are long enough, have the
-- required nodes, have the memory, every node known, and may be sharded as the command asks.
pub record Candidate (net : TopologyOps) (command : PlaceInstance) (required_nodes : List NodeId)
    (cluster : Cluster net.Topology) (c : Cycle) : Type 0 where
  pub in_topology : Memᴰ c (net.get_cycles cluster.topology)
  pub long_enough : command.min_nodes ≤ length c
  pub has_required : (n : NodeId) → Memᴰ n required_nodes → Memᴰ n c
  pub known : (n : NodeId) → Memᴰ n c → has cluster.node_memory n ≡ true
  pub fits : command.model_card.storage_size ≤ cycle_memory cluster.node_memory c
  pub may_shard : MayShard command.model_card command.sharding c

-- The links that the engine needs.
abbrev pub Linked : (net : TopologyOps) → Cluster net.Topology → Cycle → InstanceMeta → Type 0
Linked net cluster c mlx_ring = Unit {0}
Linked net cluster c mlx_jaccl =
    (net.is_rdma_cycle cluster.topology c ≡ true)
    × ((n : NodeId) → Memᴰ n c → get cluster.node_rdma_ctl n ≡ some true)

pub record Suited (net : TopologyOps) (command : PlaceInstance) (required_nodes : List NodeId)
    (cluster : Cluster net.Topology) (c : Cycle) : Type 0 where
  pub candidate : Candidate net command required_nodes cluster c
  pub smallest : (d : Cycle) → Candidate net command required_nodes cluster d → length c ≤ length d
  pub backend :
      (n : NodeId)
      → Memᴰ n c
      → (b : String) × Memᴰ b (backends_at (get cluster.node_backends n))
        × Memᴰ b command.model_card.backends
        × Memᴰ b (backends_of command.instance_meta)
  pub linked : Linked net cluster c command.instance_meta

among-Mem : (xs : List String) (x : String) → (among xs x ≡ true) ↔ Memᴰ x xs
among-Mem xs x = (
  λ h. let (y, m, e) = any_of-Mem (λ y. y == x) xs h in subst (λ z. Memᴰ z xs) (==_eq y x e) m,
  λ m. elim (Bool-cases (among xs x)) [
    | inl e ↦ e
    | inr e ↦ absurd (false≢true (sym (any_of-not-Mem (λ y. y == x) xs x e m) ∙ ==_refl x))
  ],
)

eligible_iff :
    (command : PlaceInstance) (required_nodes : List NodeId) (memory : Dict NodeId MemoryUsage)
    (cycles : List Cycle) (c : Cycle)
    → Memᴰ c (eligible command required_nodes memory cycles) ↔ (
        Memᴰ c cycles
        × (leb command.min_nodes (length c) ≡ true)
        × (all_of (among c) required_nodes ≡ true)
        × (has_memory memory command.model_card.storage_size c ≡ true))
unfolding eligible filter_cycles_by_memory
eligible_iff command required_nodes memory cycles c = (
  λ m.
      let (m1, h1) = keep_if-Mem _ _ c m in
      let (m2, h2) = keep_if-Mem _ _ c m1 in
      let (m3, h3) = keep_if-Mem _ _ c m2 in (m3, h3, h2, h1),
  λ m. keep_if-keeps _ _ c (keep_if-keeps _ _ c (keep_if-keeps _ _ c m.0 m.1) m.2) m.3,
)

all_of-intro :
    (test : String → Bool) (xs : List String)
    → ((x : String) → Memᴰ x xs → test x ≡ true)
    → all_of test xs ≡ true
unfolding all_of
all_of-intro test [] h = refl
all_of-intro test (x ∷ xs) h =
    ground (arith, h x (Memᴰ.head refl), all_of-intro test xs (λ y m. h y (Memᴰ.tail m)))

module _ (net : TopologyOps) (command : PlaceInstance) (required_nodes : List NodeId)
    (cluster : Cluster net.Topology) where
  fitting : List Cycle
  fitting = eligible command required_nodes cluster.node_memory (net.get_cycles cluster.topology)

  to_candidate :
      (c : Cycle)
      → Memᴰ c fitting
      → MayShard command.model_card command.sharding c
      → Candidate net command required_nodes cluster c
  unfolding fitting has_memory
  to_candidate c m may =
      let (member, long, nodes, room) = (eligible_iff _ _ _ _ c).0 m in
      let (known, fits) = &&-eq-true _ _ room in
      record {
        in_topology = member;
        long_enough = leb→le _ _ long;
        has_required = λ n k. (among-Mem c n).0 (all_of-Mem (among c) required_nodes n nodes k);
        known = λ n k. all_of-Mem (has cluster.node_memory) c n known k;
        fits = leb→le _ _ fits;
        may_shard = may;
      }

  of_candidate : (c : Cycle) → Candidate net command required_nodes cluster c → Memᴰ c fitting
  unfolding fitting has_memory
  of_candidate c k =
      let long = k.long_enough in
      let fits = k.fits in
      let known : all_of (has cluster.node_memory) c ≡ true = all_of-intro _ c k.known in
      (eligible_iff _ _ _ _ c).1 (
        k.in_topology,
        ground arith,
        all_of-intro (among c) required_nodes (λ n m. (among-Mem c n).1 (k.has_required n m)),
        rw known (ground arith),
      )

  rdma_only-Mem :
      (meta : InstanceMeta) (cycles linked : List Cycle) (c : Cycle)
      → rdma_only meta (over_rdma net cluster) cycles ≡ ok linked
      → Memᴰ c linked
      → Memᴰ c cycles × Linked net cluster c meta
  unfolding rdma_only all_rdma_ctl_enabled
  rdma_only-Mem mlx_ring cycles linked c h m =
      (subst (λ l. Memᴰ c l) (sym (ok-injective _ _ h)) m, tt)
  rdma_only-Mem mlx_jaccl cycles linked c h m =
      let e = kept (over_rdma net cluster) cycles linked h in
      let (member, over) =
        keep_if-Mem (over_rdma net cluster) cycles c (subst (λ l. Memᴰ c l) e m) in
      let (ring, on) = &&-eq-true _ _ over in
      (
        member,
        (
          ring,
          λ n k.
              on_is (get cluster.node_rdma_ctl n)
                (all_of-Mem (λ j. enabled (get cluster.node_rdma_ctl j)) c n on k),
        ),
      )
    where
      on_is : (o : Option Bool) → enabled o ≡ true → o ≡ some true
      on_is none h = absurd (cc)
      on_is (some b) h = ap some h

  prefer_leaf-Mem :
      (leaf : NodeId → Bool) (cycles : List Cycle) (c : Cycle)
      → Memᴰ c (prefer_leaf leaf cycles)
      → Memᴰ c cycles
  unfolding prefer_leaf
  prefer_leaf-Mem leaf cycles c m = elim (Bool-cases (is_nil (keep_if (any_of leaf) cycles))) [
    | inl e ↦ rw e at m
    | inr e ↦ (keep_if-Mem (any_of leaf) cycles c (rw e at m)).0
  ]

  shared_backend :
      (c : Cycle) (n : NodeId)
      → supports cluster.node_backends
          (required_backends command.instance_meta command.model_card)
          c
        ≡ true
      → Memᴰ n c
      → (b : String) × Memᴰ b (backends_at (get cluster.node_backends n))
        × Memᴰ b command.model_card.backends
        × Memᴰ b (backends_of command.instance_meta)
  unfolding supports required_backends
  shared_backend c n h m =
      let both = required_backends command.instance_meta command.model_card in
      let (b, at, common) = any_of-Mem (among both) (backends_at (get cluster.node_backends n)) (
        all_of-Mem (λ j. any_of (among both) (backends_at (get cluster.node_backends j))) c n h
          m) in
      let (of_meta, of_card) =
        keep_if-Mem (among command.model_card.backends) (backends_of command.instance_meta) b
          ((among-Mem both b).0 common) in
      (b, at, (among-Mem command.model_card.backends b).0 of_card, of_meta)

-- The cycle that is chosen is a candidate not longer than any other; each of its nodes has a
-- backend that both the model and the engine work with; and for Jaccl it is connected by RDMA,
-- which all its nodes have enabled. A candidate is a cycle of the topology that has at least the
-- number of nodes asked for, all required nodes, a memory reading of each node, together at least
-- the model's storage, and that the kind of sharding allows.
pub select_cycle-Suited :
    (floats : Floats) (net : TopologyOps) (command : PlaceInstance) (required_nodes : List NodeId)
    (cluster : Cluster net.Topology) (c : Cycle)
    → select_cycle floats net command required_nodes cluster ≡ ok c
    → Suited net command required_nodes cluster c
unfolding select_cycle fitting
select_cycle-Suited floats net command required_nodes cluster c h =
    let candidates =
      eligible command required_nodes cluster.node_memory (net.get_cycles cluster.topology) in
    let (a, h1) = required _ _ c h in
    let (sharded, hs, h2) =
      chain (filter_by_sharding command.model_card command.sharding candidates) _ c h1 in
    let (smallest, hm, h3) = chain (get_smallest_cycles sharded) _ c h2 in
    let (b, h4) = required _ _ c h3 in
    let (d, h5) = required _ _ c h4 in
    let (linked, hl, h6) =
      chain (rdma_only command.instance_meta (over_rdma net cluster) _) _ c h5 in
    let m1 =
      prefer_leaf-Mem net command required_nodes cluster (net.node_is_leaf cluster.topology) linked
        c (best_cycle-Mem _ _ c h6) in
    let (m2, links) =
      rdma_only-Mem net command required_nodes cluster command.instance_meta _ linked c hl m1 in
    let (m3, backed) = keep_if-Mem _ smallest c m2 in
    let (m4, least) = get_smallest_cycles-Mem sharded smallest c hm m3 in
    let (m5, may) =
      (filter_by_sharding-Mem command.model_card command.sharding candidates sharded c hs).0 m4 in
    record {
      candidate = to_candidate net command required_nodes cluster c m5 may;
      smallest = λ e k. least e (
          (filter_by_sharding-Mem command.model_card command.sharding candidates sharded e hs).1
            (of_candidate net command required_nodes cluster e k, k.may_shard));
      backend = λ n k. shared_backend net command required_nodes cluster c n backed k;
      linked = links;
    }
