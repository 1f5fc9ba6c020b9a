-- ===== src/Master/Placement/Transitions/Downloads.antt =====
-- placement.py: which downloads `cancel_unnecessary_downloads` cancels.
use mathlib.Core.List.{Memᴰ}
use agent_setup.Base.{
  ◌≡◌, refl, sym, ap, ◌∙◌, subst, true, false, some, List, [], ◌∷◌, ◌++◌, ◌⊎◌, inl, inr, Bool-cases,
  any_of, any_of-not-Mem, false≢true, Mem-append_left,
}
use agent_setup.Base.Eq.{text_eq, ==_refl}
use agent_setup.Base.Dict.{Dict, get}
use agent_setup.Base.Result.{ok, key_error, or_raise, chain, ok-injective}
use agent_setup.Types.Common.{NodeId}
use agent_setup.Types.Workers.{
  RunnerId, ShardMetadata, ModelId, Instance, InstanceId, DownloadProgress, DownloadStatus,
  download_ongoing,
}
use agent_setup.Types.Workers.{download_pending, download_completed, download_failed}
use agent_setup.Base.{ℕ}
use agent_setup.Master.Placement.Transitions.{
  is_ongoing, ongoing_at, currently_downloading, models_at, active_models, same_pair, unnecessary,
  cancel_unnecessary_downloads,
}

-- A download of the model that is under way on the node.
pub record Ongoing (status : Dict NodeId (List DownloadProgress)) (n : NodeId) (m : ModelId)
    : Type 0 where
  pub reports : List DownloadProgress
  pub of_node : Memᴰ (n, reports) status
  pub report : DownloadProgress
  pub among : Memᴰ report reports
  pub downloaded : ℕ
  pub total : ℕ
  pub under_way : report.status ≡ download_ongoing downloaded total
  pub of_model : report.shard_metadata.model_card.model_id ≡ m

-- An instance that runs the model on the node.
pub record Active (instances : Dict InstanceId Instance) (n : NodeId) (m : ModelId) : Type 0 where
  pub instance_id : InstanceId
  pub instance_ : Instance
  pub of_instances : Memᴰ (instance_id, instance_) instances
  pub runner_id : RunnerId
  pub of_node : Memᴰ (n, runner_id) instance_.shard_assignments.node_to_runner
  pub shard : ShardMetadata
  pub runs : get instance_.shard_assignments.runner_to_shard runner_id ≡ some shard
  pub of_model : shard.model_card.model_id ≡ m

module _ {A : Type 0} where
  pub Mem-append_right : (a : A) (xs ys : List A) → Memᴰ a ys → Memᴰ a (xs ++ ys)
  Mem-append_right a [] ys m = m
  Mem-append_right a (x ∷ xs) ys m = Memᴰ.tail (Mem-append_right a xs ys m)

  pub Mem-append_cases : (a : A) (xs ys : List A) → Memᴰ a (xs ++ ys) → Memᴰ a xs ⊎ Memᴰ a ys
  Mem-append_cases a [] ys m = inr m
  Mem-append_cases a (x ∷ xs) ys (Memᴰ.head e) = inl (Memᴰ.head e)
  Mem-append_cases a (x ∷ xs) ys (Memᴰ.tail m) = elim (Mem-append_cases a xs ys m) [
    | inl k ↦ inl (Memᴰ.tail k)
    | inr k ↦ inr k
  ]

ongoing_is :
    (s : DownloadStatus) → is_ongoing s ≡ true → (d : ℕ) × (t : ℕ) × (s ≡ download_ongoing d t)
ongoing_is (download_ongoing d t) h = (d, t, refl)
ongoing_is (download_pending d t) h = absurd (cc)
ongoing_is (download_completed t r) h = absurd (cc)
ongoing_is (download_failed e) h = absurd (cc)

-- The entries of one node.
abbrev At : NodeId → List DownloadProgress → NodeId × ModelId → Type 0
At node_id dps p =
    (dp : DownloadProgress) × Memᴰ dp dps
    × (is_ongoing dp.status ≡ true)
    × (p ≡ (node_id, dp.shard_metadata.model_card.model_id))

next_holds :
    (node_id : NodeId) (dp : DownloadProgress) (dps : List DownloadProgress) (p : NodeId × ModelId)
    → At node_id dps p
    → At node_id (dp ∷ dps) p
next_holds node_id dp dps p (x, k, o, e) = (x, Memᴰ.tail k, o, e)

ongoing_at-Mem :
    (node_id : NodeId) (dps : List DownloadProgress) (p : NodeId × ModelId)
    → Memᴰ p (ongoing_at node_id dps)
    → At node_id dps p
unfolding ongoing_at
ongoing_at-Mem node_id [] p m = elim m [ ]
ongoing_at-Mem node_id (dp ∷ dps) p m = elim (Bool-cases (is_ongoing dp.status)) [
  | inl on ↦
      first on (λ k. next_holds node_id dp dps p (ongoing_at-Mem node_id dps p k)) (rw on at m)
  | inr off ↦ next_holds node_id dp dps p (ongoing_at-Mem node_id dps p (rw off at m))
]
  where
    first :
        is_ongoing dp.status ≡ true
        → (Memᴰ p (ongoing_at node_id dps) → At node_id (dp ∷ dps) p)
        → Memᴰ p ((node_id, dp.shard_metadata.model_card.model_id) ∷ ongoing_at node_id dps)
        → At node_id (dp ∷ dps) p
    first on rec (Memᴰ.head e) = (dp, Memᴰ.head refl, on, e)
    first on rec (Memᴰ.tail k) = rec k

currently_downloading-Ongoing :
    (status : Dict NodeId (List DownloadProgress)) (p : NodeId × ModelId)
    → Memᴰ p (currently_downloading status)
    → Ongoing status p.0 p.1
unfolding currently_downloading
currently_downloading-Ongoing [] p m = elim m [ ]
currently_downloading-Ongoing ((node_id, dps) ∷ status) p m =
    elim (Mem-append_cases p (ongoing_at node_id dps) (currently_downloading status) m) [
      | inl k ↦
          let (dp, member, on, e) = ongoing_at-Mem node_id dps p k in
          let (d, t, is) = ongoing_is dp.status on in
          record {
            reports = dps;
            of_node = Memᴰ.head (ap (λ (q : NodeId × ModelId). (q.0, dps)) e);
            report = dp;
            among = member;
            downloaded = d;
            total = t;
            under_way = is;
            of_model = ap (λ (q : NodeId × ModelId). q.1) (sym e);
          }
      | inr k ↦
          let o = currently_downloading-Ongoing status p k in
          record {
            reports = o.reports;
            of_node = Memᴰ.tail o.of_node;
            report = o.report;
            among = o.among;
            downloaded = o.downloaded;
            total = o.total;
            under_way = o.under_way;
            of_model = o.of_model;
          }
    ]

models_at-Mem :
    (shards : Dict RunnerId ShardMetadata) (nodes : Dict NodeId RunnerId)
    (found : List (NodeId × ModelId)) (n : NodeId) (r : RunnerId) (shard : ShardMetadata)
    → models_at shards nodes ≡ ok found
    → Memᴰ (n, r) nodes
    → get shards r ≡ some shard
    → Memᴰ (n, shard.model_card.model_id) found
unfolding models_at
models_at-Mem shards [] found n r shard h m e = elim m [ ]
models_at-Mem shards ((j, i) ∷ nodes) found n r shard h m e =
    let (x, got, h1) = chain (or_raise (get shards i) key_error) _ found h in
    let (rest, more, h2) = chain (models_at shards nodes) _ found h1 in
    subst (λ l. Memᴰ (n, shard.model_card.model_id) l) (ok-injective _ found h2)
      (here x got (λ k. models_at-Mem shards nodes rest n r shard more k e) m)
  where
    here :
        (x : ShardMetadata) {rest : List (NodeId × ModelId)}
        → or_raise (get shards i) key_error ≡ ok x
        → (Memᴰ (n, r) nodes → Memᴰ (n, shard.model_card.model_id) rest)
        → Memᴰ (n, r) ((j, i) ∷ nodes)
        → Memᴰ (n, shard.model_card.model_id) ((j, x.model_card.model_id) ∷ rest)
    here x got rec (Memᴰ.tail k) = Memᴰ.tail (rec k)
    here x got rec (Memᴰ.head p) =
        let same : r ≡ i = ap (λ (q : NodeId × RunnerId). q.1) p in
        let found_ : ok shard ≡ ok x =
          ap (λ o. or_raise o key_error) (sym e)
          ∙ ap (λ k. or_raise (get shards k) key_error) same
          ∙ got in
        let is : shard ≡ x = ok-injective shard x found_ in
        Memᴰ.head (λ k. ((p k).0, (is k).model_card.model_id))

active_models-Mem :
    (instances : Dict InstanceId Instance) (found : List (NodeId × ModelId)) (n : NodeId)
    (m : ModelId) (i : InstanceId) (instance_ : Instance) (r : RunnerId) (shard : ShardMetadata)
    → active_models instances ≡ ok found
    → Memᴰ (i, instance_) instances
    → Memᴰ (n, r) instance_.shard_assignments.node_to_runner
    → get instance_.shard_assignments.runner_to_shard r ≡ some shard
    → Memᴰ (n, shard.model_card.model_id) found
unfolding active_models
active_models-Mem [] found n m i instance_ r shard h k at e = elim k [ ]
active_models-Mem ((j, other) ∷ instances) found n m i instance_ r shard h k at e =
    let a = other.shard_assignments in
    let (here, got, h1) = chain (models_at a.runner_to_shard a.node_to_runner) _ found h in
    let (rest, more, h2) = chain (active_models instances) _ found h1 in
    subst (λ l. Memᴰ (n, shard.model_card.model_id) l) (ok-injective _ found h2)
      (step here rest got
        (λ k'. active_models-Mem instances rest n m i instance_ r shard more k' at e) k)
  where
    step :
        (here rest : List (NodeId × ModelId))
        → models_at other.shard_assignments.runner_to_shard other.shard_assignments.node_to_runner
          ≡ ok here
        → (Memᴰ (i, instance_) instances → Memᴰ (n, shard.model_card.model_id) rest)
        → Memᴰ (i, instance_) ((j, other) ∷ instances)
        → Memᴰ (n, shard.model_card.model_id) (here ++ rest)
    step here rest got rec (Memᴰ.tail k') = Mem-append_right _ here rest (rec k')
    step here rest got rec (Memᴰ.head p) =
        let same : instance_ ≡ other = ap (λ (q : InstanceId × Instance). q.1) p in
        Mem-append_left _ here rest (
          models_at-Mem other.shard_assignments.runner_to_shard
            other.shard_assignments.node_to_runner here n r shard got
            (subst (λ (x : Instance). Memᴰ (n, r) x.shard_assignments.node_to_runner) same at)
            (subst (λ (x : Instance). get x.shard_assignments.runner_to_shard r ≡ some shard) same
              e))

same_pair_refl : (p : NodeId × ModelId) → same_pair p p ≡ true
same_pair_refl p = rw (==_refl p.0, ==_refl p.1)

unnecessary-Mem :
    (active downloading : List (NodeId × ModelId)) (p : NodeId × ModelId)
    → Memᴰ p (unnecessary active downloading)
    → Memᴰ p downloading × (any_of (λ q. same_pair q p) active ≡ false)
unfolding unnecessary
unnecessary-Mem active [] p m = elim m [ ]
unnecessary-Mem active (d ∷ downloading) p m =
    elim (Bool-cases (any_of (λ q. same_pair q d) active)) [
      | inl needed ↦
          let (k, e) = unnecessary-Mem active downloading p (rw needed at m) in (Memᴰ.tail k, e)
      | inr free ↦ step free (λ k. unnecessary-Mem active downloading p k) (rw free at m)
    ]
  where
    step :
        any_of (λ q. same_pair q d) active ≡ false
        → (Memᴰ p (unnecessary active downloading)
            → Memᴰ p downloading × (any_of (λ q. same_pair q p) active ≡ false))
        → Memᴰ p (d ∷ unnecessary active downloading)
        → Memᴰ p (d ∷ downloading) × (any_of (λ q. same_pair q p) active ≡ false)
    step free rec (Memᴰ.head e) = (Memᴰ.head e, rw e free)
    step free rec (Memᴰ.tail k) = let (l, e) = rec k in (Memᴰ.tail l, e)

-- Only a download that is under way is cancelled, and only on a node where no instance runs the
-- model.
pub cancel_unnecessary_downloads-Ongoing :
    (instances : Dict InstanceId Instance) (status : Dict NodeId (List DownloadProgress))
    (cancelled : List (NodeId × ModelId)) (n : NodeId) (m : ModelId)
    → cancel_unnecessary_downloads instances status ≡ ok cancelled
    → Memᴰ (n, m) cancelled
    → Ongoing status n m × ¬ Active instances n m
unfolding cancel_unnecessary_downloads
cancel_unnecessary_downloads-Ongoing instances status cancelled n m h k =
    let (active, got, h1) = chain (active_models instances) _ cancelled h in
    let (under_way, free) =
      unnecessary-Mem active (currently_downloading status) (n, m)
        (subst (λ l. Memᴰ (n, m) l) (sym (ok-injective _ cancelled h1)) k) in
    (
      currently_downloading-Ongoing status (n, m) under_way,
      λ a. false≢true (
          sym (
            any_of-not-Mem (λ q. same_pair q (n, m)) active (n, m) free
              (subst (λ x. Memᴰ (n, x) active) a.of_model
                (active_models-Mem instances active n m a.instance_id a.instance_ a.runner_id
                  a.shard got a.of_instances a.of_node a.runs)))
          ∙ same_pair_refl (n, m)),
    )
