-- ===== src/Worker/Plan/Safety.antt =====
-- What holds when a planner returns a task.
use agent_setup.Base.{
  ℕ, ◌≡◌, ◌≢◌, ◌<◌, length, refl, Bool, true, false, not, ◌&&◌, ◌||◌, none, some, List, [], ◌∷◌,
  String, arith, ◌⊎◌, inl, inr, ltb, nat_beq, Bool-cases, Option-cases, if◌then◌else◌, &&-eq-true,
}
use mathlib.Core.List.{Memᴰ}
use agent_setup.Base.Eq.{text_eq, ==_eq}
use agent_setup.Base.Dict.{Dict, get, keys, values}
use agent_setup.Base.Result.{Error, Result, ok, raise, ◌>>=◌, first_some-Mem}
use agent_setup.Types.Common.{NodeId}
use agent_setup.Types.Workers.{RunnerId, RunnerStatus, DownloadProgress, ShardMetadata, bound_shard}
use agent_setup.Types.Tasks.{
  in_flight-cases, Task, TaskId, TaskStatus, TaskKind, CommandId, in_flight,
}
use agent_setup.Worker.Plan.{
  RunnerSupervisor, Planned, existing, new, is_idle, is_connected, is_loaded, may_load, is_warm,
  is_serving, mem, instance_of, all_are, others_are, all_serving,
}
use agent_setup.Worker.Plan.Setup.{
  is_single, runner_ids, load_one, load_model, warmup_one, ready_to_warmup,
}
use agent_setup.Worker.Plan.Readings.{
  Serving, Warm, LoadedOrWarm, ConnectedOn, Has, HasModel, Arrived, is_serving-Serving,
  is_warm-Warm, loaded_or_warm, may_load-ConnectedOn, is_idle-eq, is_connected-eq, is_loaded-eq,
  mem-not-Mem, all_are-Has, others_are-Has, all_downloaded-HasModel, has_inputs-Arrived,
}
use agent_setup.Worker.Plan.Serve.{has_inputs, serve_on, serve_one, pending_tasks}

is_single-length :
    (r : RunnerSupervisor)
    → is_single r ≡ true
    → length (keys r.bound_instance.instance_.shard_assignments.runner_to_shard) ≡ 1
is_single-length r h = ground arith

returned : (t p : Planned) → ok (some t) ≡ ok (some p) → p ≡ t
returned t p h = cc

nothing {ℓ} : {A : Type ℓ} (p : Planned) → ok none ≡ ok (some p) → A
nothing p h = absurd (cc)

-- The ends of the bodies, by the values of their tests.
load_cases :
    (d s c : Bool) (t p : Planned)
    → (if not d then ok none else if s then ok (some t) else if c then ok (some t) else ok none)
      ≡ ok (some p)
    → (p ≡ t) × (d ≡ true) × ((s ≡ true) ⊎ (c ≡ true))
load_cases false s c t p h = nothing p h
load_cases true true c t p h = (returned t p h, refl, inl refl)
load_cases true false true t p h = (returned t p h, refl, inr refl)
load_cases true false false t p h = nothing p h

warmup_cases :
    (l a b c d : Bool) (t p : Planned)
    → (if l && ((a && b) || (c && d)) then ok (some t) else ok none) ≡ ok (some p)
    → (p ≡ t) × (l ≡ true) × (((a ≡ true) × (b ≡ true)) ⊎ ((c ≡ true) × (d ≡ true)))
warmup_cases l a b c d t p h = elim (Bool-cases (l && ((a && b) || (c && d)))) [
  | inl yes_ ↦ (returned t p (rw yes_ at h), ground arith, ground arith)
  | inr no_ ↦ nothing p (rw no_ at h)
]

serve_cases :
    (i c s : Bool) (r : Result Bool) (t p : Planned)
    → (if not i
        then ok none
        else if c
        then ok none
        else if s
        then (r >>= λ ready. if ready then ok (some t) else ok none)
        else ok none)
      ≡ ok (some p)
    → (p ≡ t) × (i ≡ true) × (c ≡ false) × (s ≡ true) × (r ≡ ok true)
serve_cases false c s r t p h = nothing p h
serve_cases true true s r t p h = nothing p h
serve_cases true false false r t p h = nothing p h
serve_cases true false true (raise e) t p h = absurd (cc)
serve_cases true false true (ok false) t p h = nothing p h
serve_cases true false true (ok true) t p h = (returned t p h, refl, refl, refl, refl)

module _ (all_runners : Dict RunnerId RunnerStatus) where
  -- Every one of the runners is known, and is ready or running.
  abbrev pub AllServing : List RunnerId → Type 0
  AllServing ids = (id : RunnerId) → Memᴰ id ids → Has all_runners Serving id

  at_first :
      (x : RunnerId) (ids : List RunnerId) (id : RunnerId) (status : RunnerStatus)
      → get all_runners x ≡ some status
      → Serving status
      → AllServing ids
      → Memᴰ id (x ∷ ids)
      → Has all_runners Serving id
  at_first x ids id status known serves rest (Memᴰ.head e) = (status, rw e known, serves)
  at_first x ids id status known serves rest (Memᴰ.tail m) = rest id m

  all_serving-AllServing :
      (ids : List RunnerId) → all_serving all_runners ids ≡ ok true → AllServing ids
  unfolding all_serving
  all_serving-AllServing [] h id m = elim m [ ]
  all_serving-AllServing (x ∷ ids) h id m = elim (Option-cases (get all_runners x)) [
    | inl unknown ↦ absurd (ground (arith, h, unknown))
    | inr (status, known) ↦ elim (Bool-cases (is_serving status)) [
      | inl serves ↦
          at_first x ids id status known (is_serving-Serving status serves)
            (all_serving-AllServing ids (ground (arith, h, known, serves))) m
      | inr idle ↦ absurd (ground (arith, h, known, idle))
    ]
  ]

  -- A runner that may load its model: all nodes have it, and it is alone, or its whole group is
  -- connected or further.
  pub record MayLoad (downloads : Dict NodeId (List DownloadProgress)) (p : Planned)
      (r : RunnerSupervisor) : Type 0 where
    pub planned : p ≡ new r.bound_instance.instance_.instance_id TaskKind.load_model
    pub downloaded :
        (nid : NodeId)
        → Memᴰ nid (keys r.bound_instance.instance_.shard_assignments.node_to_runner)
        → HasModel downloads r.bound_instance.instance_.shard_assignments.model_id nid
    pub group :
        ((length (keys r.bound_instance.instance_.shard_assignments.runner_to_shard) ≡ 1)
          × (r.status ≡ RunnerStatus.runner_idle))
        ⊎ ((r.status ≡ RunnerStatus.runner_connected)
            × ((id : RunnerId)
                → Memᴰ id (keys r.bound_instance.instance_.shard_assignments.runner_to_shard)
                → Has all_runners ConnectedOn id))

  load_one-MayLoad :
      (downloads : Dict NodeId (List DownloadProgress)) (r : RunnerSupervisor) (p : Planned)
      → load_one all_runners downloads r ≡ ok (some p)
      → MayLoad downloads p r
  unfolding load_one
  load_one-MayLoad downloads r p h =
      let (planned, downloaded, group) = load_cases _ _ _ _ p h in
      record {
        planned = planned;
        downloaded =
            all_downloaded-HasModel downloads r.bound_instance.instance_.shard_assignments.model_id
              (keys r.bound_instance.instance_.shard_assignments.node_to_runner) downloaded;
        group = elim group [
          | inl s ↦
              let (single, idle) = &&-eq-true (is_single r) (is_idle r.status) s in
              inl (is_single-length r single, is_idle-eq r.status idle)
          | inr c ↦
              let (connected, all) =
                &&-eq-true (is_connected r.status) (all_are all_runners may_load (runner_ids r))
                  c in
              inr (
                is_connected-eq r.status connected,
                all_are-Has all_runners may_load ConnectedOn may_load-ConnectedOn (runner_ids r)
                    all,
              )
        ];
      }

  -- `_load_model` asks to load only on a runner of this worker for whose instance every node
  -- reports a completed download of the model, and that is alone and idle, or connected in a group
  -- that is all connected, loading or loaded.
  pub load_model-MayLoad :
      (downloads : Dict NodeId (List DownloadProgress)) (runners : Dict RunnerId RunnerSupervisor)
      (p : Planned)
      → load_model all_runners downloads runners ≡ ok (some p)
      → (r : RunnerSupervisor) × Memᴰ r (values runners) × MayLoad downloads p r
  unfolding load_model
  load_model-MayLoad downloads runners p h =
      let (r, m, body) = first_some-Mem (load_one all_runners downloads) (values runners) p h in
      (r, m, load_one-MayLoad downloads r p body)

  not_seen :
      (id : TaskId) (done begun : List TaskId)
      → (mem id done || mem id begun) ≡ false
      → (Memᴰ id done → ⊥) × (Memᴰ id begun → ⊥)
  not_seen id done begun h =
      (mem-not-Mem id done (ground arith), mem-not-Mem id begun (ground arith))

  -- A generation task that may run on a runner of this worker.
  pub record MayServe (chunks : Dict CommandId (Dict ℕ String)) (cache : List String) (task : Task)
      (p : Planned) (r : RunnerSupervisor) : Type 0 where
    pub planned : p ≡ existing task
    pub pending : (task.task_status ≡ TaskStatus.pending) ⊎ (task.task_status ≡ TaskStatus.running)
    pub inputs : Arrived chunks cache task.kind
    pub own : task.instance_id ≡ r.bound_instance.instance_.instance_id
    pub fresh : (Memᴰ task.task_id r.completed → ⊥) × (Memᴰ task.task_id r.in_progress → ⊥)
    pub serving : Serving r.status
    pub group : AllServing (keys r.bound_instance.instance_.shard_assignments.runner_to_shard)

  -- `_pending_tasks` returns only a task of the state that is pending or running, is a generation
  -- whose inputs have arrived (for a chat every image that it names is cached, for an edit of
  -- images no chunks are expected or as many have come), belongs to the instance of a runner of
  -- this worker that has neither completed nor started it, and finds that runner and all runners of
  -- its instance ready or running.
  pub pending_tasks-MayServe :
      (chunks : Dict CommandId (Dict ℕ String)) (cache : List String)
      (runners : Dict RunnerId RunnerSupervisor) (tasks : Dict TaskId Task) (p : Planned)
      → pending_tasks chunks cache all_runners runners tasks ≡ ok (some p)
      → (task : Task) × Memᴰ task (values tasks)
        × ((r : RunnerSupervisor) × Memᴰ r (values runners) × MayServe chunks cache task p r)
  unfolding pending_tasks serve_one serve_on
  pending_tasks-MayServe chunks cache runners tasks p h =
      let (task, m, at) =
        first_some-Mem (serve_one chunks cache all_runners runners) (values tasks) p h in
      elim (Bool-cases (in_flight task.task_status && has_inputs chunks cache task.kind)) [
        | inl open_ ↦
            let (r, n, body) =
              first_some-Mem (serve_on chunks cache all_runners task) (values runners) p
                (rw open_ at at) in
            let (planned, own, fresh, serving, group) = serve_cases _ _ _ _ _ p body in
            let (pending, inputs) = &&-eq-true _ _ open_ in
            (
              task,
              m,
              (
                r,
                n,
                record {
                  planned = planned;
                  pending = in_flight-cases task.task_status pending;
                  inputs = has_inputs-Arrived chunks cache task.kind inputs;
                  own = ==_eq task.instance_id (instance_of r) own;
                  fresh = not_seen task.task_id r.completed r.in_progress fresh;
                  serving = is_serving-Serving r.status serving;
                  group = all_serving-AllServing (runner_ids r) group;
                },
              ),
            )
        | inr closed ↦ nothing p (rw closed at at)
      ]

  -- A loaded runner that may warm up: rank 0 last, when all others have begun to; any other rank
  -- when all have loaded.
  pub record MayWarmUp (p : Planned) (r : RunnerSupervisor) : Type 0 where
    pub planned : p ≡ new r.bound_instance.instance_.instance_id TaskKind.start_warmup
    pub shard : ShardMetadata
    pub bound :
        get r.bound_instance.instance_.shard_assignments.runner_to_shard
          r.bound_instance.bound_runner_id
        ≡ some shard
    pub in_range : shard.device_rank < shard.world_size
    pub loaded : r.status ≡ RunnerStatus.runner_loaded
    pub ranks :
        ((0 < shard.device_rank)
          × ((id : RunnerId)
              → Memᴰ id (keys r.bound_instance.instance_.shard_assignments.runner_to_shard)
              → Has all_runners LoadedOrWarm id))
        ⊎ ((shard.device_rank ≡ 0)
            × ((id : RunnerId)
                → Memᴰ id (keys r.bound_instance.instance_.shard_assignments.runner_to_shard)
                → id ≢ r.bound_instance.bound_runner_id
                → Has all_runners Warm id))

  warmup_one-MayWarmUp :
      (r : RunnerSupervisor) (p : Planned) → warmup_one all_runners r ≡ ok (some p) → MayWarmUp p r
  unfolding warmup_one
  warmup_one-MayWarmUp r p h = elim (Option-cases (bound_shard r.bound_instance)) [
    | inl unbound ↦ absurd (raised _ (rw unbound at h))
    | inr (shard, bound) ↦ elim (Bool-cases (ltb shard.device_rank shard.world_size)) [
      | inl in_range ↦
          let (planned, loaded, ranks) =
            warmup_cases (is_loaded r.status) (ltb 0 shard.device_rank)
              (all_are all_runners (λ s. is_loaded s || is_warm s) (runner_ids r))
              (nat_beq shard.device_rank 0)
              (others_are all_runners r.bound_instance.bound_runner_id is_warm (runner_ids r)) _ p
              (rw (bound, in_range) at h) in
          record {
            planned = planned;
            shard = shard;
            bound = unfold bound_shard in bound;
            in_range = ground arith;
            loaded = is_loaded-eq r.status loaded;
            ranks = elim ranks [
              | inl (later, all) ↦ inl (
                ground arith,
                all_are-Has all_runners (λ s. is_loaded s || is_warm s) LoadedOrWarm loaded_or_warm
                    (runner_ids r) all,
              )
              | inr (first, others) ↦ inr (
                ground arith,
                others_are-Has all_runners is_warm Warm is_warm-Warm
                    r.bound_instance.bound_runner_id (runner_ids r) others,
              )
            ];
          }
      | inr beyond ↦ absurd (raised _ (rw (bound, beyond) at h))
    ]
  ]
    where
      raised : (e : Error) → raise e ≡ ok (some p) → ⊥
      raised e q = cc

  -- `_ready_to_warmup` asks only a loaded runner of this worker to warm up, rank 0 only when all
  -- other runners of the instance are warming up or ready, and any other rank only when all runners
  -- of the instance are loaded, warming up or ready.
  pub ready_to_warmup-MayWarmUp :
      (runners : Dict RunnerId RunnerSupervisor) (p : Planned)
      → ready_to_warmup all_runners runners ≡ ok (some p)
      → (r : RunnerSupervisor) × Memᴰ r (values runners) × MayWarmUp p r
  unfolding ready_to_warmup
  ready_to_warmup-MayWarmUp runners p h =
      let (r, m, body) = first_some-Mem (warmup_one all_runners) (values runners) p h in
      (r, m, warmup_one-MayWarmUp r p body)
