-- ===== src/Master/PlacementSamples.antt =====
-- The theorems on placement and on commands at concrete inputs.
use mathlib.Core.List.{Memᴰ}
use agent_setup.Base.{
  ◌≢◌, false≢true, ap, ℕ, zero, suc, ◌+◌, ◌≤◌, ◌≡◌, refl, sym, ◌∙◌, subst, true, false, none, some,
  List, [], ◌∷◌, ◌++◌, arith, length, keep_if, any_of, all_of, get_elem?, ltb, modify,
  if◌then◌else◌, inl, inr, ◌⊎◌,
}
use agent_setup.Base.Eq.{◌==◌, text_eq}
use agent_setup.Base.Seq.{sum, take, sort_down, place, list_max, arg_max}
use agent_setup.Base.Dict.{Dict, get, has, insert, without, keys, values}
use agent_setup.Base.Result.{ok, ok-injective}
use agent_setup.Types.Common.{NodeId}
use agent_setup.Types.Nodes.{MemoryUsage}
use agent_setup.Types.Workers.{
  ModelCard, ShardAssignments, ShardMetadata, Instance, InstanceId, InstanceKind, DownloadProgress,
  DownloadStatus, pipeline,
}
use agent_setup.Types.Tasks.{Task, TaskKind, TaskStatus}
use agent_setup.Types.Events.{EventKind}
use agent_setup.Types.State.{State, initial}
use agent_setup.Shared.SampleNet.{Lists, list_net, some_memory, counted, counted-injective}
use agent_setup.Master.EventProcessor.{Master, master_init}
use agent_setup.Master.Placement.Allocation.{
  bump, fill, fill_one, remainders, by_remainder, allocate_layers,
}
use agent_setup.Master.Placement.Allocation.Exact.{fractions, floors-within}
use agent_setup.Master.Placement.Shards.{
  by_pipeline, available, all_available, compute_total_memory, check_memory, assign_pipeline,
  allocate_and_validate, pure_pipeline, pipeline_parallel, get_shard_assignments,
}
use agent_setup.Master.Placement.Shards.Positions.{InOrder, NoneTwice}
use agent_setup.Master.Placement.Shards.Tiling.{Stages, Known}
use agent_setup.Master.Placement.Shards.Pipeline.{Rounds, pure_pipeline-Stages}
use agent_setup.Base.{Bool-cases, false≢true}
use agent_setup.Base.Eq.{==_eq}
use agent_setup.Master.Placement.Cycles.{
  InstanceMeta, has_memory, cycle_memory, filter_cycles_by_memory, filter_by_sharding,
  get_smallest_cycles, shortest, required_backends, supports, key_below, cycle_download_score,
  score_from, download_fraction, best_from, best_cycle,
}
use agent_setup.Master.Placement.Choice.{
  PlaceInstance, Cluster, eligible, rdma_only, prefer_leaf, select_cycle,
}
use agent_setup.Master.Placement.Choice.Suited.{Suited, select_cycle-Suited}
use agent_setup.Master.Placement.Transitions.{get_transition_events}
use agent_setup.Master.Placement.Transitions.Reached.{outcome, get_transition_events-instances}
use agent_setup.Types.Events.{GlobalForwarderEvent}
use agent_setup.Master.Placement.Transitions.{
  cancel_unnecessary_downloads, active_models, models_at, currently_downloading, ongoing_at,
  unnecessary, creations, deletions, cancellations, delete_instance,
}
use agent_setup.Master.Placement.Transitions.Downloads.{
  Ongoing, Active, cancel_unnecessary_downloads-Ongoing,
}
use agent_setup.Master.InstanceChoice.{
  least_loaded, runs_model, task_counts, count_in_flight, by_count,
}
use agent_setup.Master.InstanceChoice.Least.{Suits, InFlight, least_loaded-Least}
use agent_setup.Master.CommandProcessor.{
  Command, Commander, Draws, request_log, on_command, handle_command,
}
use agent_setup.Master.CommandProcessor.Resend.{sent_as, request_log-Resent}
use agent_setup.Master.CommandProcessor.Kept.{Sent}
use agent_setup.Master.CommandProcessor.Removed.{delete_command-removes}
use agent_setup.Master.Placement.Choice.{place_instance, build_instance, resolved, instance_kind}
use agent_setup.Master.Placement.Cycles.{Cycle}
use agent_setup.Master.Placement.Hosts.{ring_hosts, hosts_from, hosts_for, host_at}
use agent_setup.Master.CommandProcessor.{cluster_of}
use agent_setup.Master.PlanLoop.{kill_broken}
use agent_setup.Master.PlanLoop.Broken.{Carried, kill_broken_sound}
use agent_setup.Master.CommandProcessor.Placed.{place_command-adds}

abbrev card : ModelCard
card = record {
  model_id = "m";
  storage_size = 6;
  n_layers = 3;
  hidden_size = 4;
  supports_tensor = true;
  num_key_value_heads = none;
  base_model = "b";
  backends = "MlxMetal" ∷ [];
  uses_cfg = false;
  other = "";
}

abbrev big : MemoryUsage
big = record { ram_total = 32; ram_available = 16; swap_total = 0; swap_available = 0 }

abbrev memory : Dict NodeId MemoryUsage
memory = ("a", some_memory) ∷ ("b", big) ∷ []

abbrev shard_of : ℕ → ℕ → ℕ → ShardMetadata
shard_of rank start end = record {
  kind = pipeline;
  model_card = card;
  device_rank = rank;
  world_size = 2;
  start_layer = start;
  end_layer = end;
  n_layers = 3;
}

abbrev halves : ShardAssignments
halves = record {
  model_id = "m";
  runner_to_shard = (counted 0, shard_of 0 0 1) ∷ (counted 1, shard_of 1 1 3) ∷ [];
  node_to_runner = ("a", counted 0) ∷ ("b", counted 1) ∷ [];
}

rounds : (ms : List ℕ) → all_available memory ("a" ∷ "b" ∷ []) ≡ ok ms → Rounds fractions 3 ms
unfolding all_available available get sum
rounds ms h =
    let e : (8 ∷ 16 ∷ []) ≡ ms = ok-injective (8 ∷ 16 ∷ []) ms h in
    subst (Rounds fractions 3) e (
      let (low, high) = floors-within 3 (8 ∷ 16 ∷ []) (omega arith) in
      record { low = low; high = high })

halves_placed : pure_pipeline fractions counted card ("a" ∷ "b" ∷ []) memory ≡ ok halves
unfolding pure_pipeline compute_total_memory all_available available get allocate_and_validate
    allocate_layers by_remainder remainders sort_down place bump modify fill fill_one sum list_max
    arg_max check_memory assign_pipeline take insert
halves_placed = refl

two_apart : NoneTwice ("a" ∷ "b" ∷ [])
two_apart i j n p q = apart i j (at i n p) (at j n q)
  where
    at :
        (k : ℕ) (n : NodeId)
        → get_elem? ("a" ∷ "b" ∷ []) k ≡ some n
        → ((k ≡ 0) × (n ≡ "a")) ⊎ ((k ≡ 1) × (n ≡ "b"))
    at zero n h = inl (refl, cc)
    at (suc zero) n h = inr (refl, cc)
    at (suc (suc k)) n h = absurd (cc)

    differ : ◌≢◌ {A = NodeId} "a" "b"
    differ e = false≢true (ap (λ x. x == "b") e)

    apart :
        (i j : ℕ)
        → ((i ≡ 0) × (n ≡ "a")) ⊎ ((i ≡ 1) × (n ≡ "b"))
        → ((j ≡ 0) × (n ≡ "a")) ⊎ ((j ≡ 1) × (n ≡ "b"))
        → i ≡ j
    apart i j (inl (a, b)) (inl (c, d)) = a ∙ sym c
    apart i j (inl (a, b)) (inr (c, d)) = absurd (differ (sym b ∙ d))
    apart i j (inr (a, b)) (inl (c, d)) = absurd (differ (sym d ∙ b))
    apart i j (inr (a, b)) (inr (c, d)) = a ∙ sym c

pure_pipeline-Stages_example :
    (length halves.runner_to_shard ≡ 2)
    × Stages card 2 0 0 3 (values halves.runner_to_shard)
    × Known halves
    × InOrder ("a" ∷ "b" ∷ []) halves
pure_pipeline-Stages_example =
    pure_pipeline-Stages fractions counted card ("a" ∷ "b" ∷ []) memory halves counted-injective
      two_apart rounds halves_placed

-- A node of the list topology, alone in its cycle.
abbrev one_node : Cluster Lists
one_node = record {
  topology = ("a" ∷ "b" ∷ [], []);
  node_memory = memory;
  node_network = [];
  node_backends = ("b", "MlxMetal" ∷ []) ∷ ("a", "MlxMetal" ∷ []) ∷ [];
  download_status = [];
  node_rdma_ctl = [];
}

abbrev place_card : PlaceInstance
place_card = record {
  model_card = card;
  sharding = by_pipeline;
  instance_meta = InstanceMeta.mlx_ring;
  min_nodes = 1;
}

b_selected : select_cycle fractions list_net place_card [] one_node ≡ ok ("b" ∷ [])
unfolding select_cycle eligible filter_cycles_by_memory has_memory cycle_memory sum has get keep_if
    all_of any_of filter_by_sharding get_smallest_cycles shortest required_backends supports
    rdma_only prefer_leaf best_cycle best_from key_below cycle_download_score score_from
    download_fraction
b_selected = refl

select_cycle-Suited_example : Suited list_net place_card [] one_node ("b" ∷ [])
select_cycle-Suited_example =
    select_cycle-Suited fractions list_net place_card [] one_node ("b" ∷ []) b_selected

abbrev an_instance : InstanceId → ShardAssignments → Instance
an_instance i a = record {
  instance_id = i;
  shard_assignments = a;
  kind = InstanceKind.mlx_ring [] 5;
}

abbrev a_task : TaskStatus → InstanceId → Task
a_task status i = record {
  task_id = "t";
  task_status = status;
  instance_id = i;
  error_type = none;
  error_message = none;
  kind = TaskKind.load_model;
}

-- One instance, with a task that runs.
abbrev running : State Lists
running = record (initial ([], [])) {
  instances = ("i", an_instance "i" halves) ∷ [];
  tasks = ("t", a_task TaskStatus.running "i") ∷ [];
}

abbrev other_target : Dict InstanceId Instance
other_target = ("j", an_instance "j" halves) ∷ []

none_both :
    (k : InstanceId)
    → has running.instances k ≡ true
    → has other_target k ≡ true
    → get other_target k ≡ get running.instances k
unfolding has
none_both k h g = elim (Bool-cases ("i" == k)) [
  | inr other ↦ absurd (false≢true (sym (rw other) ∙ h))
  | inl same ↦
      absurd (false≢true (subst (λ x. has other_target x ≡ true) (sym (==_eq "i" k same)) g))
]

-- One instance gives way to another.
get_transition_events-instances_example :
    get
      (outcome list_net
        (get_transition_events running.instances other_target running.tasks)
        running).instances
      "i"
    ≡ get other_target "i"
unfolding has
get_transition_events-instances_example =
    get_transition_events-instances list_net running other_target (refl, tt) (refl, tt) none_both
      "i"

-- The node "b" is not connected any more.
abbrev torn : State Lists
torn = record running { topology = ("a" ∷ [], []) }

kill_broken_sound_example :
    (get (outcome list_net (kill_broken list_net torn) torn).instances "i"
        ≡ some (an_instance "i" halves)
      → (get torn.instances "i" ≡ some (an_instance "i" halves))
        × Carried ("a" ∷ []) (an_instance "i" halves))
    × ((get torn.instances "i" ≡ some (an_instance "i" halves))
          × Carried ("a" ∷ []) (an_instance "i" halves)
        → get (outcome list_net (kill_broken list_net torn) torn).instances "i"
          ≡ some (an_instance "i" halves))
unfolding has
kill_broken_sound_example = kill_broken_sound list_net torn "i" (an_instance "i" halves) (refl, tt)

-- A download on the node "a" goes on; no instance needs it.
abbrev downloading : Dict NodeId (List DownloadProgress)
downloading =
    (
      "a",
      record {
        node_id = "a";
        shard_metadata = record (shard_of 0 0 1) { model_card = record card { model_id = "x" } };
        model_directory = "d";
        status = DownloadStatus.download_ongoing 1 2;
      }
          ∷ [],
    )
    ∷ []

cancelled_x : cancel_unnecessary_downloads running.instances downloading ≡ ok (("a", "x") ∷ [])
unfolding cancel_unnecessary_downloads active_models models_at get currently_downloading ongoing_at
    unnecessary any_of
cancelled_x = refl

cancel_unnecessary_downloads-Ongoing_example :
    Ongoing downloading "a" "x" × ¬ Active running.instances "a" "x"
cancel_unnecessary_downloads-Ongoing_example =
    cancel_unnecessary_downloads-Ongoing running.instances downloading (("a", "x") ∷ []) "a" "x"
      cancelled_x (Memᴰ.head refl)

-- Of two instances the one without a task is chosen.
abbrev both : List Instance
both = an_instance "i" halves ∷ an_instance "j" halves ∷ []

j_chosen : least_loaded (runs_model "m") (a_task TaskStatus.running "i" ∷ []) both ≡ ok "j"
unfolding least_loaded task_counts count_in_flight keep_if insert keys get by_count sort_down place
j_chosen = refl

least_loaded-Least_example :
    Suits (runs_model "m") (a_task TaskStatus.running "i" ∷ []) both "j"
    × ((n : ℕ) × InFlight "j" (a_task TaskStatus.running "i" ∷ []) n
        × ((j : InstanceId) (m : ℕ)
            → Suits (runs_model "m") (a_task TaskStatus.running "i" ∷ []) both j
            → InFlight j (a_task TaskStatus.running "i" ∷ []) m
            → n ≤ m))
least_loaded-Least_example =
    least_loaded-Least (runs_model "m") (a_task TaskStatus.running "i" ∷ []) both "j" j_chosen

abbrev master_of : State Lists → Master Lists
master_of s =
    record (master_init ([], []) "m" (record { master_node_id = "m"; election_clock = 1 })) {
      state = s;
      event_log =
          record { event_id = "e0"; kind = EventKind.test_event }
          ∷ record { event_id = "e1"; kind = EventKind.test_event }
          ∷ [];
    }

request_log-Resent_example :
    (again : List GlobalForwarderEvent) × ((request_log (master_of running) 1).global_sent
      ≡ (master_of running).global_sent ++ again)
    × ((k : ℕ)
        → get_elem? again k
          ≡ sent_as
              (master_of running)
              (1 + k)
              (if ltb k 1000 then get_elem? (master_of running).event_log (1 + k) else none))
request_log-Resent_example = request_log-Resent (master_of running) 1

abbrev commander : State Lists → Commander Lists
commander s = record { master = master_of s; command_task_mapping = []; download_sent = [] }

abbrev draws : Draws
draws = record {
  task_id = "new";
  fresh = record { instance_id = "k"; runner_id = counted; port = 5 };
}

abbrev same_order : List InstanceId → List InstanceId
same_order ids = ids

abbrev after_delete : Commander Lists
after_delete = record (commander running) {
  master = record (master_of running) {
    local_sent =
        EventKind.task_status_updated "t" TaskStatus.cancelled
        ∷ EventKind.instance_deleted "i"
        ∷ [];
  };
}

deleted_i :
    on_command fractions list_net same_order false draws
      (commander running)
      "c"
      (Command.delete_command "i")
    ≡ ok after_delete
unfolding on_command handle_command delete_instance has without cancel_unnecessary_downloads
    active_models models_at get currently_downloading unnecessary get_transition_events creations
    deletions cancellations initial master_init
deleted_i = refl

delete_command-removes_example :
    (kinds : List EventKind) × Sent fractions list_net same_order false draws "c"
      (commander running)
      kinds
      after_delete
    × ((k : InstanceId)
        → get (outcome list_net kinds running).instances k
          ≡ (if "i" == k then none else get running.instances k))
unfolding has
delete_command-removes_example =
    delete_command-removes fractions list_net same_order false draws "c" (commander running)
      after_delete "i" (refl, tt) (refl, tt) deleted_i

-- A cluster of one node, with no instance.
abbrev idle : State Lists
idle = record (initial ("b" ∷ [], [])) {
  node_memory = memory;
  node_backends = ("b", "MlxMetal" ∷ []) ∷ [];
}

abbrev placed_k : Instance
placed_k = record {
  instance_id = "k";
  shard_assignments = record {
    model_id = "m";
    runner_to_shard = (counted 0, record (shard_of 0 0 3) { world_size = 1 }) ∷ [];
    node_to_runner = ("b", counted 0) ∷ [];
  };
  kind = InstanceKind.mlx_ring (("b", record { ip = "0.0.0.0"; port = 5 } ∷ []) ∷ []) 5;
}

abbrev after_place : Commander Lists
after_place = record (commander idle) {
  master = record (master_of idle) { local_sent = EventKind.instance_created placed_k ∷ [] };
}

k_placed :
    on_command fractions list_net same_order false draws
      (commander idle)
      "c"
      (Command.place_command place_card)
    ≡ ok after_place
unfolding on_command handle_command place_instance build_instance resolved instance_kind ring_hosts
    hosts_from hosts_for host_at get_shard_assignments pipeline_parallel pure_pipeline
    compute_total_memory all_available available allocate_and_validate allocate_layers by_remainder
    remainders sort_down place bump modify fill fill_one list_max arg_max check_memory
    assign_pipeline take insert select_cycle eligible filter_cycles_by_memory has_memory
    cycle_memory sum has get keep_if all_of any_of filter_by_sharding get_smallest_cycles shortest
    required_backends supports rdma_only prefer_leaf best_cycle best_from key_below
    cycle_download_score score_from download_fraction get_transition_events creations deletions
    initial master_init
k_placed = refl

place_command-adds_example :
    (after_place ≡ commander idle)
    ⊎ ((cycle : Cycle) × (placed : Instance) × (kinds : List EventKind) × Suited list_net place_card
          []
          (cluster_of idle)
          cycle
        × ((asked : PlaceInstance) × (length cycle ≡ 1
              → asked ≡ record place_card {
                sharding = by_pipeline;
                instance_meta = InstanceMeta.mlx_ring;
              })
            × (length cycle ≢ 1 → asked ≡ place_card)
            × (build_instance fractions list_net asked (cluster_of idle) draws.fresh cycle
                ≡ ok placed))
        × Sent fractions list_net same_order false draws "c" (commander idle) kinds after_place
        × ((k : InstanceId)
            → get (outcome list_net kinds idle).instances k
              ≡ (if "k" == k then some placed else get idle.instances k)))
unfolding initial get
place_command-adds_example =
    place_command-adds fractions list_net same_order false draws "c" (commander idle) after_place
      place_card tt tt refl k_placed
