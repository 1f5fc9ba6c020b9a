-- ===== src/Shared/Apply/Bridges.antt =====
-- Two processes that apply the same events may list the cycles of Thunderbolt bridges differently:
-- `Topology.get_thunderbolt_bridge_cycles` numbers the nodes in the order of a Python set.
use agent_setup.Base.{ℕ, ◌≡◌, refl, ap, Option, none, some, List, [], ◌∷◌, inl, inr, Bool-cases}
use agent_setup.Base.Eq.{text_eq}
use agent_setup.Base.Int.{sub_ℕ, eqb_ℤ}
use agent_setup.Base.Dict.{Dict, get}
use agent_setup.Base.Result.{ok, raise, assertion_error, chain, ok-injective}
use agent_setup.Types.Common.{NodeId}
use agent_setup.Types.Nodes.{NetworkInterfaceInfo, ThunderboltBridgeStatus, GatheredInfo}
use agent_setup.Types.Workers.{RunnerStatus, RunnerId}
use agent_setup.Types.Tasks.{Task, TaskId}
use agent_setup.Types.Events.{Event, IndexedEvent, EventKind}
use agent_setup.Types.State.{State, initial}
use agent_setup.Shared.Interface.{TopologyOps}
use agent_setup.Shared.Apply.{
  apply_task_created, apply_task_deleted, apply_instance_created, apply_instance_deleted,
  apply_node_download_progress, apply_topology_edge_created, apply_topology_edge_deleted,
  apply_custom_model_card_added, apply_custom_model_card_deleted, apply_instance_link_created,
  apply_instance_link_deleted, with_task, apply_task_status_updated, apply_task_failed,
  apply_runner_status_updated, apply_node_timed_out, apply_node_gathered_info, dispatch,
  event_apply, apply,
}
use agent_setup.Shared.Apply.Gathered.{gathered}
use agent_setup.Shared.Apply.Order.{event_applier}

-- The states are equal but for the cycles of bridges.
abbrev pub SameButBridges : {T : Type 0} → State T → State T → Type 0
SameButBridges s s' =
    (cycles : List (List NodeId)) × (s' ≡ record s { thunderbolt_bridge_cycles = cycles })

-- A process that finds the same cycles in another order.
abbrev pub finding :
    (net : TopologyOps)
    → (net.Topology
        → Dict NodeId ThunderboltBridgeStatus
        → Dict NodeId (List NetworkInterfaceInfo)
        → List (List NodeId))
    → TopologyOps
finding net cycles = record net { get_thunderbolt_bridge_cycles = cycles }

module _ (net : TopologyOps)
    (cycles : net.Topology
      → Dict NodeId ThunderboltBridgeStatus
      → Dict NodeId (List NetworkInterfaceInfo)
      → List (List NodeId)) where
  open net use {Topology}

  abbrev pub with_cycles : State Topology → List (List NodeId) → State Topology
  with_cycles s x = record s { thunderbolt_bridge_cycles = x }

  gathered-bridges :
      (node_id : NodeId) (info : GatheredInfo) (s : State Topology) (x : List (List NodeId))
      → SameButBridges
          (gathered net node_id info s)
          (gathered (finding net cycles) node_id info (with_cycles s x))
  unfolding gathered
  gathered-bridges node_id (GatheredInfo.thunderbolt_bridge_info status) s x = (_, refl)
  gathered-bridges node_id _ s x = (x, refl)

  with_task-bridges :
      (task_id : TaskId) (update : Task → Task) (o : Option Task) (s : State Topology)
      (x : List (List NodeId))
      → SameButBridges (with_task s task_id update o) (with_task (with_cycles s x) task_id update o)
  unfolding with_task
  with_task-bridges task_id update none s x = (x, refl)
  with_task-bridges task_id update (some task) s x = (x, refl)

  runner-bridges :
      (runner_id : RunnerId) (status : RunnerStatus) (s : State Topology) (x : List (List NodeId))
      → SameButBridges
          (apply_runner_status_updated runner_id status s)
          (apply_runner_status_updated runner_id status (with_cycles s x))
  unfolding apply_runner_status_updated
  runner-bridges runner_id RunnerStatus.runner_shutdown s x = (x, refl)
  runner-bridges runner_id (RunnerStatus.runner_ready (some port)) s x = (x, refl)
  runner-bridges runner_id (RunnerStatus.runner_ready none) s x = (x, refl)
  runner-bridges runner_id _ s x = (x, refl)

  dispatch-bridges :
      (kind : EventKind) (s : State Topology) (x : List (List NodeId))
      → SameButBridges (dispatch net kind s) (dispatch (finding net cycles) kind (with_cycles s x))
  unfolding dispatch apply_node_timed_out apply_node_gathered_info apply_task_status_updated
      apply_task_failed apply_task_created apply_task_deleted apply_instance_created
      apply_instance_deleted apply_node_download_progress apply_topology_edge_created
      apply_topology_edge_deleted apply_custom_model_card_added apply_custom_model_card_deleted
      apply_instance_link_created apply_instance_link_deleted
  dispatch-bridges (EventKind.task_status_updated task_id status) s x =
      with_task-bridges task_id _ (get s.tasks task_id) s x
  dispatch-bridges (EventKind.task_failed task_id error_type message) s x =
      with_task-bridges task_id _ (get s.tasks task_id) s x
  dispatch-bridges (EventKind.runner_status_updated runner_id status) s x =
      runner-bridges runner_id status s x
  dispatch-bridges (EventKind.node_timed_out node_id) s x = (_, refl)
  dispatch-bridges (EventKind.node_gathered_info node_id when info) s x =
      gathered-bridges node_id info _ x
  dispatch-bridges _ s x = (x, refl)

  apply-bridges :
      (s s1 : State Topology) (event : IndexedEvent) (x : List (List NodeId))
      → apply net s event ≡ ok s1
      → (y : List (List NodeId)) × (apply (finding net cycles) (with_cycles s x) event
          ≡ ok (with_cycles s1 y))
  unfolding apply event_apply
  apply-bridges s s1 event x h =
      elim (Bool-cases (eqb_ℤ s.last_event_applied_idx (sub_ℕ event.idx 1))) [
        | inr wrong ↦ absurd (refused (rw wrong at h))
        | inl right ↦
            let (y, e) = dispatch-bridges event.event.kind s x in
            let e1 = ok-injective _ s1 (rw right at h) in
            (y, rw (right, e) (ap (λ t. ok (with_cycles t y)) e1))
      ]
    where
      refused : raise assertion_error ≡ ok s1 → ⊥
      refused q = cc

  event_applier-bridges :
      (events : List (ℕ × Event)) (s s1 : State Topology) (x : List (List NodeId))
      → event_applier net s events ≡ ok s1
      → (y : List (List NodeId)) × (event_applier (finding net cycles) (with_cycles s x) events
          ≡ ok (with_cycles s1 y))
  unfolding event_applier
  event_applier-bridges [] s s1 x h = (x, ap (λ t. ok (with_cycles t x)) (ok-injective s s1 h))
  event_applier-bridges ((idx, event) ∷ events) s s1 x h =
      let (t, e, rest) = chain (apply net s (record { idx = idx; event = event })) _ s1 h in
      let (y, e') = apply-bridges s t (record { idx = idx; event = event }) x e in
      let (z, rest') = event_applier-bridges events t s1 y rest in (z, rw e' rest')

  -- The events of a log, applied to a bare state by a process with its own cycles.
  pub replays-bridges :
      (events : List (ℕ × Event)) (s1 : State Topology)
      → event_applier net (initial net.empty) events ≡ ok s1
      → (y : List (List NodeId)) × (event_applier (finding net cycles) (initial net.empty) events
          ≡ ok (with_cycles s1 y))
  replays-bridges events s1 h =
      event_applier-bridges events (initial net.empty) s1
        (initial net.empty).thunderbolt_bridge_cycles h
