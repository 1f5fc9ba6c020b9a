-- ===== src/Shared/Apply/Preserve.antt =====
-- Every event keeps the state well-formed.
use agent_setup.Base.{
  ℕ, ◌≡◌, refl, true, Option, none, some, List, [], ◌∷◌, Bool-cases, inl, inr, subst,
}
use agent_setup.Base.Eq.{text_eq}
use agent_setup.Base.Dict.{get, insert, is_some}
use agent_setup.Base.Int.{pos, sub_ℕ, eqb_ℤ}
use agent_setup.Base.Result.{Result, ok, raise, assertion_error, ok-injective, ◌>>=◌}
use agent_setup.Types.Tasks.{Task, TaskId}
use agent_setup.Shared.Apply.Order.{event_applier}
use agent_setup.Types.Common.{NodeId}
use agent_setup.Types.Workers.{RunnerId, RunnerStatus, Instance}
use agent_setup.Types.Nodes.{GatheredInfo}
use agent_setup.Types.Events.{Event, EventKind, IndexedEvent}
use agent_setup.Types.State.{State, initial}
use agent_setup.Shared.Interface.{TopologyOps}
use agent_setup.Shared.Apply.{
  dispatch, event_apply, apply_runner_status_updated, apply_instance_created,
  apply_instance_deleted, apply_node_download_progress, apply_node_timed_out,
  apply_node_gathered_info, with_task, apply_task_created, apply_task_deleted,
  apply_task_status_updated, apply_task_failed, apply_topology_edge_created,
  apply_topology_edge_deleted, apply_custom_model_card_added, apply_custom_model_card_deleted,
  apply_instance_link_created, apply_instance_link_deleted, apply,
}
use agent_setup.Shared.Apply.Gathered.{gathered}
use agent_setup.Shared.Apply.WellFormed.{
  Within, Within-insert_right, Within-insert_left, Within-without, is_some-insert, Downloads,
  Downloads-progress, Downloads-without, Keyed, Keyed-insert, Keyed-without,
}

module _ {T : Type 0} where
  -- Only nodes that were heard of, and have not timed out since, have these readings. Identities and
  -- backends are kept when a node times out, and are not among them.
  abbrev pub Reported : State T → Type 0
  Reported s =
      Within s.node_memory s.last_seen
      × Within s.node_disk s.last_seen
      × Within s.node_system s.last_seen
      × Within s.node_network s.last_seen
      × Within s.node_thunderbolt s.last_seen
      × Within s.node_thunderbolt_bridge s.last_seen
      × Within s.node_rdma_ctl s.last_seen

  -- Only runners that exist have a prefill port, an instance stands under its own identifier, and a
  -- node's downloads are its own, at most one for a model.
  abbrev pub WellFormed : State T → Type 0
  WellFormed s =
      Within s.prefill_server_ports s.runners
      × Keyed s.instances
      × Downloads s.downloads
      × Reported s

  runner-WellFormed :
      (runner_id : RunnerId) (status : RunnerStatus) (s : State T)
      → WellFormed s
      → WellFormed (apply_runner_status_updated runner_id status s)
  unfolding apply_runner_status_updated
  runner-WellFormed r RunnerStatus.runner_shutdown s (p, i, d, n) =
      (Within-without s.prefill_server_ports s.runners r p, i, d, n)
  runner-WellFormed r (RunnerStatus.runner_ready (some port)) s (p, i, d, n) =
      let runners = insert s.runners r (RunnerStatus.runner_ready (some port)) in
      (
        Within-insert_left s.prefill_server_ports runners r port
            (is_some-insert s.runners r (RunnerStatus.runner_ready (some port)))
            (Within-insert_right s.prefill_server_ports s.runners r _ p),
        i,
        d,
        n,
      )
  runner-WellFormed r (RunnerStatus.runner_ready none) s (p, i, d, n) =
      (Within-insert_right s.prefill_server_ports s.runners r _ p, i, d, n)
  runner-WellFormed r RunnerStatus.runner_idle s (p, i, d, n) =
      (Within-insert_right s.prefill_server_ports s.runners r _ p, i, d, n)
  runner-WellFormed r RunnerStatus.runner_connecting s (p, i, d, n) =
      (Within-insert_right s.prefill_server_ports s.runners r _ p, i, d, n)
  runner-WellFormed r RunnerStatus.runner_connected s (p, i, d, n) =
      (Within-insert_right s.prefill_server_ports s.runners r _ p, i, d, n)
  runner-WellFormed r (RunnerStatus.runner_loading a b) s (p, i, d, n) =
      (Within-insert_right s.prefill_server_ports s.runners r _ p, i, d, n)
  runner-WellFormed r RunnerStatus.runner_loaded s (p, i, d, n) =
      (Within-insert_right s.prefill_server_ports s.runners r _ p, i, d, n)
  runner-WellFormed r RunnerStatus.runner_warming_up s (p, i, d, n) =
      (Within-insert_right s.prefill_server_ports s.runners r _ p, i, d, n)
  runner-WellFormed r RunnerStatus.runner_running s (p, i, d, n) =
      (Within-insert_right s.prefill_server_ports s.runners r _ p, i, d, n)
  runner-WellFormed r RunnerStatus.runner_shutting_down s (p, i, d, n) =
      (Within-insert_right s.prefill_server_ports s.runners r _ p, i, d, n)
  runner-WellFormed r (RunnerStatus.runner_failed x) s (p, i, d, n) =
      (Within-insert_right s.prefill_server_ports s.runners r _ p, i, d, n)

  task-WellFormed :
      (s : State T) (task_id : TaskId) (update : Task → Task) (found : Option Task)
      → WellFormed s
      → WellFormed (with_task s task_id update found)
  unfolding with_task
  task-WellFormed s task_id update none all = all
  task-WellFormed s task_id update (some task) all = all

module _ (net : TopologyOps) where
  open net use {Topology, empty as bare}

  gathered-WellFormed :
      (node_id : NodeId) (info : GatheredInfo) (s : State Topology)
      → is_some (get s.last_seen node_id) ≡ true
      → WellFormed s
      → WellFormed (gathered net node_id info s)
  unfolding gathered
  gathered-WellFormed n (GatheredInfo.macmon_metrics profile memory) s h
        (p, i, d, (m, k, y, w, t, b, r)) =
      (
        p,
        i,
        d,
        (
          Within-insert_left s.node_memory s.last_seen n memory h m,
          k,
          Within-insert_left s.node_system s.last_seen n profile h y,
          w,
          t,
          b,
          r,
        ),
      )
  gathered-WellFormed n (GatheredInfo.memory_usage memory) s h (p, i, d, (m, k, y, w, t, b, r)) =
      (p, i, d, (Within-insert_left s.node_memory s.last_seen n memory h m, k, y, w, t, b, r))
  gathered-WellFormed n (GatheredInfo.node_disk_usage usage) s h (p, i, d, (m, k, y, w, t, b, r)) =
      (p, i, d, (m, Within-insert_left s.node_disk s.last_seen n usage h k, y, w, t, b, r))
  gathered-WellFormed n GatheredInfo.node_config s h all = all
  gathered-WellFormed n (GatheredInfo.misc_data name) s h all = all
  gathered-WellFormed n (GatheredInfo.static_node_information a b c x) s h all = all
  gathered-WellFormed n (GatheredInfo.node_network_interfaces ifaces) s h
        (p, i, d, (m, k, y, w, t, b, r)) =
      (p, i, d, (m, k, y, Within-insert_left s.node_network s.last_seen n ifaces h w, t, b, r))
  gathered-WellFormed n (GatheredInfo.mac_thunderbolt_identifiers ids) s h
        (p, i, d, (m, k, y, w, t, b, r)) =
      (p, i, d, (m, k, y, w, Within-insert_left s.node_thunderbolt s.last_seen n ids h t, b, r))
  gathered-WellFormed n (GatheredInfo.mac_thunderbolt_connections conns) s h all = all
  gathered-WellFormed n (GatheredInfo.thunderbolt_bridge_info status) s h
        (p, i, d, (m, k, y, w, t, b, r)) =
      (
        p,
        i,
        d,
        (m, k, y, w, t, Within-insert_left s.node_thunderbolt_bridge s.last_seen n status h b, r),
      )
  gathered-WellFormed n (GatheredInfo.rdma_ctl_status on) s h (p, i, d, (m, k, y, w, t, b, r)) =
      (p, i, d, (m, k, y, w, t, b, Within-insert_left s.node_rdma_ctl s.last_seen n on h r))
  gathered-WellFormed n (GatheredInfo.node_backends backends) s h all = all

  seen-WellFormed :
      (node_id : NodeId) (when : ℕ) (s : State Topology)
      → WellFormed s
      → WellFormed (record s { last_seen = insert s.last_seen node_id when })
  seen-WellFormed n when s (p, i, d, (m, k, y, w, t, b, r)) = (
    p,
    i,
    d,
    (
      Within-insert_right s.node_memory s.last_seen n when m,
      Within-insert_right s.node_disk s.last_seen n when k,
      Within-insert_right s.node_system s.last_seen n when y,
      Within-insert_right s.node_network s.last_seen n when w,
      Within-insert_right s.node_thunderbolt s.last_seen n when t,
      Within-insert_right s.node_thunderbolt_bridge s.last_seen n when b,
      Within-insert_right s.node_rdma_ctl s.last_seen n when r,
    ),
  )

  timed_out-WellFormed :
      (node_id : NodeId) (s : State Topology)
      → WellFormed s
      → WellFormed (apply_node_timed_out net node_id s)
  unfolding apply_node_timed_out
  timed_out-WellFormed n s (p, i, d, (m, k, y, w, t, b, r)) = (
    p,
    i,
    Downloads-without s.downloads n d,
    (
      Within-without s.node_memory s.last_seen n m,
      Within-without s.node_disk s.last_seen n k,
      Within-without s.node_system s.last_seen n y,
      Within-without s.node_network s.last_seen n w,
      Within-without s.node_thunderbolt s.last_seen n t,
      Within-without s.node_thunderbolt_bridge s.last_seen n b,
      Within-without s.node_rdma_ctl s.last_seen n r,
    ),
  )

  dispatch-WellFormed :
      (kind : EventKind) (s : State Topology) → WellFormed s → WellFormed (dispatch net kind s)
  unfolding dispatch
  dispatch-WellFormed EventKind.test_event s all = all
  dispatch-WellFormed (EventKind.task_created task_id task) s all = unfold apply_task_created in all
  dispatch-WellFormed (EventKind.task_acknowledged task_id) s all = all
  dispatch-WellFormed (EventKind.task_deleted task_id) s all = unfold apply_task_deleted in all
  dispatch-WellFormed (EventKind.task_status_updated task_id status) s all =
      unfold apply_task_status_updated in task-WellFormed s task_id _ (get s.tasks task_id) all
  dispatch-WellFormed (EventKind.task_failed task_id error_type message) s all =
      unfold apply_task_failed in task-WellFormed s task_id _ (get s.tasks task_id) all
  dispatch-WellFormed (EventKind.instance_created instance_) s (p, i, d, n) =
      unfold apply_instance_created in (p, Keyed-insert s.instances instance_ i, d, n)
  dispatch-WellFormed (EventKind.instance_deleted instance_id) s (p, i, d, n) =
      unfold apply_instance_deleted in (p, Keyed-without s.instances instance_id i, d, n)
  dispatch-WellFormed (EventKind.runner_status_updated runner_id status) s all =
      runner-WellFormed runner_id status s all
  dispatch-WellFormed (EventKind.node_timed_out node_id) s all = timed_out-WellFormed node_id s all
  dispatch-WellFormed (EventKind.node_gathered_info node_id when info) s all =
      unfold apply_node_gathered_info in
      gathered-WellFormed node_id info _ (is_some-insert s.last_seen node_id when)
        (seen-WellFormed node_id when s all)
  dispatch-WellFormed (EventKind.node_download_progress dp) s (p, i, d, n) =
      unfold apply_node_download_progress in (p, i, Downloads-progress s.downloads dp d, n)
  dispatch-WellFormed (EventKind.chunk_generated command_id chunk) s all = all
  dispatch-WellFormed (EventKind.input_chunk_received command_id chunk) s all = all
  dispatch-WellFormed (EventKind.topology_edge_created conn) s all =
      unfold apply_topology_edge_created in all
  dispatch-WellFormed (EventKind.topology_edge_deleted conn) s all =
      unfold apply_topology_edge_deleted in all
  dispatch-WellFormed (EventKind.custom_model_card_added card) s all =
      unfold apply_custom_model_card_added in all
  dispatch-WellFormed (EventKind.custom_model_card_deleted model_id) s all =
      unfold apply_custom_model_card_deleted in all
  dispatch-WellFormed (EventKind.traces_collected task_id rank traces) s all = all
  dispatch-WellFormed (EventKind.traces_merged task_id traces) s all = all
  dispatch-WellFormed (EventKind.instance_link_created link) s all =
      unfold apply_instance_link_created in all
  dispatch-WellFormed (EventKind.instance_link_deleted link_id) s all =
      unfold apply_instance_link_deleted in all

  apply-WellFormed :
      (s s' : State Topology) (event : IndexedEvent)
      → WellFormed s
      → apply net s event ≡ ok s'
      → WellFormed s'
  unfolding apply event_apply
  apply-WellFormed s s' event all h =
      elim (Bool-cases (eqb_ℤ s.last_event_applied_idx (sub_ℕ event.idx 1))) [
        | inl next ↦
            let after : State Topology = record (dispatch net event.event.kind s) {
              last_event_applied_idx = pos event.idx;
            } in
            let same : after ≡ s' = ok-injective after s' (rw next at h) in
            subst WellFormed same (dispatch-WellFormed event.event.kind s all)
        | inr gap ↦ absurd (raised (rw gap at h))
      ]
    where
      raised : raise assertion_error ≡ ok s' → ⊥
      raised e = cc

  start-WellFormed : WellFormed (initial bare)
  unfolding initial get
  start-WellFormed = (
    λ k h. h,
    λ k i h. absurd (not_there i h),
    λ n. (tt, tt),
    (λ k h. h, λ k h. h, λ k h. h, λ k h. h, λ k h. h, λ k h. h, λ k h. h),
  )
    where
      not_there : (i : Instance) → none ≡ some i → ⊥
      not_there i e = cc

  all_applied-WellFormed :
      (events : List (ℕ × Event)) (s s' : State Topology)
      → WellFormed s
      → event_applier net s events ≡ ok s'
      → WellFormed s'
  unfolding event_applier
  all_applied-WellFormed [] s s' all h = subst WellFormed (ok-injective s s' h) all
  all_applied-WellFormed ((idx, event) ∷ events) s s' all h =
      onward (apply net s indexed_event) refl h (all_applied-WellFormed events)
    where
      indexed_event : IndexedEvent
      indexed_event = record { idx = idx; event = event }

      onward :
          (r : Result (State Topology))
          → apply net s indexed_event ≡ r
          → (r >>= λ t. event_applier net t events) ≡ ok s'
          → ((t u : State Topology)
              → WellFormed t
              → event_applier net t events ≡ ok u
              → WellFormed u)
          → WellFormed s'
      onward (ok t) applied rest rec =
          rec t s' (apply-WellFormed s t indexed_event all applied) rest
      onward (raise e) applied rest rec = absurd (cc)

  -- Whatever events a node has applied from the start, in its state only existing runners have a
  -- prefill port, every instance stands under its own identifier, a node's downloads are its own
  -- with at most one entry for a model, and only nodes heard of and not timed out since have
  -- readings of memory, disk, system, network, Thunderbolt identifiers, the Thunderbolt bridge or
  -- RDMA control. Nothing is said of identities and backends, which a node that times out keeps.
  pub event_applier-WellFormed :
      (events : List (ℕ × Event)) (s : State Topology)
      → event_applier net (initial bare) events ≡ ok s
      → WellFormed s
  event_applier-WellFormed events s h =
      all_applied-WellFormed events (initial bare) s start-WellFormed h
