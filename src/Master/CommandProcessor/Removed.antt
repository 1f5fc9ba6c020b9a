-- ===== src/Master/CommandProcessor/Removed.antt =====
-- What a command to delete an instance makes of the state, once its events are applied.
use agent_setup.Base.{
  ◌≡◌, sym, ap, ◌∙◌, Bool, false, none, List, [], ◌∷◌, ◌++◌, inl, inr, Bool-cases, if◌then◌else◌,
  arith,
}
use agent_setup.Base.Eq.{◌==◌, text_eq}
use agent_setup.Base.Dict.{Dict, get, has, without, get-without}
use agent_setup.Base.Result.{Result, ok, raise, value_error, ◌>>=◌, chain, ok-injective}
use agent_setup.Types.Workers.{Instance, InstanceId}
use agent_setup.Types.Tasks.{CommandId}
use agent_setup.Types.Events.{EventKind}
use agent_setup.Shared.Interface.{TopologyOps}
use agent_setup.Master.Placement.Allocation.{Floats}
use agent_setup.Master.Placement.Transitions.{
  delete_instance, get_transition_events, cancel_unnecessary_downloads,
}
use agent_setup.Master.Placement.Transitions.Reached.{
  Unique, outcome, get_transition_events-instances,
}
use agent_setup.Master.Placement.Transitions.{models_at, active_models}
use agent_setup.Master.Placement.Choice.Filters.{required}
use agent_setup.Types.Common.{NodeId}
use agent_setup.Types.Workers.{RunnerId, ShardMetadata, DownloadProgress, ModelId}
use agent_setup.Base.{◌≢◌, append-nil}
use agent_setup.Master.CommandProcessor.{
  delete_command, Commander, Draws, handle_command, on_command,
}
use agent_setup.Master.CommandProcessor.Kept.{
  Own, Unique-without, Own-without, absent_already, unchanged, Sent, recover_cases,
}

models_at-raises :
    (shards : Dict RunnerId ShardMetadata) (nodes : Dict NodeId RunnerId)
    → models_at shards nodes ≢ raise value_error
unfolding models_at
models_at-raises shards [] h = cc
models_at-raises shards ((n, r) ∷ nodes) h = ground (arith, models_at-raises shards nodes)

active_models-raises : (d : Dict InstanceId Instance) → active_models d ≢ raise value_error
unfolding active_models
active_models-raises [] h = cc
active_models-raises ((i, x) ∷ d) h = ground (
  arith,
  active_models-raises d,
  models_at-raises x.shard_assignments.runner_to_shard x.shard_assignments.node_to_runner,
)

-- A chain that goes on without a ValueError raises none.
not_value_error :
    {A B : Type 0} (r : Result A)
    → r ≢ raise value_error
    → (f : A → B) → (r >>= λ a. ok (f a)) ≢ raise value_error
not_value_error (ok a) h f e = cc
not_value_error (raise x) h f e = let is : x ≡ value_error = cc in h (ap raise is)

cancel-raises :
    (d : Dict InstanceId Instance) (status : Dict NodeId (List DownloadProgress))
    → cancel_unnecessary_downloads d status ≢ raise value_error
unfolding cancel_unnecessary_downloads
cancel-raises d status h = not_value_error (active_models d) (active_models-raises d) _ h

module _ (floats : Floats) (net : TopologyOps) (listing : List InstanceId → List InstanceId)
    (tracing : Bool) (draws : Draws) (command_id : CommandId) where
  open net use {Topology}

  handled :
      (c d : Commander Topology) (instance_id : InstanceId) (kinds : List EventKind)
      → handle_command floats net listing tracing draws c command_id (delete_command instance_id)
        ≡ ok (d, kinds)
      → (d.master ≡ c.master)
        × (kinds
            ≡ get_transition_events c.master.state.instances
                (without c.master.state.instances instance_id)
                c.master.state.tasks)
  unfolding handle_command delete_instance
  handled c d instance_id kinds h =
      let s = c.master.state in
      let (placement, hp, h1) = chain (delete_instance instance_id s.instances) _ (d, kinds) h in
      let (there, hq) = required _ _ placement hp in
      let (cancelled, hc, h2) =
        chain (cancel_unnecessary_downloads placement s.downloads) _ (d, kinds) h1 in
      let e = ok-injective _ (d, kinds) h2 in
      (
        ap (λ (p : Commander Topology × List EventKind). p.0.master) (sym e),
        ap (λ (p : Commander Topology × List EventKind). p.1) (sym e)
            ∙ ap (λ t. get_transition_events s.instances t s.tasks)
                (sym (ok-injective _ placement hq)),
      )

  refused :
      (c : Commander Topology) (instance_id : InstanceId)
      → handle_command floats net listing tracing draws c command_id (delete_command instance_id)
        ≡ raise value_error
      → has c.master.state.instances instance_id ≡ false
  unfolding handle_command delete_instance
  refused c instance_id h = elim (Bool-cases (has c.master.state.instances instance_id)) [
    | inr absent ↦ absent
    | inl there ↦
        let s = c.master.state in
        let target = without s.instances instance_id in
        let after : List (NodeId × ModelId) → Commander Topology × List EventKind = λ cancelled. (
          record c { download_sent = c.download_sent ++ cancelled },
          get_transition_events s.instances target s.tasks,
        ) in
        let raised : (cancel_unnecessary_downloads target s.downloads >>= λ cancelled.
        ok (after cancelled))
            ≡ raise value_error =
          rw there at h in
        absurd (
          not_value_error (cancel_unnecessary_downloads target s.downloads)
            (cancel-raises target s.downloads) after raised)
  ]

  -- A command to delete an instance, when it ends, has sent events after which the state has the
  -- instances that it had, without that one: those of a transition, or none if there was none.
  pub delete_command-removes :
      (c c' : Commander Topology) (instance_id : InstanceId)
      → Unique c.master.state.instances
      → Own c.master.state.instances
      → on_command floats net listing tracing draws c command_id (delete_command instance_id)
        ≡ ok c'
      → (kinds : List EventKind) × Sent floats net listing tracing draws command_id c kinds c'
        × ((k : InstanceId)
            → get (outcome net kinds c.master.state).instances k
              ≡ (if instance_id == k then none else get c.master.state.instances k))
  unfolding on_command
  delete_command-removes c c' instance_id unique own h =
      elim (recover_cases floats net listing tracing draws command_id c c'
        (handle_command floats net listing tracing draws c command_id (delete_command instance_id))
        h) [
          | inl (raised, same) ↦ (
            [],
            rw (same, append-nil),
            λ k.
                unfold outcome in
                absent_already c.master.state.instances instance_id k
                  (refused c instance_id raised),
          )
          | inr (d, kinds, done, sent) ↦
              let (master, are) = handled c d instance_id kinds done in
              (
                kinds,
                rw (← master) sent,
                λ k.
                    ap (λ l. get (outcome net l c.master.state).instances k) are
                    ∙ get_transition_events-instances net c.master.state
                        (without c.master.state.instances instance_id)
                        (Unique-without c.master.state.instances instance_id unique)
                        (Own-without c.master.state.instances instance_id own)
                        (unchanged c.master.state.instances instance_id) k
                    ∙ get-without c.master.state.instances instance_id k,
              )
        ]
