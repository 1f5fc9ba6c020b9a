-- ===== src/Master/CommandProcessor/Placed.antt =====
-- What a command to place an instance makes of the state, once its events are applied.
use agent_setup.Base.{
  length, ◌≢◌, nat_beq, arith, ◌≡◌, sym, ap, ◌∙◌, subst, Bool, true, none, some, List, [], inl, inr,
  ◌⊎◌, Bool-cases, if◌then◌else◌, false≢true,
}
use agent_setup.Base.Eq.{◌==◌, text_eq, ==_eq}
use agent_setup.Base.Dict.{Dict, get, has, insert, is_some, has-get, get-insert}
use agent_setup.Base.Result.{ok, chain, ok-injective}
use agent_setup.Types.Workers.{Instance, InstanceId}
use agent_setup.Types.Tasks.{CommandId}
use agent_setup.Types.Events.{EventKind}
use agent_setup.Types.State.{State}
use agent_setup.Shared.Interface.{TopologyOps}
use agent_setup.Master.Placement.Allocation.{Floats}
use agent_setup.Master.Placement.Choice.{
  PlaceInstance, select_cycle, build_instance, resolved, place_instance, instance_kind,
}
use agent_setup.Master.Placement.Cycles.{Cycle, InstanceMeta}
use agent_setup.Master.Placement.Choice.Suited.{Suited, select_cycle-Suited}
use agent_setup.Master.Placement.Transitions.{get_transition_events}
use agent_setup.Master.Placement.Transitions.Reached.{
  Unique, outcome, get_transition_events-instances,
}
use agent_setup.Master.CommandProcessor.{
  place_command, Commander, Draws, handle_command, on_command, cluster_of,
}
use agent_setup.Master.Placement.Shards.{Sharding, get_shard_assignments}
use agent_setup.Master.CommandProcessor.Kept.{Own, Unique-insert, Own-insert, Sent, recover_cases}

module _ (floats : Floats) (net : TopologyOps) (listing : List InstanceId → List InstanceId)
    (tracing : Bool) (draws : Draws) (command_id : CommandId) where
  open net use {Topology}

  resolved_alone :
      (command : PlaceInstance) (cycle : Cycle)
      → length cycle ≡ 1
      → resolved command cycle
        ≡ record command { sharding = Sharding.by_pipeline; instance_meta = InstanceMeta.mlx_ring }
  unfolding resolved
  resolved_alone command cycle h = rw h

  resolved_group :
      (command : PlaceInstance) (cycle : Cycle)
      → length cycle ≢ 1
      → resolved command cycle ≡ command
  unfolding resolved
  resolved_group command cycle h = elim (Bool-cases (nat_beq (length cycle) 1)) [
    | inl one ↦ absurd (h (ground arith))
    | inr more ↦ rw more
  ]

  placed_at :
      (s : State Topology) (command : PlaceInstance) (target : Dict InstanceId Instance)
      → place_instance floats net command [] (cluster_of s) s.instances draws.fresh ≡ ok target
      → (cycle : Cycle) × (placed : Instance) × (select_cycle floats net command [] (cluster_of s)
          ≡ ok cycle)
        × (build_instance floats net (resolved command cycle) (cluster_of s) draws.fresh cycle
            ≡ ok placed)
        × (insert s.instances draws.fresh.instance_id placed ≡ target)
  unfolding place_instance
  placed_at s command target h =
      let (cycle, hc, h1) = chain (select_cycle floats net command [] _) _ target h in
      let (placed, hp, h2) =
        chain (build_instance floats net (resolved command cycle) _ draws.fresh cycle) _ target
          h1 in
      (cycle, placed, hc, hp, ok-injective _ target h2)

  build_instance-id :
      (command : PlaceInstance) (s : State Topology) (cycle : Cycle) (placed : Instance)
      → build_instance floats net command (cluster_of s) draws.fresh cycle ≡ ok placed
      → placed.instance_id ≡ draws.fresh.instance_id
  unfolding build_instance
  build_instance-id command s cycle placed h =
      let (a, ha, h1) = chain (get_shard_assignments floats _ _ _ _ _) _ placed h in
      let (kind, hk, h2) = chain (instance_kind net _ _ _ _ _ _) _ placed h1 in
      ap (λ (i : Instance). i.instance_id) (sym (ok-injective _ placed h2))

  kept_by_insert :
      (d : Dict InstanceId Instance) (i k : InstanceId) (placed : Instance)
      → get d i ≡ none
      → has d k ≡ true
      → has (insert d i placed) k ≡ true
      → get (insert d i placed) k ≡ get d k
  kept_by_insert d i k placed new there h = elim (Bool-cases (i == k)) [
    | inl same ↦ absurd (
        false≢true (
          sym (has-get d k ∙ ap (λ j. is_some (get d j)) (sym (==_eq i k same)) ∙ ap is_some new)
          ∙ there))
    | inr other ↦ get-insert d i k placed ∙ (rw other)
  ]

  placed_events :
      (c d : Commander Topology) (command : PlaceInstance) (kinds : List EventKind)
      → handle_command floats net listing tracing draws c command_id (place_command command)
        ≡ ok (d, kinds)
      → (target : Dict InstanceId Instance) × (place_instance floats net command []
            (cluster_of c.master.state)
            c.master.state.instances
            draws.fresh
          ≡ ok target)
        × (d ≡ c)
        × (get_transition_events c.master.state.instances target c.master.state.tasks ≡ kinds)
  unfolding handle_command
  placed_events c d command kinds h =
      let s = c.master.state in
      let (target, ht, h1) =
        chain (place_instance floats net command [] (cluster_of s) s.instances draws.fresh) _
          (d, kinds) h in
      let e = ok-injective _ (d, kinds) h1 in
      (
        target,
        ht,
        ap (λ (p : Commander Topology × List EventKind). p.0) (sym e),
        ap (λ (p : Commander Topology × List EventKind). p.1) e,
      )

  -- A command to place an instance, when it ends and its identifier is new, has changed nothing, or
  -- has sent events after which the state has the instances that it had and one more, under the new
  -- identifier: the one built on a cycle that suits the command, as the command asks, or as a
  -- pipeline in a ring if the cycle has one node. The current instances are named once each, under
  -- their own identifiers.
  pub place_command-adds :
      (c c' : Commander Topology) (command : PlaceInstance)
      → Unique c.master.state.instances
      → Own c.master.state.instances
      → get c.master.state.instances draws.fresh.instance_id ≡ none
      → on_command floats net listing tracing draws c command_id (place_command command) ≡ ok c'
      → (c' ≡ c)
        ⊎ ((cycle : Cycle) × (placed : Instance) × (kinds : List EventKind) × Suited net command []
              (cluster_of c.master.state)
              cycle
            × ((asked : PlaceInstance) × (length cycle ≡ 1
                  → asked ≡ record command {
                    sharding = Sharding.by_pipeline;
                    instance_meta = InstanceMeta.mlx_ring;
                  })
                × (length cycle ≢ 1 → asked ≡ command)
                × (build_instance floats net asked (cluster_of c.master.state) draws.fresh cycle
                    ≡ ok placed))
            × Sent floats net listing tracing draws command_id c kinds c'
            × ((k : InstanceId)
                → get (outcome net kinds c.master.state).instances k ≡ (
                    if draws.fresh.instance_id == k
                    then some placed
                    else get c.master.state.instances k)))
  unfolding on_command
  place_command-adds c c' command unique own new h =
      elim (recover_cases floats net listing tracing draws command_id c c'
        (handle_command floats net listing tracing draws c command_id (place_command command)) h) [
          | inl (raised, same) ↦ inl same
          | inr (d, kinds, done, sent) ↦
              let s = c.master.state in
              let id = draws.fresh.instance_id in
              let (target, ht, same, are) = placed_events c d command kinds done in
              let (cycle, placed, chosen, built, is) = placed_at s command target ht in
              inr (
                cycle,
                placed,
                kinds,
                select_cycle-Suited floats net command [] (cluster_of s) cycle chosen,
                (
                  resolved command cycle,
                  resolved_alone command cycle,
                  resolved_group command cycle,
                  built,
                ),
                subst
                    (λ (x : Commander Topology).
                      Sent floats net listing tracing draws command_id x kinds c')
                    same sent,
                λ k.
                    ap (λ l. get (outcome net l s).instances k)
                      (sym are ∙ ap (λ t. get_transition_events s.instances t s.tasks) (sym is))
                    ∙ get_transition_events-instances net s (insert s.instances id placed)
                        (Unique-insert s.instances id placed unique)
                        (Own-insert s.instances id placed
                          (build_instance-id (resolved command cycle) s cycle placed built) own)
                        (λ j. kept_by_insert s.instances id j placed new) k
                    ∙ get-insert s.instances id k placed,
              )
        ]
