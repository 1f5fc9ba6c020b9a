-- ===== src/Master/PlanLoop.antt =====
-- src/exo/master/main.py, one round of `_plan`. Its two loops read the state at different moments,
-- since the first one awaits, and so are two functions of the state. Times and the timeout are in
-- microseconds; `clock` reads the time for the node at a position of the loop.
pub mod Broken
use agent_setup.Base.{ℕ, suc, ◌-◌, Bool, not, List, [], ◌∷◌, any_of, ltb, if◌then◌else◌}
use agent_setup.Base.Eq.{◌==◌, text_eq}
use agent_setup.Base.Dict.{Dict, keys}
use agent_setup.Types.Common.{NodeId}
use agent_setup.Types.Workers.{Instance, InstanceId}
use agent_setup.Types.Events.{EventKind}
use agent_setup.Types.State.{State}
use agent_setup.Shared.Interface.{TopologyOps}

abbrev pub contains : List NodeId → NodeId → Bool
contains ns n = any_of (λ m. m == n) ns

-- Some node of the instance is not connected.
unfoldable pub is_broken : List NodeId → Instance → Bool
is_broken connected i =
    any_of (λ n. not (contains connected n)) (keys i.shard_assignments.node_to_runner)

-- The loop that kills broken instances.
unfoldable pub broken_from : List NodeId → Dict InstanceId Instance → List EventKind
broken_from connected [] = []
broken_from connected ((instance_id, i) ∷ instances) =
    let rest = broken_from connected instances in
    if is_broken connected i then EventKind.instance_deleted instance_id ∷ rest else rest

-- The loop that times out dead nodes.
unfoldable pub dead_from : (ℕ → ℕ) → ℕ → ℕ → Dict NodeId ℕ → List EventKind
dead_from clock timeout i [] = []
dead_from clock timeout i ((node_id, time) ∷ seen) =
    let rest = dead_from clock timeout (suc i) seen in
    if ltb timeout (clock i - time) then EventKind.node_timed_out node_id ∷ rest else rest

module _ (net : TopologyOps) where
  open net use {Topology, list_nodes}

  unfoldable pub kill_broken : State Topology → List EventKind
  kill_broken s = broken_from (list_nodes s.topology) s.instances

  unfoldable pub time_out_dead : (ℕ → ℕ) → ℕ → State Topology → List EventKind
  time_out_dead clock timeout s = dead_from clock timeout 0 s.last_seen
