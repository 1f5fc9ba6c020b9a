-- ===== src/Master/PlanLoop/Broken.antt =====
-- What a round of the plan leaves of the instances and of the nodes.
use mathlib.Core.List.{Memᴰ}
use agent_setup.Base.{
  not, any_of-Mem, any_of-not-Mem, false≢true, ◌≡◌, refl, sym, ap, ◌∙◌, Bool, true, false, Option,
  none, some, List, [], ◌∷◌, inl, inr, Bool-cases, if◌then◌else◌, arith,
}
use agent_setup.Base.Eq.{◌==◌, text_eq, ==_eq, ==_refl}
use agent_setup.Base.Dict.{keys, Dict, get, has, get-without, has-get, is_some}
use agent_setup.Types.Common.{NodeId}
use agent_setup.Types.Workers.{Instance, InstanceId}
use agent_setup.Types.Events.{EventKind}
use agent_setup.Types.State.{State}
use agent_setup.Shared.Interface.{TopologyOps}
use agent_setup.Shared.Apply.{dispatch, apply_instance_deleted}
use agent_setup.Master.Placement.Transitions.Reached.{Unique, outcome}
use agent_setup.Master.PlanLoop.{contains, is_broken, broken_from, kill_broken}

-- An instance that all its nodes still carry.
abbrev sound : List NodeId → Option Instance → Option Instance
sound connected none = none
sound connected (some i) = if is_broken connected i then none else some i

absent : (o : Option Instance) → is_some o ≡ false → o ≡ none
absent none h = refl
absent (some i) h = absurd (cc)

module _ (net : TopologyOps) (connected : List NodeId) where
  open net use {Topology}

  -- What the deletions leave: for a list of the instances that are still to be seen.
  abbrev left : Option Instance → Option Instance → Option Instance
  left none old = old
  left (some i) old = if is_broken connected i then none else old

  gone_step :
      (j : InstanceId) (i : Instance) (same : Bool) (x old : Option Instance)
      → is_broken connected i ≡ true
      → (same ≡ true → x ≡ none)
      → left x (if same then none else old) ≡ left (if same then some i else x) old
  gone_step j i same x old broken h = ground arith

  kept_step :
      (j : InstanceId) (i : Instance) (same : Bool) (x old : Option Instance)
      → is_broken connected i ≡ false
      → (same ≡ true → x ≡ none)
      → left x old ≡ left (if same then some i else x) old
  kept_step j i same x old fine h = ground arith

  absent_at :
      (j : InstanceId) (i : Instance) (d : Dict InstanceId Instance) (k : InstanceId)
      → has d j ≡ false
      → (j == k) ≡ true
      → get d k ≡ none
  absent_at j i d k new e =
      absent (get d k) (sym (has-get d k) ∙ ap (has d) (sym (==_eq j k e)) ∙ new)

  left-sound : (o : Option Instance) → left o o ≡ sound connected o
  left-sound none = refl
  left-sound (some i) = refl

  broken_from-instances :
      (d : Dict InstanceId Instance) (s : State Topology) (k : InstanceId)
      → Unique d
      → get (outcome net (broken_from connected d) s).instances k
        ≡ left (get d k) (get s.instances k)
  unfolding outcome broken_from get dispatch apply_instance_deleted
  broken_from-instances [] s k u = refl
  broken_from-instances ((j, i) ∷ d) s k u = elim (Bool-cases (is_broken connected i)) [
    | inl broken ↦ rw broken (
        broken_from-instances d (dispatch net (EventKind.instance_deleted j) s) k u.1
        ∙ ap (left (get d k)) (get-without s.instances j k)
        ∙ gone_step j i (j == k) (get d k) (get s.instances k) broken (absent_at j i d k u.0))
    | inr fine ↦ rw fine (
        broken_from-instances d s k u.1
        ∙ kept_step j i (j == k) (get d k) (get s.instances k) fine (absent_at j i d k u.0))
  ]

-- Every node of the instance is in the list.
abbrev pub Carried : List NodeId → Instance → Type 0
Carried connected i =
    (n : NodeId) → Memᴰ n (keys i.shard_assignments.node_to_runner) → Memᴰ n connected

module _ (connected : List NodeId) (i : Instance) where
  fine-Carried : is_broken connected i ≡ false → Carried connected i
  unfolding is_broken
  fine-Carried fine n m = elim (Bool-cases (contains connected n)) [
    | inl there ↦ let (x, k, e) = any_of-Mem (λ y. y == n) connected there in rw (← ==_eq x n e) k
    | inr away ↦ absurd (
        false≢true (
          sym (
            any_of-not-Mem (λ x. not (contains connected x))
              (keys i.shard_assignments.node_to_runner) n fine m)
          ∙ ap not away))
  ]

  Carried-fine : Carried connected i → is_broken connected i ≡ false
  unfolding is_broken
  Carried-fine carried = elim (Bool-cases (is_broken connected i)) [
    | inr fine ↦ fine
    | inl broken ↦
        let (n, m, away) =
          any_of-Mem (λ x. not (contains connected x)) (keys i.shard_assignments.node_to_runner)
            broken in
        absurd (lost n (any_of-not-Mem (λ y. y == n) connected n) (carried n m) away)
  ]
    where
      lost :
          (n : NodeId)
          → (contains connected n ≡ false → Memᴰ n connected → (n == n) ≡ false)
          → Memᴰ n connected
          → not (contains connected n) ≡ true
          → ⊥
      lost n none_is m away = false≢true (sym (none_is (ground arith) m) ∙ ==_refl n)

  sound_iff :
      (o : Option Instance)
      → (sound connected o ≡ some i → (o ≡ some i) × Carried connected i)
        × ((o ≡ some i) × Carried connected i → sound connected o ≡ some i)
  sound_iff none = (λ h. absurd (cc), λ h. let e = h.0 in absurd (cc))
  sound_iff (some x) = (λ h. left_of h, λ h. right_of h.0 h.1)
    where
      left_of : sound connected (some x) ≡ some i → (some x ≡ some i) × Carried connected i
      left_of h = elim (Bool-cases (is_broken connected x)) [
        | inl broken ↦ absurd (lost (rw broken at h))
        | inr fine ↦
            let e : some x ≡ some i = rw fine at h in
            let e' : x ≡ i = cc in (e, fine-Carried (rw e' at fine))
      ]
        where
          lost : ◌≡◌ {A = Option Instance} none (some i) → ⊥
          lost q = cc

      right_of : some x ≡ some i → Carried connected i → sound connected (some x) ≡ some i
      right_of e carried = let e' : x ≡ i = cc in let fine = Carried-fine carried in rw e' (rw fine)

-- After the events that the plan sends to kill broken instances, applied in order, an instance is
-- in the state exactly if it was before and the topology lists every node that it has a runner on,
-- if the state names each instance once.
pub kill_broken_sound :
    (net : TopologyOps) (s : State net.Topology) (k : InstanceId) (i : Instance)
    → Unique s.instances
    → (get (outcome net (kill_broken net s) s).instances k ≡ some i
        → (get s.instances k ≡ some i) × Carried (net.list_nodes s.topology) i)
      × ((get s.instances k ≡ some i) × Carried (net.list_nodes s.topology) i
          → get (outcome net (kill_broken net s) s).instances k ≡ some i)
unfolding kill_broken
kill_broken_sound net s k i unique =
    let connected = net.list_nodes s.topology in
    let (there, back) = sound_iff connected i (get s.instances k) in
    (λ h. there (sym remaining ∙ h), λ h. remaining ∙ back h)
  where
    remaining :
        get (outcome net (broken_from (net.list_nodes s.topology) s.instances) s).instances k
        ≡ sound (net.list_nodes s.topology) (get s.instances k)
    remaining =
        broken_from-instances net (net.list_nodes s.topology) s.instances s k unique
        ∙ left-sound net (net.list_nodes s.topology) (get s.instances k)
