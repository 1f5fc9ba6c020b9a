-- ===== src/Master/Placement/Transitions/Reached.antt =====
-- What the events of a transition make of a state.
use agent_setup.Base.{
  ◌≡◌, refl, sym, ap, ◌∙◌, Bool, true, false, not, ◌&&◌, Option, none, some, List, [], ◌∷◌, ◌++◌,
  inl, inr, All, Bool-cases, if◌then◌else◌, arith, append_assoc,
}
use agent_setup.Base.Eq.{◌==◌, text_eq, ==_eq}
use agent_setup.Base.Dict.{Dict, get, has, insert, get-insert, get-without, has-get, is_some}
use agent_setup.Types.Workers.{Instance, InstanceId}
use agent_setup.Types.Tasks.{Task, TaskId, TaskStatus, in_flight}
use agent_setup.Types.Events.{EventKind}
use agent_setup.Types.State.{State}
use agent_setup.Shared.Interface.{TopologyOps}
use agent_setup.Shared.Apply.{
  dispatch, apply_instance_created, apply_instance_deleted, apply_task_status_updated,
}
use agent_setup.Master.Placement.Transitions.{
  creations, cancellations, deletions, get_transition_events,
}

-- A dictionary has each key once.
abbrev pub Unique {ℓ} : {V : Type ℓ} → Dict InstanceId V → Type 0
Unique [] = Unit {0}
Unique ((k, v) ∷ d) = (has d k ≡ false) × Unique d

-- What the target asks for under a key, where the current instances have `old`.
abbrev wanted : Bool → Option Instance → Option Instance → Option Instance
wanted true new old = old
wanted false none old = old
wanted false (some new) old = some new

stays_step :
    (same current target : Bool) (o : Option Instance)
    → (same ≡ true → target ≡ true)
    → (if current && not target then none else o)
      ≡ (if (if same then true else current) && not target then none else o)
stays_step same current target o h = ground arith

goes_step :
    (same current target : Bool) (o : Option Instance)
    → (same ≡ true → target ≡ false)
    → (if current && not target then none else (if same then none else o))
      ≡ (if (if same then true else current) && not target then none else o)
goes_step same current target o h = ground arith

wanted-none : (b : Bool) (o : Option Instance) → wanted b none o ≡ o
wanted-none true o = refl
wanted-none false o = refl

module _ (new : Instance) where
  kept_step :
      (same current : Bool) (target o : Option Instance)
      → (same ≡ true → current ≡ true)
      → wanted current target o ≡ wanted current (if same then some new else target) o
  kept_step same current target o h = ground arith

  new_step :
      (same current : Bool) (target o : Option Instance)
      → (same ≡ true → current ≡ false)
      → (same ≡ true → target ≡ none)
      → wanted current target (if same then some new else o)
        ≡ wanted current (if same then some new else target) o
  new_step same current target o h g = ground arith

absent_at : (o : Option Instance) → is_some o ≡ false → o ≡ none
absent_at none h = refl
absent_at (some i) h = absurd (cc)

settled :
    (current there : Bool) (target o : Option Instance)
    → current ≡ is_some o
    → there ≡ is_some target
    → (current ≡ true → there ≡ true → target ≡ o)
    → (if current && not there then none else wanted current target o) ≡ target
settled current there target o h g same = ground arith

module _ (net : TopologyOps) where
  open net use {Topology}

  -- A state after some events.
  unfoldable pub outcome : List EventKind → State Topology → State Topology
  outcome [] s = s
  outcome (kind ∷ kinds) s = outcome kinds (dispatch net kind s)

  pub outcome-append :
      (xs ys : List EventKind) (s : State Topology)
      → outcome (xs ++ ys) s ≡ outcome ys (outcome xs s)
  unfolding outcome
  outcome-append [] ys s = refl
  outcome-append (x ∷ xs) ys s = outcome-append xs ys (dispatch net x s)

  -- Cancelling a task leaves the instances, and the tasks under other identifiers.
  status_updated-instances :
      (task_id : TaskId) (status : TaskStatus) (s : State Topology)
      → (dispatch net (EventKind.task_status_updated task_id status) s).instances ≡ s.instances
  unfolding dispatch apply_task_status_updated
  status_updated-instances task_id status s = ground arith

  cancellations-instances :
      (instance_id : InstanceId) (tasks : Dict TaskId Task) (s : State Topology)
      → (outcome (cancellations instance_id tasks) s).instances ≡ s.instances
  unfolding outcome cancellations
  cancellations-instances instance_id [] s = refl
  cancellations-instances instance_id ((task_id, task) ∷ tasks) s =
      elim (Bool-cases (task.instance_id == instance_id && in_flight task.task_status)) [
        | inl open_ ↦ rw open_ (
            cancellations-instances instance_id tasks
              (dispatch net (EventKind.task_status_updated task.task_id TaskStatus.cancelled) s)
            ∙ status_updated-instances task.task_id TaskStatus.cancelled s)
        | inr done ↦ rw done (cancellations-instances instance_id tasks s)
      ]

  removed-instances :
      (j k : InstanceId) (tasks : Dict TaskId Task) (s : State Topology)
      → get (outcome (cancellations j tasks ++ (EventKind.instance_deleted j ∷ [])) s).instances k
        ≡ (if j == k then none else get s.instances k)
  unfolding outcome dispatch apply_instance_deleted
  removed-instances j k tasks s = rw (outcome-append, get-without, cancellations-instances)

  -- Deletions take away what is current and not wanted, and nothing else.
  deletions-instances :
      (target : Dict InstanceId Instance) (tasks : Dict TaskId Task)
      (current : Dict InstanceId Instance) (s : State Topology) (k : InstanceId)
      → get (outcome (deletions target tasks current) s).instances k
        ≡ (if has current k && not (has target k) then none else get s.instances k)
  unfolding outcome deletions has
  deletions-instances target tasks [] s k = refl
  deletions-instances target tasks ((j, instance_) ∷ current) s k =
      let same : (j == k) ≡ true → has target j ≡ has target k =
        λ e. ap (has target) (==_eq j k e) in
      elim (Bool-cases (has target j)) [
        | inl stays ↦ rw stays (
            deletions-instances target tasks current s k
            ∙ stays_step (j == k) (has current k) (has target k) (get s.instances k)
                (λ e. sym (same e) ∙ stays))
        | inr goes ↦
            let here = cancellations j tasks ++ (EventKind.instance_deleted j ∷ []) in
            rw goes (
              ap (λ (t : State Topology). get t.instances k)
                (ap (λ l. outcome l s)
                    (sym (
                      append_assoc (cancellations j tasks) (EventKind.instance_deleted j ∷ [])
                        (deletions target tasks current)))
                  ∙ outcome-append here (deletions target tasks current) s)
              ∙ deletions-instances target tasks current (outcome here s) k
              ∙ ap (λ o. if has current k && not (has target k) then none else o)
                  (removed-instances j k tasks s)
              ∙ goes_step (j == k) (has current k) (has target k) (get s.instances k)
                  (λ e. sym (same e) ∙ goes))
      ]

  -- Creations add what is wanted and not current.
  creations-instances :
      (current target : Dict InstanceId Instance) (s : State Topology) (k : InstanceId)
      → Unique target
      → All (λ (p : InstanceId × Instance). p.1.instance_id ≡ p.0) target
      → get (outcome (creations current target) s).instances k
        ≡ wanted (has current k) (get target k) (get s.instances k)
  unfolding outcome creations get has dispatch apply_instance_created
  creations-instances current [] s k unique own = sym (wanted-none (has current k) _)
  creations-instances current ((j, new) ∷ target) s k unique own =
      let here : (j == k) ≡ true → has current j ≡ has current k =
        λ e. ap (has current) (==_eq j k e) in
      elim (Bool-cases (has current j)) [
        | inl old ↦ rw old (
            creations-instances current target s k unique.1 own.1
            ∙ kept_step new (j == k) (has current k) (get target k) (get s.instances k)
                (λ e. sym (here e) ∙ old))
        | inr fresh ↦
            let absent : (j == k) ≡ true → get target k ≡ none = λ e.
              absent_at (get target k)
                (sym (has-get target k) ∙ ap (has target) (sym (==_eq j k e)) ∙ unique.0) in
            rw fresh (
              creations-instances current target
                (record s { instances = insert s.instances new.instance_id new }) k unique.1 own.1
              ∙ ap (λ o. wanted (has current k) (get target k) o)
                  (get-insert s.instances new.instance_id k new
                    ∙ ap (λ i. if i == k then some new else get s.instances k) own.0)
              ∙ new_step new (j == k) (has current k) (get target k) (get s.instances k)
                  (λ e. sym (here e) ∙ fresh) absent)
      ]

-- After the events of a transition, applied in order to a state with the current instances, the
-- state has exactly the target's instances, if the target names each once, under its own
-- identifier, and changes none that is current.
pub get_transition_events-instances :
    (net : TopologyOps) (s : State net.Topology) (target : Dict InstanceId Instance)
    → Unique target
    → All (λ (p : InstanceId × Instance). p.1.instance_id ≡ p.0) target
    → ((k : InstanceId)
        → has s.instances k ≡ true
        → has target k ≡ true
        → get target k ≡ get s.instances k)
    → (k : InstanceId)
    → get (outcome net (get_transition_events s.instances target s.tasks) s).instances k
      ≡ get target k
unfolding get_transition_events
get_transition_events-instances net s target unique own unchanged k =
    let created = outcome net (creations s.instances target) s in
    ap (λ (t : State net.Topology). get t.instances k)
      (outcome-append net (creations s.instances target) (deletions target s.tasks s.instances) s)
    ∙ deletions-instances net target s.tasks s.instances created k
    ∙ ap (λ o. if has s.instances k && not (has target k) then none else o)
        (creations-instances net s.instances target s k unique own)
    ∙ settled (has s.instances k) (has target k) (get target k) (get s.instances k)
        (has-get s.instances k) (has-get target k) (unchanged k)
