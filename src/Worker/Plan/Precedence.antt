-- ===== src/Worker/Plan/Precedence.antt =====
-- Cancellations come before everything else that a worker plans.
use agent_setup.Base.{
  ℕ, ◌≡◌, ◌≢◌, refl, true, false, Option, none, some, List, [], ◌∷◌, String, ◌⊎◌, inl, inr,
  Bool-cases,
}
use mathlib.Core.List.{Memᴰ}
use agent_setup.Base.Eq.{◌==◌, text_eq, ==_refl}
use agent_setup.Base.Dict.{Dict, values}
use agent_setup.Base.Result.{Result, ok, or_else, first_some, first_some-none}
use agent_setup.Types.Common.{NodeId}
use agent_setup.Types.Workers.{
  ModelId, RunnerId, InstanceId, Instance, RunnerStatus, DownloadProgress,
}
use agent_setup.Types.Tasks.{Task, TaskId, TaskKind, CommandId, is_cancelled}
use agent_setup.Utils.KeyedBackoff.{KeyedBackoff}
use agent_setup.Worker.Plan.{
  RunnerSupervisor, Planned, new, mem, instance_of, cancel_on, cancel_one, cancel_tasks,
}
use agent_setup.Worker.Plan.Serve.{plan}

-- The planner returns a cancellation.
pub record Cancels (r : Result (Option Planned)) : Type 0 where
  pub instance_id : InstanceId
  pub task_id : TaskId
  pub runner_id : RunnerId
  pub returns : r ≡ ok (some (new instance_id (TaskKind.cancel_task task_id runner_id)))

abbrev Answer : Result (Option Planned) → Type 0
Answer r = (r ≡ ok none) ⊎ Cancels r

or_else-Answer : (r k : Result (Option Planned)) → Answer r → Answer k → Answer (or_else r k)
or_else-Answer r k (inl e) a = rw e a
or_else-Answer r k (inr c) a = inr (record {
  instance_id = c.instance_id;
  task_id = c.task_id;
  runner_id = c.runner_id;
  returns = rw c.returns refl;
})

first_some-Answer :
    {A : Type 0} (f : A → Result (Option Planned)) (xs : List A)
    → ((x : A) → Answer (f x))
    → Answer (first_some f xs)
unfolding first_some
first_some-Answer f [] all = inl refl
first_some-Answer f (x ∷ xs) all =
    or_else-Answer (f x) (first_some f xs) (all x) (first_some-Answer f xs all)

module _ (runners : Dict RunnerId RunnerSupervisor) where
  cancel_on-Answer :
      (task : Task) (p : RunnerId × RunnerSupervisor) → Answer (cancel_on runners task p)
  unfolding cancel_on
  cancel_on-Answer task (k, r) = elim (Bool-cases (task.instance_id == instance_of r)) [
    | inl own ↦ elim (Bool-cases (mem task.task_id r.cancelled)) [
      | inl done ↦ inl (rw (own, done))
      | inr open_ ↦ inr (record {
        instance_id = task.instance_id;
        task_id = task.task_id;
        runner_id = k;
        returns = rw (own, open_);
      })
    ]
    | inr other ↦ inl (rw other)
  ]

  cancel_one-Answer : (task : Task) → Answer (cancel_one runners task)
  unfolding cancel_one
  cancel_one-Answer task = elim (Bool-cases (is_cancelled task.task_status)) [
    | inl yes_ ↦
        rw yes_ (first_some-Answer (cancel_on runners task) runners (cancel_on-Answer task))
    | inr no_ ↦ inl (rw no_)
  ]

  -- A cancelled task that a runner of its instance has not cancelled yet does not pass unseen.
  cancel_tasks-missed :
      (tasks : Dict TaskId Task) (task : Task) (k : RunnerId) (r : RunnerSupervisor)
      → Memᴰ task (values tasks)
      → is_cancelled task.task_status ≡ true
      → Memᴰ (k, r) runners
      → task.instance_id ≡ instance_of r
      → mem task.task_id r.cancelled ≡ false
      → cancel_tasks runners tasks ≢ ok none
  unfolding cancel_tasks cancel_one cancel_on
  cancel_tasks-missed tasks task k r m is n own open_ h =
      let one = first_some-none (cancel_one runners) (values tasks) task h m in
      let on = first_some-none (cancel_on runners task) runners (k, r) (rw is at one) n in
      let same : (task.instance_id == instance_of r) ≡ true = rw own (==_refl (instance_of r)) in
      absurd (clash task.instance_id task.task_id k (rw (same, open_) at on))
    where
      clash :
          (i : InstanceId) (t : TaskId) (j : RunnerId)
          → ok (some (new i (TaskKind.cancel_task t j))) ≡ ok none
          → ⊥
      clash i t j e = cc

  -- As long as some task of the state is cancelled and a runner of its instance on this worker has not
  -- cancelled it, `plan` returns a cancellation, whatever else is to be done.
  pub plan-Cancels :
      (chunks : Dict CommandId (Dict ℕ String)) (cache : List String)
      (all_runners : Dict RunnerId RunnerStatus) (node_id : NodeId)
      (downloads : Dict NodeId (List DownloadProgress)) (instances : Dict InstanceId Instance)
      (tasks : Dict TaskId Task) (instance_backoff : KeyedBackoff InstanceId)
      (download_backoff : KeyedBackoff ModelId) (now : ℕ) (task : Task) (k : RunnerId)
      (r : RunnerSupervisor)
      → Memᴰ task (values tasks)
      → is_cancelled task.task_status ≡ true
      → Memᴰ (k, r) runners
      → task.instance_id ≡ instance_of r
      → mem task.task_id r.cancelled ≡ false
      → Cancels (
          plan chunks cache all_runners node_id runners downloads instances tasks instance_backoff
            download_backoff now)
  unfolding plan
  plan-Cancels chunks cache all_runners node_id downloads instances tasks ib db now task k r m is n
        own open_ =
      elim (first_some-Answer (cancel_one runners) (values tasks) cancel_one-Answer) [
        | inl missed ↦
            absurd
              (cancel_tasks-missed tasks task k r m is n own open_ (unfold cancel_tasks in missed))
        | inr c ↦
            let returns : cancel_tasks runners tasks
                ≡ ok (some (new c.instance_id (TaskKind.cancel_task c.task_id c.runner_id))) =
              unfold cancel_tasks in c.returns in
            record {
              instance_id = c.instance_id;
              task_id = c.task_id;
              runner_id = c.runner_id;
              returns = rw returns refl;
            }
      ]
