-- ===== src/Publish/History/Owners.antt =====
-- The owner's calls keep what holds of the repository.
use yolo_ave_mujica.Base.{
  ℕ, ℤ, to_nat, ◌≡◌, refl, ◌⊎◌, inl, inr, true, lit, lookup, nat_key, none, some, Option, String,
  Bool-cases, Outcome, ok, err, pass, and_then, state_of,
}
use yolo_ave_mujica.Jobs.Value.{Detail}
use yolo_ave_mujica.Tasks.Model
use yolo_ave_mujica.Tasks.Repository
use yolo_ave_mujica.Publish.Model.{Decision, approve, Batch, Record, ApprovalInput, Error, plain}
use yolo_ave_mujica.Publish.Feedback.{normalize_actor, normalize_decision_feedback}
use yolo_ave_mujica.Publish.Repository.{clone_batch}
use yolo_ave_mujica.Publish.Decisions.{apply_owner_decision}
use yolo_ave_mujica.Publish.Service.{
  ServiceState, TaskCreator, with_tasks, evaluation_task, start_evaluation, is_ready_for_owner,
  check_owner, apply_owner, owner_approve, owner_decision,
}
use yolo_ave_mujica.Publish.Invariant.{Inv}
use yolo_ave_mujica.Publish.Invariant.Writes.{Evolves-refl}
use yolo_ave_mujica.Publish.Invariant.Decided.{is_known}
use yolo_ave_mujica.Publish.Invariant.Owned.{apply_owner_decision-After}
use yolo_ave_mujica.Publish.History.Calls.{
  Keeps, with_repo-Keeps, normalize_actor-cons, clone_status, get_batch-cases,
}

with_tasks-repo :
    {A : Type 0} (s : ServiceState) (a : A)
    (o : Outcome Model.Error Repository.InMemoryRepository Model.Task)
    → (state_of (with_tasks s a o)).repo ≡ s.repo
with_tasks-repo s a (ok t ts) = refl
with_tasks-repo s a (err e ts) = refl

-- Starting the evaluation leaves the batches alone.
start_evaluation-repo :
    (creator : Option TaskCreator) (b : Batch) (now : ℕ) (x : Option Record) (s : ServiceState)
    → (state_of (start_evaluation creator b now x s)).repo ≡ s.repo
unfolding start_evaluation
start_evaluation-repo none b now x s = refl
start_evaluation-repo (some create) b now none s = refl
start_evaluation-repo (some create) b now (some x) s =
    with_tasks-repo s (some x) (create (evaluation_task b x) now s.tasks)

-- What follows a call and leaves the repository alone.
and_then-Keeps :
    {A B : Type 0} (s : ServiceState) (o : Outcome Error ServiceState A)
    (f : A → ServiceState → Outcome Error ServiceState B)
    → ((a : A) (t : ServiceState) → (state_of (f a t)).repo ≡ t.repo)
    → Keeps s o
    → Keeps s (and_then o f)
and_then-Keeps s (ok a t) f same h = rw (same a t) h
and_then-Keeps s (err e t) f same h = h

module _ (clone : Detail → Detail) where
  -- The owner's check finds a batch that is ready, or fails and changes nothing.
  pub check_owner-cases :
      (id : ℤ) (message : String) (s : ServiceState)
      → ((e : Error) × (check_owner clone id message s ≡ err e s))
        ⊎ ((b : Batch) × (lookup (to_nat id) s.repo.batches ≡ some b)
            × (is_ready_for_owner b.status ≡ true)
            × (check_owner clone id message s ≡ ok (clone_batch clone b) s))
  unfolding check_owner
  check_owner-cases id message s = elim (get_batch-cases clone id s) [
    | inl (e, h) ↦ inl (e, rw (h, and_then) refl)
    | inr (b, at, h) ↦ elim (Bool-cases (is_ready_for_owner b.status)) [
      | inl ready ↦ inr (b, at, ready, rw (h, and_then, clone_status clone b, ready) refl)
      | inr busy ↦ inl (plain message, rw (h, and_then, clone_status clone b, busy) refl)
    ]
  ]

  pub apply_owner-Keeps :
      (id : ℤ) (d : Decision) (i : ApprovalInput) (now : ℕ) (s : ServiceState) (b : Batch)
      → is_known d ≡ true
      → lookup (to_nat id) s.repo.batches ≡ some b
      → is_ready_for_owner b.status ≡ true
      → Inv s.repo
      → Keeps s (apply_owner clone id d i now s)
  unfolding apply_owner
  apply_owner-Keeps id d i now s b known at ready inv =
      let actor = normalize_actor i.actor in
      let feedback = normalize_decision_feedback i.feedback actor (lit "owner") in
      with_repo-Keeps s (apply_owner_decision clone (to_nat id) d actor feedback now s.repo) (
        apply_owner_decision-After clone s.repo inv (to_nat id) b at ready d actor feedback now
          known (normalize_actor-cons i.actor))

  pub owner_decision-Keeps :
      (id : ℤ) (d : Decision) (i : ApprovalInput) (now : ℕ) (s : ServiceState)
      → is_known d ≡ true
      → Inv s.repo
      → Keeps s (owner_decision clone id d i now s)
  unfolding owner_decision
  owner_decision-Keeps id d i now s known inv =
      elim (check_owner-cases id "batch is not ready for owner decision" s) [
        | inl (e, h) ↦ rw (h, and_then, state_of) (inv, Evolves-refl s.repo)
        | inr (b, at, ready, h) ↦
            rw (h, and_then)
              (and_then-Keeps s (apply_owner clone id d i now s) (λ x. pass tt) (λ x t. refl)
                (apply_owner-Keeps id d i now s b known at ready inv))
      ]

  pub owner_approve-Keeps :
      (creator : Option TaskCreator) (id : ℤ) (i : ApprovalInput) (now : ℕ) (s : ServiceState)
      → Inv s.repo
      → Keeps s (owner_approve clone creator id i now s)
  unfolding owner_approve
  owner_approve-Keeps creator id i now s inv =
      elim (check_owner-cases id "batch is not ready for owner approval" s) [
        | inl (e, h) ↦ rw (h, and_then, state_of) (inv, Evolves-refl s.repo)
        | inr (b, at, ready, h) ↦
            rw (h, and_then)
              (and_then-Keeps s (apply_owner clone id approve i now s)
                (start_evaluation creator (clone_batch clone b) now)
                (start_evaluation-repo creator (clone_batch clone b) now)
                (apply_owner-Keeps id approve i now s b refl at ready inv))
      ]
