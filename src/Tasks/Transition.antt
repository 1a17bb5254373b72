-- ===== src/Tasks/Transition.antt =====
-- TransitionTask of internal/tasks/service.go, described without its steps.
use yolo_ave_mujica.Base.{
  ℕ, ℤ, pos, ◌≡◌, refl, ◌⊎◌, inl, inr, ◌&&◌, true, false, Bool-cases, is_empty, not_positive,
  insert, lookup, nat_key, nat_beq, some, none, ok, err, and_then, check, arith, Option-cases,
  text_key,
}
use yolo_ave_mujica.Tasks.Model.{
  Status, blocked, Task, TransitionTaskInput, Error, plain, not_found,
}
use yolo_ave_mujica.Tasks.Equality.{status_beq_iff, status_beq, status_key}
use yolo_ave_mujica.Tasks.Flow.{is_allowed_transition, allowed-is_valid_status}
use yolo_ave_mujica.Tasks.Repository.{InMemoryRepository, find_task, Change, changed, change_task}
use yolo_ave_mujica.Tasks.Service.{get_task, requested, change_refusal, settled, transition_task}

-- A change that a task may make: along the table, and to blocked only with a reason.
pub record IsPermitted (from : Status) (c : Change) : Type 0 where
  pub allowed : is_allowed_transition from c.status ≡ true
  pub reasoned : c.status ≡ blocked → is_empty c.blocker_reason ≡ false

pub change_refusal-IsPermitted :
    (from : Status) (c : Change) → change_refusal from c ≡ none → IsPermitted from c
unfolding change_refusal
change_refusal-IsPermitted from c h = record {
  allowed = ground arith;
  reasoned = λ e. ground (arith, (status_beq_iff c.status blocked).1 e);
}

IsPermitted-change_refusal :
    (from : Status) (c : Change) → IsPermitted from c → change_refusal from c ≡ none
unfolding change_refusal
IsPermitted-change_refusal from c p =
    let b : (status_beq c.status blocked && is_empty c.blocker_reason) ≡ false =
      ground (arith, status_beq_iff c.status blocked, p.reasoned) in
    rw (allowed-is_valid_status from c.status p.allowed, p.allowed, b) refl

change_task_found :
    (id : ℕ) (c : Change) (now : ℕ) (r : InMemoryRepository) (t : Task)
    → lookup id r.by_id ≡ some t
    → change_task id c now r
      ≡ ok (changed c now t) (record r { by_id = insert id (changed c now t) r.by_id })
unfolding change_task
change_task_found id c now r t at = rw (at, change_task) refl

-- On a task that is stored under a positive id TransitionTask either makes the change that is asked for, if the table has
-- it and a blocked task gets a reason, or fails and changes nothing.
pub transition_task_lem :
    (id : ℕ) (i : TransitionTaskInput) (now : ℕ) (r : InMemoryRepository) (t : Task)
    → nat_beq id 0 ≡ false
    → lookup id r.by_id ≡ some t
    → let c = requested t i now in
      let u = changed (settled c) now t in
      (IsPermitted t.status c
        × (transition_task (pos id) i now r ≡ ok u (record r { by_id = insert id u r.by_id })))
      ⊎ ((¬ IsPermitted t.status c) × (e : Error) × (transition_task (pos id) i now r ≡ err e r))
unfolding transition_task get_task find_task
transition_task_lem id i now r t nonzero at =
    elim (Option-cases (change_refusal t.status (requested t i now))) [
      | inl e ↦ inl (
        change_refusal-IsPermitted t.status (requested t i now) e,
        rw (nonzero, at, and_then, e, check)
            (change_task_found id (settled (requested t i now)) now r t at),
      )
      | inr (x, e) ↦ inr (
        (λ p. let f = IsPermitted-change_refusal t.status (requested t i now) p in cc),
        x,
        rw (nonzero, at, and_then, e, check) refl,
      )
    ]

-- On a task that is not stored it fails and changes nothing.
pub transition_task_missing :
    (id : ℕ) (i : TransitionTaskInput) (now : ℕ) (r : InMemoryRepository)
    → lookup id r.by_id ≡ none
    → (e : Error) × (transition_task (pos id) i now r ≡ err e r)
unfolding transition_task get_task find_task
transition_task_missing id i now r at = elim (Bool-cases (nat_beq id 0)) [
  | inl zero ↦ (plain "task_id must be > 0", rw (zero, and_then) refl)
  | inr nonzero ↦ (not_found, rw (nonzero, at, and_then) refl)
]

pub transition_task_zero :
    (i : TransitionTaskInput) (id : ℤ) (now : ℕ) (r : InMemoryRepository)
    → not_positive id ≡ true
    → (e : Error) × (transition_task id i now r ≡ err e r)
unfolding transition_task get_task
transition_task_zero i id now r h = (plain "task_id must be > 0", rw (h, and_then) refl)
