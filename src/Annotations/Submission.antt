-- ===== src/Annotations/Submission.antt =====
-- SubmitWorkspace of internal/annotations/service.go together with TransitionTask of
-- internal/tasks/service.go.
use yolo_ave_mujica.Base.{
  ℕ, pos, nat_beq, ◌≡◌, refl, inl, inr, true, false, Text, lit, text_beq, nat_key, lookup, insert,
  [], none, some, Option, arith, ok, err, and_then,
}
use yolo_ave_mujica.Jobs.Value.{Detail}
use yolo_ave_mujica.Tasks.Model
use yolo_ave_mujica.Tasks.Model.{
  Task, Status, annotation, TransitionTaskInput, normalize_status, read_status,
}
use yolo_ave_mujica.Tasks.Equality.{status_key, status_beq}
use yolo_ave_mujica.Tasks.Flow.{is_allowed_transition}
use yolo_ave_mujica.Tasks.Repository
use yolo_ave_mujica.Tasks.Service
use yolo_ave_mujica.Tasks.Transition.{transition_task_lem}
use yolo_ave_mujica.Annotations.Model.{Annotation, task}
use yolo_ave_mujica.Annotations.Repository.{
  InMemoryRepository, clone_annotation, is_submitted, handed_in, hand_in,
}
use yolo_ave_mujica.Annotations.Service.{
  ServiceState, task_service, with_repo, with_tasks, ask, normalize_actor, validate_workspace_task,
  fetch_task, workspace_task, submit, submit_task, build_workspace, submit_workspace,
}

abbrev submission : TransitionTaskInput
submission = record { status = lit "submitted"; blocker_reason = []; last_activity_at = 0 }

-- The task once it is submitted at a time.
abbrev pub submitted_task : ℕ → Task → Task
submitted_task now t = record t {
  status = Status.submitted;
  blocker_reason = [];
  last_activity_at = now;
  updated_at = now;
}

requested-submission :
    (t : Task) (now : ℕ)
    → Repository.changed (Service.settled (Service.requested t submission now)) now t
      ≡ submitted_task now t
unfolding Service.requested Service.settled Service.target_status Repository.changed
    normalize_status lit text_beq
requested-submission t now = refl

asks_submitted :
    (t : Task) (now : ℕ) → (Service.requested t submission now).status ≡ Status.submitted
unfolding Service.requested Service.target_status normalize_status lit text_beq
asks_submitted t now = refl

not_again :
    (s : Status)
    → is_allowed_transition s Status.submitted ≡ true
    → status_beq s Status.submitted ≡ false
unfolding is_allowed_transition
not_again s h = ground arith

module _ (encode : Detail → Option Detail) where
  -- The annotation and the repository after the draft is handed in.
  abbrev pub submitted_annotation : Annotation → Text → ℕ → Annotation
  submitted_annotation a actor now =
      clone_annotation encode (handed_in (normalize_actor actor) now a)

  abbrev pub submitted_repo : ℕ → InMemoryRepository → Annotation → Text → ℕ → InMemoryRepository
  submitted_repo n r a actor now = record r {
    by_task = insert n (submitted_annotation a actor now) r.by_task;
  }

module _ (encode : Detail → Option Detail) (n : ℕ) (nonzero : nat_beq n 0 ≡ false)
    (s : ServiceState) (t : Task) (at : lookup n s.tasks.by_id ≡ some t) where
  -- The task service's answer, whether the transition is in the table or not.
  transition_allowed :
      (now : ℕ) (ts : Repository.InMemoryRepository)
      → lookup n ts.by_id ≡ some t
      → is_allowed_transition t.status Status.submitted ≡ true
      → Service.transition_task (pos n) submission now ts
        ≡ ok (submitted_task now t) (record ts { by_id = insert n (submitted_task now t) ts.by_id })
  transition_allowed now ts stored allowed =
      elim (transition_task_lem n submission now ts t nonzero stored) [
        | inl (p, e) ↦ rw (requested-submission t now) at e
        | inr (no_way, x, e) ↦ absurd (
            no_way (record {
              allowed = rw (asks_submitted t now) allowed;
              reasoned = λ h.
                  let c : Status.submitted ≡ Status.blocked = rw (asks_submitted t now) at h in cc;
            }))
      ]

  transition_refused :
      (now : ℕ) (ts : Repository.InMemoryRepository)
      → lookup n ts.by_id ≡ some t
      → is_allowed_transition t.status Status.submitted ≡ false
      → (e : Model.Error) × (Service.transition_task (pos n) submission now ts ≡ err e ts)
  transition_refused now ts stored refused =
      elim (transition_task_lem n submission now ts t nonzero stored) [
        | inl (p, e) ↦ let c = rw (asks_submitted t now) at p.allowed in cc
        | inr (no_way, x, e) ↦ (x, e)
      ]

  task_stored : Repository.find_task n s.tasks ≡ ok t s.tasks
  unfolding Repository.find_task
  task_stored = rw (at, Repository.find_task) refl

  task_found : Service.get_task (pos n) s.tasks ≡ ok t s.tasks
  unfolding Service.get_task
  task_found = rw nonzero task_stored

  task_fetched :
      validate_workspace_task t ≡ none → workspace_task (some task_service) (pos n) s ≡ ok t s
  unfolding workspace_task fetch_task
  task_fetched valid = rw (nonzero, and_then, ask, task_found, with_tasks, and_then, valid) refl

  handed_in_draft :
      (a : Annotation) (actor : Text) (now : ℕ)
      → lookup n s.repo.by_task ≡ some a
      → is_submitted a.state ≡ false
      → submit encode (pos n) actor now s
        ≡ ok
            (submitted_annotation encode a actor now)
            (record s { repo = submitted_repo encode n s.repo a actor now })
  unfolding submit hand_in
  handed_in_draft a actor now found open_state =
      rw (nonzero, and_then, found, open_state, hand_in, with_repo) refl

  module _ (a : Annotation) (actor : Text) (now : ℕ) (found : lookup n s.repo.by_task ≡ some a)
      (open_state : is_submitted a.state ≡ false) (valid : validate_workspace_task t ≡ none) where
    -- Submitting the workspace of a draft whose task may go to submitted hands the draft in and moves the
    -- task.
    pub submit_workspace_lem :
        is_allowed_transition t.status Status.submitted ≡ true
        → let b = submitted_annotation encode a actor now in
          let u = submitted_task now t in
          submit_workspace encode (some task_service) (pos n) actor now s
          ≡ ok (build_workspace u b) (record {
            repo = submitted_repo encode n s.repo a actor now;
            tasks = record s.tasks { by_id = insert n u s.tasks.by_id };
          })
    unfolding submit_workspace submit_task
    submit_workspace_lem allowed =
        rw
          (
            task_fetched valid,
            and_then,
            handed_in_draft a actor now found open_state,
            and_then,
            not_again t.status allowed,
            ask,
            transition_allowed now s.tasks at allowed,
            with_tasks,
          )
          refl

    -- Submitting the workspace of a draft whose task may not go to submitted, and is not, fails, and leaves
    -- the task as it was but the draft handed in.
    pub submit_workspace_refused :
        is_allowed_transition t.status Status.submitted ≡ false
        → status_beq t.status Status.submitted ≡ false
        → (e : Model.Error) × (submit_workspace encode (some task_service) (pos n) actor now s
            ≡ err (task e) (record s { repo = submitted_repo encode n s.repo a actor now }))
    unfolding submit_workspace submit_task
    submit_workspace_refused refused elsewhere =
        let (e, answer) = transition_refused now s.tasks at refused in
        (
          e,
          rw
              (
                task_fetched valid,
                and_then,
                handed_in_draft a actor now found open_state,
                and_then,
                elsewhere,
                ask,
                answer,
                with_tasks,
              )
              refl,
        )
