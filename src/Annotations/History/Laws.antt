-- ===== src/Annotations/History/Laws.antt =====
-- Any history of calls keeps what holds of the annotations.
use yolo_ave_mujica.Base.{
  ℕ, ℤ, to_nat, not_positive, ◌≡◌, refl, inl, inr, true, false, not, Text, is_empty, lit,
  trim_space, nat_key, lookup, List, [], ◌∷◌, Option, none, some, Bool-cases, Outcome, ok, err,
  check, pass, and_then, ◌>>=◌, ◌>>◌, ◌==◌, state_of,
}
use yolo_ave_mujica.Jobs.Value.{Detail}
use yolo_ave_mujica.Tasks.Model
use yolo_ave_mujica.Tasks.Equality.{status_key}
use yolo_ave_mujica.Tasks.Repository
use yolo_ave_mujica.Annotations.Model.{Annotation, SaveDraftInput, WorkspaceDraftInput, Error}
use yolo_ave_mujica.Annotations.Repository.{
  TaskContext, InMemoryRepository, new_in_memory_repository, seed_task_context, write_draft,
  hand_in, is_submitted,
}
use yolo_ave_mujica.Annotations.Service.{
  TaskService, ServiceState, Action, on_repo, require, ask, build_workspace, with_repo, with_tasks,
  normalize_actor, normalize_draft, draft_problem, validate_workspace_task, ensure_snapshot_context,
  context_of, workspace_draft, save_draft, submit, fetch_task, workspace_task, submit_task,
  save_workspace_draft, submit_workspace, seed_context,
}
use yolo_ave_mujica.Annotations.Invariant.{Inv, After}
use yolo_ave_mujica.Annotations.Invariant.Writes.{Evolves-refl, Evolves-trans}
use yolo_ave_mujica.Annotations.Invariant.Saves.{write_draft-After, hand_in-After}
use yolo_ave_mujica.Annotations.History.{
  Call, saves, submits, saves_workspace, submits_workspace, others, step, run,
}

-- What a call leaves of the annotations, given what was there.
abbrev Keeps : {A : Type 0} → Action A → Type 0
Keeps m = (s : ServiceState) → Inv s.repo → After s.repo (state_of (m s)).repo

with_repo-Keeps :
    {A : Type 0} (s : ServiceState) (o : Outcome Error InMemoryRepository A)
    → After s.repo (state_of o)
    → After s.repo (state_of (with_repo s o)).repo
with_repo-Keeps s (ok a r) h = h
with_repo-Keeps s (err e r) h = h

with_tasks-Keeps :
    {A : Type 0} (s : ServiceState) (o : Outcome Model.Error Repository.InMemoryRepository A)
    → Inv s.repo
    → After s.repo (state_of (with_tasks s o)).repo
with_tasks-Keeps s (ok a ts) inv = (inv, Evolves-refl s.repo)
with_tasks-Keeps s (err e ts) inv = (inv, Evolves-refl s.repo)

bound :
    {A B : Type 0} (s : ServiceState) (o : Outcome Error ServiceState A) (f : A → Action B)
    → After s.repo (state_of o).repo
    → ((a : A) → Keeps (f a))
    → After s.repo (state_of (and_then o f)).repo
bound s (ok a t) f h k =
    let later = k a t h.0 in
    (later.0, Evolves-trans s.repo t.repo (state_of (f a t)).repo h.1 later.1)
bound s (err e t) f h k = h

-- Calls one after the other.
bind-Keeps :
    {A B : Type 0} (m : Action A) (f : A → Action B)
    → Keeps m
    → ((a : A) → Keeps (f a))
    → Keeps (m >>= f)
bind-Keeps m f h k s inv = bound s (m s) f (h s inv) k

check-Keeps : (o : Option Error) → Keeps (check o)
check-Keeps none s inv = (inv, Evolves-refl s.repo)
check-Keeps (some e) s inv = (inv, Evolves-refl s.repo)

seed_context-Keeps : (id : ℕ) (c : TaskContext) → Keeps (seed_context id c)
unfolding seed_task_context
seed_context-Keeps id c s inv =
    (record { sound = inv.sound; unique = inv.unique }, Evolves-refl s.repo)

normalize_actor-cons : (t : Text) → is_empty (normalize_actor t) ≡ false
unfolding normalize_actor lit
normalize_actor-cons t = elim (Bool-cases (is_empty (trim_space t))) [
  | inl e ↦ rw e refl
  | inr e ↦ rw e e
]

pass-Keeps : {A : Type 0} (a : A) → Keeps (pass {E = Error} a)
pass-Keeps a s inv = (inv, Evolves-refl s.repo)

-- The task service may do anything to the tasks.
ask-Keeps :
    {A : Type 0} (tasks : Option TaskService) (call : TaskService → Repository.Action A)
    → Keeps (ask tasks call)
ask-Keeps none call s inv = (inv, Evolves-refl s.repo)
ask-Keeps (some service) call s inv = with_tasks-Keeps s (call service s.tasks) inv

module _ (tasks : Option TaskService) where
  workspace_task-Keeps : (id : ℤ) → Keeps (workspace_task tasks id)
  unfolding workspace_task fetch_task
  workspace_task-Keeps id =
      let valid = require (not (not_positive id)) "task_id must be > 0" in
      bind-Keeps (fetch_task tasks id) (λ t. check (validate_workspace_task t) >> pass t)
        (bind-Keeps (check valid) (λ u. ask tasks (λ service. service.get_task id))
          (check-Keeps valid) (λ u. ask-Keeps tasks (λ service. service.get_task id)))
        (λ t.
          bind-Keeps (check (validate_workspace_task t)) (λ u. pass t)
            (check-Keeps (validate_workspace_task t)) (λ u. pass-Keeps t))

  submit_task-Keeps : (id : ℤ) (t : Model.Task) (now : ℕ) → Keeps (submit_task tasks id t now)
  unfolding submit_task
  submit_task-Keeps id t now s inv = elim (Bool-cases (t.status == Model.submitted)) [
    | inl e ↦ rw (e, state_of) (inv, Evolves-refl s.repo)
    | inr e ↦ rw e (ask-Keeps tasks _ s inv)
  ]

module _ (encode : Detail → Option Detail) where
  save_draft-Keeps : (i : SaveDraftInput) (now : ℕ) → Keeps (save_draft encode i now)
  unfolding save_draft
  save_draft-Keeps i now =
      bind-Keeps (check (draft_problem i))
        (λ u. on_repo (write_draft encode (normalize_draft i) now)) (check-Keeps (draft_problem i))
        (λ u t kept.
          with_repo-Keeps t (write_draft encode (normalize_draft i) now t.repo)
            (write_draft-After encode t.repo kept (normalize_draft i) now))

  submit-Keeps : (id : ℤ) (actor : Text) (now : ℕ) → Keeps (submit encode id actor now)
  unfolding submit
  submit-Keeps id actor now =
      let valid = require (not (not_positive id)) "task_id must be > 0" in
      bind-Keeps (check valid)
        (λ u. on_repo (hand_in encode (to_nat id) (normalize_actor actor) now)) (check-Keeps valid)
        (λ u t kept.
          with_repo-Keeps t (hand_in encode (to_nat id) (normalize_actor actor) now t.repo) (
            hand_in-After encode t.repo kept (to_nat id) (normalize_actor actor) now
              (normalize_actor-cons actor)))

  save_workspace_draft-Keeps :
      (tasks : Option TaskService) (id : ℤ) (i : WorkspaceDraftInput) (now : ℕ)
      → Keeps (save_workspace_draft encode tasks id i now)
  unfolding save_workspace_draft
  save_workspace_draft-Keeps tasks id i now =
      bind-Keeps (workspace_task tasks id) _ (workspace_task-Keeps tasks id) (λ t.
        bind-Keeps (check (ensure_snapshot_context t.snapshot_id)) _
          (check-Keeps (ensure_snapshot_context t.snapshot_id))
          (λ u.
            bind-Keeps (seed_context t.id (context_of t))
              (λ v. save_draft encode (workspace_draft t i) now >>= λ a. pass (build_workspace t a))
              (seed_context-Keeps t.id (context_of t))
              (λ v.
                bind-Keeps (save_draft encode (workspace_draft t i) now)
                  (λ a. pass (build_workspace t a)) (save_draft-Keeps (workspace_draft t i) now)
                  (λ a. pass-Keeps (build_workspace t a)))))

  submit_workspace-Keeps :
      (tasks : Option TaskService) (id : ℤ) (actor : Text) (now : ℕ)
      → Keeps (submit_workspace encode tasks id actor now)
  unfolding submit_workspace
  submit_workspace-Keeps tasks id actor now =
      bind-Keeps (workspace_task tasks id) _ (workspace_task-Keeps tasks id) (λ t.
        bind-Keeps (submit encode id actor now) _ (submit-Keeps id actor now) (λ a.
          bind-Keeps (submit_task tasks id t now) (λ u. pass (build_workspace u a))
            (submit_task-Keeps tasks id t now) (λ u. pass-Keeps (build_workspace u a))))

pub new_in_memory_repository-Inv : Inv new_in_memory_repository
unfolding new_in_memory_repository lookup
new_in_memory_repository-Inv = record { sound = λ k a h. cc; unique = λ j k a b p q e. cc }

module _ (encode : Detail → Option Detail) (tasks : Option TaskService) where
  step-After :
      (c : ℕ × Call) (s : ServiceState) → Inv s.repo → After s.repo (step encode tasks c s).repo
  unfolding step
  step-After (now, saves i) s = save_draft-Keeps encode i now s
  step-After (now, submits id actor) s = submit-Keeps encode id actor now s
  step-After (now, saves_workspace id i) s = save_workspace_draft-Keeps encode tasks id i now s
  step-After (now, submits_workspace id actor) s =
      submit_workspace-Keeps encode tasks id actor now s
  step-After (now, others ts) s = λ inv. (inv, Evolves-refl s.repo)

  pub run-After :
      (cs : List (ℕ × Call)) (s : ServiceState)
      → Inv s.repo
      → After s.repo (run encode tasks cs s).repo
  unfolding run
  run-After [] s inv = (inv, Evolves-refl s.repo)
  run-After (c ∷ cs) s inv =
      let now = step-After c s inv in
      let later = run-After cs (step encode tasks c s) now.0 in
      (
        later.0,
        Evolves-trans s.repo (step encode tasks c s).repo (run encode tasks (c ∷ cs) s).repo now.1
            later.1,
      )

  -- After any history of calls on a new repository every annotation is stored under its own task, no two
  -- share an id, its revision is positive, and who submitted it and when is known exactly if it is
  -- submitted.
  pub run_annotations :
      (cs : List (ℕ × Call)) (ts : Repository.InMemoryRepository)
      → Inv (run encode tasks cs (record { repo = new_in_memory_repository; tasks = ts })).repo
  run_annotations cs ts =
      (run-After cs (record { repo = new_in_memory_repository; tasks = ts })
        new_in_memory_repository-Inv).0

  -- Over any history of calls from a repository as calls leave it, a submitted annotation stays as it is.
  pub run_submitted :
      (cs : List (ℕ × Call)) (s : ServiceState) (k : ℕ) (a : Annotation)
      → Inv s.repo
      → lookup k s.repo.by_task ≡ some a
      → is_submitted a.state ≡ true
      → lookup k (run encode tasks cs s).repo.by_task ≡ some a
  run_submitted cs s k a inv at done =
      let (b, found, later) = (run-After cs s inv).1 k a at in
      elim later.revised [ inl e ↦ rw (found, e) refl | inr (o, lt) ↦ cc ]
