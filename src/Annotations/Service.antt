-- ===== src/Annotations/Service.antt =====
-- The Service of internal/annotations/service.go over the in-memory repository. The task service is an
-- interface; internal/tasks/service.go implements it.
use yolo_ave_mujica.Base.{
  ℕ, ℤ, pos, not_positive, is_negative, to_nat, nat_beq, Bool, true, false, not, if◌then◌else◌,
  ◌==◌, Text, text_key, is_empty, lit, trim_space, List, [], ◌∷◌, Option, none, some, String,
  Outcome, ok, err, check, pass, ◌>>=◌, ◌>>◌,
}
use yolo_ave_mujica.Jobs.Value.{Detail}
use yolo_ave_mujica.Tasks.Model
use yolo_ave_mujica.Tasks.Equality.{status_key, kind_key}
use yolo_ave_mujica.Tasks.Repository
use yolo_ave_mujica.Tasks.Service
use yolo_ave_mujica.Annotations.Model.{
  draft, Annotation, Workspace, WorkspaceDraftInput, SaveDraftInput, Error, not_found, validation,
  plain, task,
}
use yolo_ave_mujica.Annotations.Repository.{
  TaskContext, InMemoryRepository, seed_task_context, write_draft, hand_in, find_by_task,
}

-- The calls of the task service that this one makes.
pub record TaskService : Type 0 where
  pub get_task : ℤ → Repository.Action Model.Task
  pub transition_task : ℤ → Model.TransitionTaskInput → ℕ → Repository.Action Model.Task

abbrev pub task_service : TaskService
task_service = record { get_task = Service.get_task; transition_task = Service.transition_task }

-- The annotations, and the tasks behind the task service.
pub record ServiceState : Type 0 where
  pub repo : InMemoryRepository
  pub tasks : Repository.InMemoryRepository

abbrev pub Action : Type 0 → Type 0
Action A = ServiceState → Outcome Error ServiceState A

abbrev pub with_repo :
    {A : Type 0} → ServiceState → Outcome Error InMemoryRepository A → Outcome Error ServiceState A
with_repo s (ok a r) = ok a (record s { repo = r })
with_repo s (err e r) = err e (record s { repo = r })

abbrev pub on_repo :
    {A : Type 0} → (InMemoryRepository → Outcome Error InMemoryRepository A) → Action A
on_repo m s = with_repo s (m s.repo)

abbrev pub with_tasks :
    {A : Type 0}
    → ServiceState
    → Outcome Model.Error Repository.InMemoryRepository A
    → Outcome Error ServiceState A
with_tasks s (ok a ts) = ok a (record s { tasks = ts })
with_tasks s (err e ts) = err (task e) (record s { tasks = ts })

abbrev pub on_tasks : {A : Type 0} → Repository.Action A → Action A
on_tasks m s = with_tasks s (m s.tasks)

abbrev pub require : Bool → String → Option Error
require true message = none
require false message = some (validation message)

abbrev pub first_error : List (Bool × String) → Option Error
first_error [] = none
first_error ((true, message) ∷ checks) = some (validation message)
first_error ((false, message) ∷ checks) = first_error checks

-- `if s == "" { s = default }` after a trim.
abbrev pub trim_or : Text → Text → Text
trim_or default s = if is_empty (trim_space s) then default else trim_space s

unfoldable pub normalize_actor : Text → Text
unfolding trim_space
normalize_actor actor = trim_or (lit "system") actor

abbrev pub negative_frame : Option ℤ → Bool
negative_frame none = false
negative_frame (some n) = is_negative n

-- The assignments to the input in SaveDraft, and its tests.
unfoldable pub normalize_draft : SaveDraftInput → SaveDraftInput
unfolding normalize_actor
normalize_draft i = record i {
  actor = normalize_actor i.actor;
  asset_object_key = trim_space i.asset_object_key;
  ontology_version = trim_or (lit "v1") i.ontology_version;
}

unfoldable pub draft_problem : SaveDraftInput → Option Error
unfolding normalize_draft
draft_problem i = first_error (
    (not_positive i.task_id, "task_id must be > 0")
    ∷ (not_positive i.snapshot_id, "snapshot_id must be > 0")
    ∷ (is_empty (trim_space i.asset_object_key), "asset_object_key is required")
    ∷ (negative_frame i.frame_index, "frame_index must be >= 0 when provided")
    ∷ (is_negative i.base_revision, "base_revision must be >= 0")
    ∷ [])

unfoldable pub validate_workspace_task : Model.Task → Option Error
validate_workspace_task t = first_error (
    (not (t.kind == Model.annotation), "task is not an annotation task")
    ∷ (is_empty (trim_space t.asset_object_key), "task is missing asset_object_key")
    ∷ [])

unfoldable pub ensure_snapshot_context : Option ℤ → Option Error
ensure_snapshot_context none = some (validation "task is missing snapshot context")
ensure_snapshot_context (some n) = require (not (not_positive n)) "task is missing snapshot context"

unfoldable pub workspace_ontology_version : Model.Task → Text
workspace_ontology_version t = trim_or (lit "v1") t.ontology_version

unfoldable pub snapshot_id_value : Option ℤ → ℤ
snapshot_id_value none = pos 0
snapshot_id_value (some n) = n

unfoldable pub build_workspace : Model.Task → Annotation → Workspace
build_workspace t a = record {
  task = t;
  asset = record {
    snapshot_id = t.snapshot_id;
    object_key = t.asset_object_key;
    frame_index = t.frame_index;
  };
  annotation = a;
}

unfoldable pub synthetic_draft : Model.Task → Annotation
unfolding workspace_ontology_version snapshot_id_value
synthetic_draft t =
    let now = if nat_beq t.updated_at 0 then t.created_at else t.updated_at in
    record {
      id = 0;
      task_id = t.id;
      snapshot_id = snapshot_id_value t.snapshot_id;
      asset_object_key = t.asset_object_key;
      frame_index = t.frame_index;
      ontology_version = workspace_ontology_version t;
      state = draft;
      revision = 0;
      body = [];
      submitted_by = [];
      submitted_at = none;
      created_at = now;
      updated_at = now;
    }

unfoldable pub is_not_found : Error → Bool
is_not_found not_found = true
is_not_found (task Model.not_found) = true
is_not_found _ = false

-- What GetWorkspace makes of the repository's answer.
abbrev pub workspace_or_synthetic :
    Model.Task
    → ServiceState
    → Outcome Error InMemoryRepository Annotation
    → Outcome Error ServiceState Workspace
workspace_or_synthetic t s (ok a r) = ok (build_workspace t a) (record s { repo = r })
workspace_or_synthetic t s (err e r) =
    if is_not_found e
    then ok (build_workspace t (synthetic_draft t)) (record s { repo = r })
    else err e (record s { repo = r })

-- The context and the draft that SaveWorkspaceDraft makes of a task.
unfoldable pub context_of : Model.Task → TaskContext
unfolding workspace_ontology_version snapshot_id_value
context_of t = record {
  snapshot_id = snapshot_id_value t.snapshot_id;
  asset_object_key = t.asset_object_key;
  frame_index = t.frame_index;
  ontology_version = workspace_ontology_version t;
}

unfoldable pub workspace_draft : Model.Task → WorkspaceDraftInput → SaveDraftInput
unfolding workspace_ontology_version snapshot_id_value
workspace_draft t i = record {
  task_id = pos t.id;
  actor = i.actor;
  snapshot_id = snapshot_id_value t.snapshot_id;
  asset_object_key = t.asset_object_key;
  frame_index = t.frame_index;
  ontology_version = workspace_ontology_version t;
  base_revision = i.base_revision;
  body = i.body;
}

abbrev pub seed_context : ℕ → TaskContext → Action (Unit {0})
seed_context id c s = ok tt (record s { repo = seed_task_context id c s.repo })

-- `if s.taskService == nil { return … }`.
abbrev pub ask : {A : Type 0} → Option TaskService → (TaskService → Repository.Action A) → Action A
ask none call s = err (plain "task service is required") s
ask (some service) call s = on_tasks (call service) s

module _ (tasks : Option TaskService) where
  unfoldable pub fetch_task : ℤ → Action Model.Task
  fetch_task id =
      check (require (not (not_positive id)) "task_id must be > 0")
      >> ask tasks (λ service. service.get_task id)

  -- The start of each call on a workspace.
  unfoldable pub workspace_task : ℤ → Action Model.Task
  unfolding fetch_task validate_workspace_task
  workspace_task id = do t ← fetch_task id; check (validate_workspace_task t); pass t

  -- The transition of the task, unless it is submitted.
  unfoldable pub submit_task : ℤ → Model.Task → ℕ → Action Model.Task
  submit_task id t now s =
      if t.status == Model.submitted
      then ok t s
      else ask tasks
          (λ service.
            service.transition_task id
              (record { status = lit "submitted"; blocker_reason = []; last_activity_at = 0 }) now)
          s

module _ (encode : Detail → Option Detail) where
  unfoldable pub save_draft : SaveDraftInput → ℕ → Action Annotation
  unfolding draft_problem normalize_draft write_draft
  save_draft i now = check (draft_problem i) >> on_repo (write_draft encode (normalize_draft i) now)

  unfoldable pub submit : ℤ → Text → ℕ → Action Annotation
  unfolding hand_in normalize_actor
  submit id actor now =
      check (require (not (not_positive id)) "task_id must be > 0")
      >> on_repo (hand_in encode (to_nat id) (normalize_actor actor) now)

  unfoldable pub get_by_task_id : ℤ → Action Annotation
  unfolding find_by_task
  get_by_task_id id =
      check (require (not (not_positive id)) "task_id must be > 0")
      >> on_repo (find_by_task encode (to_nat id))

  module _ (tasks : Option TaskService) where
    unfoldable pub get_workspace : ℤ → Action Workspace
    unfolding workspace_task find_by_task build_workspace synthetic_draft is_not_found
    get_workspace id = do
      t ← workspace_task tasks id
      λ s. workspace_or_synthetic t s (find_by_task encode (to_nat id) s.repo)

    unfoldable pub save_workspace_draft : ℤ → WorkspaceDraftInput → ℕ → Action Workspace
    unfolding workspace_task ensure_snapshot_context seed_task_context context_of save_draft
        workspace_draft build_workspace
    save_workspace_draft id i now = do
      t ← workspace_task tasks id
      check (ensure_snapshot_context t.snapshot_id)
      seed_context t.id (context_of t)
      a ← save_draft (workspace_draft t i) now
      pass (build_workspace t a)

    unfoldable pub submit_workspace : ℤ → Text → ℕ → Action Workspace
    unfolding workspace_task submit submit_task build_workspace
    submit_workspace id actor now = do
      t ← workspace_task tasks id
      a ← submit id actor now
      u ← submit_task tasks id t now
      pass (build_workspace u a)
