-- ===== src/Annotations/Tests.antt =====
-- The annotation theorems at concrete inputs, and runs of the annotation service.
use yolo_ave_mujica.Base.{
  ℕ, pos, ◌≡◌, ◌≢◌, refl, true, lit, text_beq, trim_space, is_space, lookup, ap, false, arith,
  insert, nat_key, List, [], ◌∷◌, Option, none, some, ok, err,
}
use yolo_ave_mujica.Jobs.Value.{Detail, text}
use yolo_ave_mujica.Tasks.Model.{Task, Status, annotation, image, high, in_progress, queued}
use yolo_ave_mujica.Tasks.Model
use yolo_ave_mujica.Tasks.Flow.{is_allowed_transition}
use yolo_ave_mujica.Tasks.Repository
use yolo_ave_mujica.Tasks.Service
use yolo_ave_mujica.Annotations.Model.{
  draft, submitted, Annotation, Error, task, SaveDraftInput, WorkspaceDraftInput,
}
use yolo_ave_mujica.Annotations.Repository.{
  new_in_memory_repository, write_draft, hand_in, seed_task_context, is_submitted,
}
use yolo_ave_mujica.Annotations.Service.{
  ServiceState, task_service, save_draft, save_workspace_draft, submit, submit_workspace,
  build_workspace, validate_workspace_task, normalize_draft, normalize_actor,
}
use yolo_ave_mujica.Annotations.Invariant.{Inv}
use yolo_ave_mujica.Annotations.History.{Call, saves_workspace, submits_workspace, step, run}
use yolo_ave_mujica.Annotations.History.Laws.{
  run-After, run_annotations, run_submitted, new_in_memory_repository-Inv,
}
use yolo_ave_mujica.Annotations.Conflict.{no_lost_update}
use yolo_ave_mujica.Annotations.Submission.{
  submitted_task, submitted_annotation, submitted_repo, submit_workspace_lem,
  submit_workspace_refused,
}

-- A body that JSON keeps as it is.
abbrev kept : Detail → Option Detail
kept d = some d

abbrev working : Task
working = record {
  id = 1;
  project_id = pos 1;
  snapshot_id = some (pos 2);
  title = lit "Label cars";
  kind = annotation;
  asset_object_key = lit "a.png";
  media_kind = image;
  frame_index = none;
  ontology_version = lit "v1";
  status = in_progress;
  priority = high;
  assignee = lit "kim";
  due_at = none;
  blocker_reason = [];
  last_activity_at = 7;
  created_at = 7;
  updated_at = 7;
}

-- A task service with one task under way.
abbrev at_work : Repository.InMemoryRepository
at_work = record { next_id = 2; by_id = (1, working) ∷ [] }

abbrev start : ServiceState
start = record { repo = new_in_memory_repository; tasks = at_work }

abbrev body : Detail
body = (lit "boxes", text (lit "none")) ∷ []

abbrev drawing : WorkspaceDraftInput
drawing = record { actor = lit "kim"; base_revision = pos 0; body = body }

abbrev drawings : List (ℕ × Call)
drawings = (8, saves_workspace (pos 1) drawing) ∷ []

abbrev drawn : ServiceState
drawn = run kept (some task_service) drawings start

abbrev drawn_annotation : Annotation
drawn_annotation = record {
  id = 1;
  task_id = 1;
  snapshot_id = pos 2;
  asset_object_key = lit "a.png";
  frame_index = none;
  ontology_version = lit "v1";
  state = draft;
  revision = 1;
  body = body;
  submitted_by = [];
  submitted_at = none;
  created_at = 8;
  updated_at = 8;
}

is_drawn : lookup 1 drawn.repo.by_task ≡ some drawn_annotation
unfolding run step save_workspace_draft save_draft write_draft seed_task_context lookup insert lit
    text_beq new_in_memory_repository trim_space is_space normalize_draft Service.get_task
    Repository.find_task
is_drawn = refl

drawn-Inv : Inv drawn.repo
drawn-Inv = (run-After kept (some task_service) drawings start new_in_memory_repository-Inv).0

run_annotations_example : Inv (run kept (some task_service) drawings start).repo
run_annotations_example = run_annotations kept (some task_service) drawings at_work

abbrev submission : List (ℕ × Call)
submission = (9, submits_workspace (pos 1) (lit "kim")) ∷ []

abbrev done : ServiceState
done = run kept (some task_service) submission drawn

done-Inv : Inv done.repo
done-Inv = (run-After kept (some task_service) submission drawn drawn-Inv).0

abbrev done_annotation : Annotation
done_annotation = record drawn_annotation {
  state = submitted;
  revision = 2;
  submitted_by = lit "kim";
  submitted_at = some 9;
  updated_at = 9;
}

is_done : lookup 1 done.repo.by_task ≡ some done_annotation
unfolding run step save_workspace_draft save_draft write_draft seed_task_context lookup insert lit
    text_beq new_in_memory_repository trim_space normalize_draft submit_workspace submit hand_in
    normalize_actor Service.get_task Repository.find_task is_space Service.transition_task
    is_allowed_transition Repository.change_task
is_done = refl

is_done_state : is_submitted done_annotation.state ≡ true
unfolding is_submitted
is_done_state = refl

run_submitted_example :
    lookup 1
      (run kept (some task_service) ((10, saves_workspace (pos 1) drawing) ∷ []) done).repo.by_task
    ≡ some done_annotation
run_submitted_example =
    run_submitted kept (some task_service) ((10, saves_workspace (pos 1) drawing) ∷ []) done 1
      done_annotation done-Inv is_done is_done_state

-- A draft that builds on the revision before the submission.
abbrev late : SaveDraftInput
late = record {
  task_id = pos 1;
  actor = lit "lee";
  snapshot_id = pos 2;
  asset_object_key = lit "a.png";
  frame_index = none;
  ontology_version = lit "v1";
  base_revision = pos 1;
  body = body;
}

differs : done_annotation ≢ drawn_annotation
differs e = let f : 2 ≡ 1 = ap (λ a. a.revision) e in ground arith

no_lost_update_example :
    let t = run kept (some task_service) submission drawn in
    (e : Error) × (save_draft kept late 10 t ≡ err e t)
no_lost_update_example =
    no_lost_update kept (some task_service) submission drawn 1 drawn_annotation done_annotation
      drawn-Inv is_drawn is_done differs late 10 refl refl

is_open : is_submitted drawn_annotation.state ≡ false
unfolding is_submitted
is_open = refl

may_start : is_allowed_transition working.status Status.submitted ≡ true
unfolding is_allowed_transition
may_start = refl

is_workspace : validate_workspace_task working ≡ none
unfolding validate_workspace_task trim_space is_space lit
is_workspace = refl

has_working : lookup 1 drawn.tasks.by_id ≡ some working
unfolding run step save_workspace_draft save_draft write_draft seed_task_context lookup insert lit
    text_beq new_in_memory_repository trim_space is_space normalize_draft Service.get_task
    Repository.find_task
has_working = refl

submit_workspace_lem_example :
    let b = submitted_annotation kept drawn_annotation (lit "kim") 9 in
    let u = submitted_task 9 working in
    submit_workspace kept (some task_service) (pos 1) (lit "kim") 9 drawn
    ≡ ok (build_workspace u b) (record {
      repo = submitted_repo kept 1 drawn.repo drawn_annotation (lit "kim") 9;
      tasks = record drawn.tasks { by_id = insert 1 u drawn.tasks.by_id };
    })
submit_workspace_lem_example =
    submit_workspace_lem kept 1 refl drawn working has_working drawn_annotation (lit "kim") 9
      is_drawn is_open is_workspace may_start

-- The same draft, with the task not yet begun.
abbrev idle : Task
idle = record working { status = queued }

abbrev not_begun : ServiceState
not_begun = record drawn { tasks = record at_work { by_id = (1, idle) ∷ [] } }

has_idle : lookup 1 not_begun.tasks.by_id ≡ some idle
unfolding lookup
has_idle = refl

may_not_start : is_allowed_transition idle.status Status.submitted ≡ false
unfolding is_allowed_transition
may_not_start = refl

idle_is_workspace : validate_workspace_task idle ≡ none
unfolding validate_workspace_task trim_space is_space lit
idle_is_workspace = refl

submit_workspace_refused_example :
    (e : Model.Error) × (submit_workspace kept (some task_service) (pos 1) (lit "kim") 9 not_begun
      ≡ err (task e) (record not_begun {
        repo = submitted_repo kept 1 drawn.repo drawn_annotation (lit "kim") 9;
      }))
submit_workspace_refused_example =
    submit_workspace_refused kept 1 refl not_begun idle has_idle drawn_annotation (lit "kim") 9
      is_drawn is_open idle_is_workspace may_not_start refl
