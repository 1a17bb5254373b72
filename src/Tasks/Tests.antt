-- ===== src/Tasks/Tests.antt =====
-- The task theorems at concrete inputs, and runs of the task service.
use yolo_ave_mujica.Base.{
  ℕ, suc, pos, ◌≡◌, refl, ◌↔◌, ◌⊎◌, lit, text_beq, lookup, insert, nat_key, text_key, List, [], ◌∷◌,
  none, some, ok, err, value,
}
use yolo_ave_mujica.Tasks.Model.{
  queued, closed, annotation, ops, image, high, Task, CreateTaskInput, TransitionTaskInput,
  ListTasksFilter, Error, normalize_kind, normalize_status, read_kind, read_priority,
}
use yolo_ave_mujica.Tasks.Repository.{
  InMemoryRepository, new_in_memory_repository, Filter, new_task, changed, insert_task, find_task,
  change_task,
}
use yolo_ave_mujica.Tasks.Service.{
  normalize_task, create_task, requested, settled, transition_task, normalize_filter, list_tasks,
  change_refusal,
}
use yolo_ave_mujica.Tasks.Flow.{is_allowed_transition}
use yolo_ave_mujica.Tasks.Validity.{IsValid, create_task_lem}
use yolo_ave_mujica.Tasks.Transition.{IsPermitted, transition_task_lem}
use yolo_ave_mujica.Tasks.Listing.{Lists, Wanted, list_tasks_lem}
use yolo_ave_mujica.Tasks.Closing.{way, closing, closing_lem}
use yolo_ave_mujica.Tasks.History.{Call, creates, transitions, step, run, Inv, Advances}
use yolo_ave_mujica.Tasks.History.Laws.{run_valid, run-Evolves, run_closed, run-After}

abbrev labelling : CreateTaskInput
labelling = record {
  project_id = pos 1;
  snapshot_id = some (pos 2);
  title = lit " Label cars";
  kind = [];
  asset_object_key = lit "a.png";
  media_kind = lit "Image";
  frame_index = none;
  ontology_version = [];
  status = [];
  priority = lit "high";
  assignee = lit "kim";
  due_at = none;
  blocker_reason = [];
  last_activity_at = 0;
}

abbrev cleanup : CreateTaskInput
cleanup = record labelling { kind = lit "ops"; asset_object_key = []; media_kind = [] }

abbrev two_tasks : List (ℕ × Call)
two_tasks = (7, creates labelling) ∷ (8, creates cleanup) ∷ []

abbrev stored : InMemoryRepository
stored = run two_tasks new_in_memory_repository

stored-Inv : Inv stored
stored-Inv = run_valid two_tasks

abbrev task : Task
task = record {
  id = 1;
  project_id = pos 1;
  snapshot_id = some (pos 2);
  title = lit "Label cars";
  kind = annotation;
  asset_object_key = lit "a.png";
  media_kind = image;
  frame_index = none;
  ontology_version = lit "v1";
  status = queued;
  priority = high;
  assignee = lit "kim";
  due_at = none;
  blocker_reason = [];
  last_activity_at = 7;
  created_at = 7;
  updated_at = 7;
}

stored_task : lookup 1 stored.by_id ≡ some task
unfolding run step create_task insert_task new_in_memory_repository lookup insert lit text_beq
    normalize_kind normalize_status
stored_task = refl

create_task_lem_example :
    let r = new_in_memory_repository in
    let made = new_task r.next_id (normalize_task labelling 7) 7 in
    (IsValid (normalize_task labelling 7)
      × (create_task labelling 7 r
          ≡ ok made (record r { next_id = suc r.next_id; by_id = insert r.next_id made r.by_id })))
    ⊎ ((¬ IsValid (normalize_task labelling 7))
        × (e : Error) × (create_task labelling 7 r ≡ err e r))
create_task_lem_example = create_task_lem labelling 7 new_in_memory_repository

abbrev starting : TransitionTaskInput
starting = record { status = lit "Ready"; blocker_reason = lit "old"; last_activity_at = 0 }

transition_task_lem_example :
    let c = requested task starting 9 in
    let u = changed (settled c) 9 task in
    (IsPermitted task.status c
      × (transition_task (pos 1) starting 9 stored
          ≡ ok u (record stored { by_id = insert 1 u stored.by_id })))
    ⊎ ((¬ IsPermitted task.status c)
        × (e : Error) × (transition_task (pos 1) starting 9 stored ≡ err e stored))
transition_task_lem_example = transition_task_lem 1 starting 9 stored task refl stored_task

run_valid_example : Inv (run two_tasks new_in_memory_repository)
run_valid_example = run_valid two_tasks

abbrev start : List (ℕ × Call)
start = (9, transitions (pos 1) starting) ∷ []

run-Evolves_example : (u : Task) × (lookup 1 (run start stored).by_id ≡ some u) × Advances task u
run-Evolves_example = run-Evolves start stored 1 task stored-Inv stored_task

abbrev finished : Task
finished = record task { status = closed; last_activity_at = 12; updated_at = 12 }

-- A repository with one closed task.
abbrev archive : InMemoryRepository
archive = run (closing 1 12 (way queued)) stored

archived_task : lookup 1 archive.by_id ≡ some finished
unfolding run step create_task insert_task new_in_memory_repository lookup insert lit text_beq
    normalize_kind normalize_status closing transition_task requested settled change_refusal changed
    find_task is_allowed_transition change_task
archived_task = refl

archive-Inv : Inv archive
archive-Inv = (run-After (closing 1 12 (way queued)) stored stored-Inv).0

run_closed_example :
    (u : Task) × (lookup 1 (run start archive).by_id ≡ some u) × (u.status ≡ closed)
run_closed_example = run_closed start archive 1 finished archive-Inv archived_task refl

closing_lem_example :
    (u : Task) × (lookup 1 (run (closing 1 12 (way queued)) stored).by_id ≡ some u)
    × (u.status ≡ closed)
closing_lem_example = closing_lem 1 12 stored task refl stored_task refl

abbrev urgent_ops : ListTasksFilter
urgent_ops = record {
  status = [];
  kind = lit "OPS";
  assignee = [];
  priority = lit "high";
  snapshot_id = some (pos 2);
}

abbrev urgent : Filter
urgent = record {
  status = none;
  kind = some ops;
  assignee = [];
  priority = some high;
  snapshot_id = some (pos 2);
}

urgent_ops_readable : normalize_filter urgent_ops ≡ value urgent
unfolding normalize_filter lit text_beq read_kind read_priority
urgent_ops_readable = refl

list_tasks_lem_example :
    (ts : List Task) × (list_tasks (pos 1) urgent_ops stored ≡ ok ts stored)
    × ((t : Task)
        → Lists t ts ↔ ((k : ℕ) × (lookup k stored.by_id ≡ some t) × Wanted (pos 1) urgent t))
list_tasks_lem_example =
    list_tasks_lem (pos 1) urgent_ops urgent stored stored-Inv.distinct refl urgent_ops_readable
