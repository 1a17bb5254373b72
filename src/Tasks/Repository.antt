-- ===== src/Tasks/Repository.antt =====
-- InMemoryRepository of internal/tasks/repository.go; each method is one step under the lock. A method
-- takes the input as the service normalised it: here the record of the new task's fields.
use yolo_ave_mujica.Base.{
  ℕ, suc, ℤ, Bool, true, false, ◌&&◌, ◌||◌, Key, if◌then◌else◌, ◌==◌, Text, text_key, int_key,
  nat_key, is_empty, Map, lookup, insert, List, [], ◌∷◌, Option, none, some, Outcome, ok, err,
  nat_beq,
}
use yolo_ave_mujica.Tasks.Equality.{status_key, kind_key, priority_key}
use yolo_ave_mujica.Tasks.Model.{Status, Kind, Priority, Task, Error, not_found}

pub record InMemoryRepository : Type 0 where
  pub next_id : ℕ
  pub by_id : Map ℕ Task

unfoldable pub new_in_memory_repository : InMemoryRepository
new_in_memory_repository = record { next_id = 1; by_id = [] }

abbrev pub Action : Type 0 → Type 0
Action A = InMemoryRepository → Outcome Error InMemoryRepository A

-- The fields that the repository sets itself: the id and the times.
unfoldable pub new_task : ℕ → Task → ℕ → Task
new_task id fields now = record fields {
  id = id;
  last_activity_at = if nat_beq fields.last_activity_at 0 then now else fields.last_activity_at;
  created_at = now;
  updated_at = now;
}

unfoldable pub insert_task : Task → ℕ → Action Task
unfolding new_task
insert_task fields now r =
    let task = new_task r.next_id fields now in
    ok task (record r { next_id = suc r.next_id; by_id = insert r.next_id task r.by_id })

unfoldable pub find_task : ℕ → Action Task
find_task id r = elim (lookup id r.by_id) [ none ↦ err not_found r | some task ↦ ok task r ]

-- What TransitionTask of the repository is given.
pub record Change : Type 0 where
  pub status : Status
  pub blocker_reason : Text
  pub last_activity_at : ℕ

unfoldable pub changed : Change → ℕ → Task → Task
changed c now task = record task {
  status = c.status;
  blocker_reason = c.blocker_reason;
  last_activity_at = c.last_activity_at;
  updated_at = now;
}

unfoldable pub change_task : ℕ → Change → ℕ → Action Task
unfolding changed
change_task id c now r = elim (lookup id r.by_id) [
  | none ↦ err not_found r
  | some task ↦
      ok (changed c now task) (record r { by_id = insert id (changed c now task) r.by_id })
]

-- A filter of ListTasks as the service normalised it; an empty status, kind or priority is `none`.
pub record Filter : Type 0 where
  pub status : Option Status
  pub kind : Option Kind
  pub assignee : Text
  pub priority : Option Priority
  pub snapshot_id : Option ℤ

-- `!(wanted != "" && given != wanted)`.
abbrev pub admits : {A : Type 0} ⦃key : Key A⦄ → Option A → A → Bool
admits none given = true
admits (some wanted) given = given == wanted

abbrev pub admits_snapshot : Option ℤ → Option ℤ → Bool
admits_snapshot none given = true
admits_snapshot (some wanted) none = false
admits_snapshot (some wanted) (some given) = given == wanted

unfoldable pub admits_task : ℤ → Filter → Task → Bool
admits_task project f task =
    task.project_id == project
    && admits f.status task.status
    && admits f.kind task.kind
    && (is_empty f.assignee || task.assignee == f.assignee)
    && admits f.priority task.priority
    && admits_snapshot f.snapshot_id task.snapshot_id

-- The range over `byID`.
unfoldable pub select_tasks : (Task → Bool) → Map ℕ Task → List Task
select_tasks test [] = []
select_tasks test ((id, task) ∷ rest) =
    if test task then task ∷ select_tasks test rest else select_tasks test rest

unfoldable pub find_tasks : ℤ → Filter → Action (List Task)
unfolding select_tasks admits_task
find_tasks project f r = ok (select_tasks (admits_task project f) r.by_id) r
