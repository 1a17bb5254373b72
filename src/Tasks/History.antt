-- ===== src/Tasks/History.antt =====
-- Histories of calls of the task service (internal/tasks/service.go): the calls in the order in
-- which they take the lock, each with the time that it reads; and what holds between two of them.
pub mod Laws
use yolo_ave_mujica.Base.{ℕ, ℤ, ◌<◌, ◌≡◌, List, [], ◌∷◌, some, lookup, Distinct, nat_key, state_of}
use yolo_ave_mujica.Tasks.Model.{
  Status, Task, queued, CreateTaskInput, TransitionTaskInput, ListTasksFilter,
}
use yolo_ave_mujica.Tasks.Flow.{Flow}
use yolo_ave_mujica.Tasks.Repository.{InMemoryRepository, new_in_memory_repository, Action}
use yolo_ave_mujica.Tasks.Service.{create_task, get_task, transition_task, list_tasks}
use yolo_ave_mujica.Tasks.Validity.{IsValid}

pub data Call : Type 0 where
  creates : CreateTaskInput → Call
  reads : ℤ → Call
  transitions : ℤ → TransitionTaskInput → Call
  lists : ℤ → ListTasksFilter → Call

unfoldable pub step : ℕ × Call → InMemoryRepository → InMemoryRepository
step (now, creates i) r = state_of (create_task i now r)
step (now, reads id) r = state_of (get_task id r)
step (now, transitions id i) r = state_of (transition_task id i now r)
step (now, lists project f) r = state_of (list_tasks project f r)

unfoldable pub run : List (ℕ × Call) → InMemoryRepository → InMemoryRepository
run [] r = r
run (c ∷ cs) r = run cs (step c r)

-- Every task is stored once, under its own id, below the next one, and is valid.
pub record Inv (r : InMemoryRepository) : Type 0 where
  pub ids : (k : ℕ) (t : Task) → lookup k r.by_id ≡ some t → (t.id ≡ k) × (k < r.next_id)
  pub valid : (k : ℕ) (t : Task) → lookup k r.by_id ≡ some t → IsValid t
  pub distinct : Distinct r.by_id

-- A task without what a transition sets.
abbrev pub rest : Task → Task
rest t = record t { status = queued; blocker_reason = []; last_activity_at = 0; updated_at = 0 }

-- A later state of a task: the same task, further along the transitions.
pub record Advances (t u : Task) : Type 0 where
  pub same_rest : rest u ≡ rest t
  pub moved : Flow t.status u.status

abbrev pub Evolves : InMemoryRepository → InMemoryRepository → Type 0
Evolves r s =
    (k : ℕ) (t : Task)
    → lookup k r.by_id ≡ some t
    → (u : Task) × (lookup k s.by_id ≡ some u) × Advances t u

abbrev pub After : InMemoryRepository → InMemoryRepository → Type 0
After r s = Inv s × Evolves r s
