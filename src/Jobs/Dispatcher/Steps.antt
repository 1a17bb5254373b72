-- ===== src/Jobs/Dispatcher/Steps.antt =====
-- Calls of the job repository that succeed, as equations (internal/jobs/repository.go).
use yolo_ave_mujica.Base.{
  ℕ, suc, ◌≡◌, refl, lookup, insert, nat_key, [], ◌∷◌, ◌++◌, some, ok, Try, value, and_then, ◌>>=◌,
}
use yolo_ave_mujica.Jobs.Model.{Error, Job}
use yolo_ave_mujica.Jobs.Repository.{InMemoryRepository, update_job}
use yolo_ave_mujica.Jobs.EventLog.{EventInput, append_event, new_event, list_events}
use yolo_ave_mujica.Jobs.Dispatcher.{ServiceState, Action, on_repo, with_repo}

-- A method finds its job and its body succeeds.
pub update_job_changed :
    (id : ℕ) (body : Job → Try Error Job) (r : InMemoryRepository) (j k : Job)
    → lookup id r.by_id ≡ some j
    → body j ≡ value k
    → update_job id body r ≡ ok k (record r { by_id = insert id k r.by_id })
unfolding update_job
update_job_changed id body r j k e f = rw (e, update_job) (rw (f, update_job) refl)

-- An event of a job that is there is appended, and the jobs stay as they are.
pub append_keeps :
    {B : Type 0} (id : ℕ) (i : EventInput) (now : ℕ) (job : Job) (s : ServiceState) (k : Action B)
    → lookup id s.repo.by_id ≡ some job
    → (r : InMemoryRepository) × (lookup id r.by_id ≡ some job)
      × ((on_repo (append_event id i now) >>= λ _. k) s ≡ k (record s { repo = r }))
unfolding append_event
append_keeps id i now job s k e = (
  record (s.repo) {
    next_event = suc s.repo.next_event;
    events =
        insert id (list_events id s.repo ++ new_event s.repo.next_event id i now ∷ [])
          s.repo.events;
  },
  e,
  rw (e, append_event, with_repo, and_then) refl,
)
