-- ===== src/Jobs/Repository.antt =====
-- InMemoryRepository of internal/jobs/repository.go. A method takes the lock for its whole body, so
-- it is one step; `now` is what time.Now() reads. The maps hold pointers to one object for each job:
-- `by_id` owns the object and `by_key` holds its id.
use yolo_ave_mujica.Base.{
  ℕ, suc, ℤ, pos, ltb, Bool, true, false, not, ◌&&◌, ◌||◌, if◌then◌else◌, ◌==◌, Text, text_key, lit,
  nat_key, Map, lookup, insert, List, [], ◌∷◌, ◌++◌, Option, none, some, decimal_int, Outcome, ok,
  err, Try, value, fault,
}
use yolo_ave_mujica.Jobs.Value.{
  Detail, index, string_value, int64_value, extract_int64_slice, merge_result_refs,
}
use yolo_ave_mujica.Jobs.Model.{
  Status, is_final, queued, running, failed, retry_waiting, status_key, Error, not_found, Job,
  Worker, CreateJobInput, Event,
}
use yolo_ave_mujica.Jobs.StateMachine.{can_transition}

pub record InMemoryRepository : Type 0 where
  pub next_id : ℕ
  pub next_event : ℕ
  pub by_key : Map Text ℕ
  pub by_id : Map ℕ Job
  pub events : Map ℕ (List Event)
  pub workers : Map Text Worker

unfoldable pub new_in_memory_repository : InMemoryRepository
new_in_memory_repository = record {
  next_id = 1;
  next_event = 1;
  by_key = [];
  by_id = [];
  events = [];
  workers = [];
}

abbrev pub Result : Type 0 → Type 0
Result A = Outcome Error InMemoryRepository A

-- `fmt.Sprintf("%d:%s:%s", …)`.
unfoldable pub idempotency_key : CreateJobInput → Text
idempotency_key i = decimal_int i.project_id ++ (b':' ∷ (i.job_type ++ (b':' ∷ i.idempotency_key)))

unfoldable pub new_job : ℕ → CreateJobInput → ℕ → Job
new_job id i now = record {
  id = id;
  project_id = i.project_id;
  dataset_id = i.dataset_id;
  snapshot_id = i.snapshot_id;
  job_type = i.job_type;
  status = queued;
  required_resource_type = i.required_resource_type;
  required_capabilities = i.required_capabilities;
  idempotency_key = i.idempotency_key;
  worker_id = [];
  payload = i.payload;
  total_items = pos 0;
  succeeded_items = pos 0;
  failed_items = pos 0;
  created_at = now;
  started_at = none;
  finished_at = none;
  lease_until = none;
  retry_count = 0;
  error_code = [];
  error_msg = [];
  result_type = [];
  result_count = pos 0;
  result_artifact_ids = [];
  result_ref = [];
}

-- The job that is returned, by its id, and whether it was created.
unfoldable pub create_or_get : CreateJobInput → ℕ → InMemoryRepository → Result (ℕ × Bool)
create_or_get i now r = elim (lookup (idempotency_key i) r.by_key) [
  | some existing ↦ ok (existing, false) r
  | none ↦
      ok (r.next_id, true)
        (record r {
          next_id = suc r.next_id;
          by_key = insert (idempotency_key i) r.next_id r.by_key;
          by_id = insert r.next_id (new_job r.next_id i now) r.by_id;
        })
]

unfoldable pub get : ℕ → InMemoryRepository → Option Job
get id r = lookup id r.by_id

-- The frame of the methods that change one job: look it up, fail if it is missing or if the body
-- fails, and write it back.
unfoldable pub update_job : ℕ → (Job → Try Error Job) → InMemoryRepository → Result Job
update_job id body r = elim (lookup id r.by_id) [
  | none ↦ err not_found r
  | some job ↦ elim (body job) [
    | fault e ↦ err e r
    | value job' ↦ ok job' (record r { by_id = insert id job' r.by_id })
  ]
]

-- `if err := CanTransition(from, to); err != nil { return err }` before the assignments.
unfoldable pub guarded : Option Error → Job → Try Error Job
guarded none job = value job
guarded (some e) job = fault e

-- The assignments of UpdateStatus.
unfoldable pub set_status : Status → ℕ → Job → Job
set_status to now job = record job {
  status = to;
  started_at = if to == running then some now else job.started_at;
  lease_until = if to == queued then none else job.lease_until;
  finished_at = if is_final to then some now else job.finished_at;
}

unfoldable pub update_status : ℕ → Status → ℕ → InMemoryRepository → Result Job
unfolding guarded set_status
update_status id to now =
    update_job id (λ job. guarded (can_transition job.status to) (set_status to now job))

-- Claim checks no status: only a queued job starts, any other keeps its status.
unfoldable pub claim_job : Text → ℕ → ℕ → Job → Job
claim_job worker lease now job = record job {
  status = if job.status == queued then running else job.status;
  started_at = if job.status == queued then some now else job.started_at;
  worker_id = worker;
  lease_until = some lease;
}

unfoldable pub claim : ℕ → Text → ℕ → ℕ → InMemoryRepository → Result Job
unfolding claim_job
claim id worker lease now = update_job id (λ job. value (claim_job worker lease now job))

unfoldable pub touch_lease : ℕ → Text → ℕ → InMemoryRepository → Result Job
touch_lease id worker lease =
    update_job id (λ job. value (record job { worker_id = worker; lease_until = some lease }))

pub record Counters : Type 0 where
  pub total : ℤ
  pub good : ℤ
  pub bad : ℤ

unfoldable pub set_counters : Text → Counters → Job → Job
set_counters worker c job = record job {
  worker_id = worker;
  total_items = c.total;
  succeeded_items = c.good;
  failed_items = c.bad;
}

unfoldable pub start_job : ℕ → Job → Job
start_job now job = record job { status = running; started_at = some now }

unfoldable pub progress_job : Text → Counters → ℕ → Job → Try Error Job
unfolding guarded set_counters start_job
progress_job worker c now job =
    if job.status == running
    then value (set_counters worker c job)
    else guarded (can_transition job.status running) (set_counters worker c (start_job now job))

unfoldable pub update_progress : ℕ → Text → Counters → ℕ → InMemoryRepository → Result Job
unfolding progress_job
update_progress id worker c now = update_job id (progress_job worker c now)

-- A completion counts a job that waits as if it were running.
unfoldable pub effective_status : Status → Status
effective_status from = if from == queued || from == retry_waiting then running else from

unfoldable pub or_now : Option ℕ → ℕ → Option ℕ
or_now none now = some now
or_now (some t) now = some t

unfoldable pub complete_job : Text → Status → Counters → ℕ → Job → Try Error Job
unfolding guarded set_counters effective_status or_now
complete_job worker to c now job = guarded (can_transition (effective_status job.status) to) (
    set_counters worker c
      (record job { started_at = or_now job.started_at now; status = to; finished_at = some now }))

unfoldable pub complete : ℕ → Text → Status → Counters → ℕ → InMemoryRepository → Result Job
unfolding complete_job
complete id worker to c now = update_job id (complete_job worker to c now)

unfoldable pub set_lease : ℕ → ℕ → InMemoryRepository → Result Job
set_lease id until = update_job id (λ job. value (record job { lease_until = some until }))

-- `job.LeaseUntil.Before(now)` for a lease that is set.
abbrev pub before : Option ℕ → ℕ → Bool
before none now = false
before (some t) now = ltb t now

-- `!job.LeaseUntil.After(now)` for a lease that is set.
abbrev pub not_after : Option ℕ → ℕ → Bool
not_after none now = false
not_after (some t) now = not (ltb now t)

unfoldable pub is_expired_running : ℕ → Job → Bool
is_expired_running now job = job.status == running && before job.lease_until now

unfoldable pub is_retry_ready : ℕ → Job → Bool
is_retry_ready now job = job.status == retry_waiting && not_after job.lease_until now

-- The range over `byID`: the ids of the jobs that pass the test, in the map's order.
unfoldable pub select : (Job → Bool) → Map ℕ Job → List ℕ
select test [] = []
select test ((id, job) ∷ m) = if test job then id ∷ select test m else select test m

unfoldable pub list_expired_running : ℕ → InMemoryRepository → List ℕ
unfolding select is_expired_running
list_expired_running now r = select (is_expired_running now) r.by_id

unfoldable pub list_retry_ready : ℕ → InMemoryRepository → List ℕ
unfolding select is_retry_ready
list_retry_ready now r = select (is_retry_ready now) r.by_id

unfoldable pub increment_retry_count : ℕ → InMemoryRepository → Result Job
increment_retry_count id =
    update_job id (λ job. value (record job { retry_count = suc job.retry_count }))

unfoldable pub mark_retry_waiting : ℕ → ℕ → InMemoryRepository → Result Job
unfolding guarded
mark_retry_waiting id retry_at = update_job id λ job.
    guarded (can_transition job.status retry_waiting)
      (record job { status = retry_waiting; lease_until = some retry_at })

unfoldable pub mark_failed : ℕ → Text → Text → ℕ → InMemoryRepository → Result Job
unfolding guarded
mark_failed id code msg now = update_job id λ job.
    guarded (can_transition job.status failed)
      (record job { status = failed; finished_at = some now; error_code = code; error_msg = msg })

-- The assignments of StoreResultRef, from the merged map.
unfoldable pub set_result : Detail → Job → Job
set_result merged job = record job {
  result_ref = merged;
  result_type = string_value (index (lit "result_type") merged);
  result_count = int64_value (index (lit "result_count") merged);
  result_artifact_ids = extract_int64_slice (index (lit "artifact_ids") merged);
}

unfoldable pub store_result : Detail → Job → Job
unfolding set_result
store_result [] job = job
store_result (e ∷ es) job = set_result (merge_result_refs job.result_ref (e ∷ es)) job

unfoldable pub store_result_ref : ℕ → Detail → InMemoryRepository → Result Job
unfolding store_result
store_result_ref id ref = update_job id (λ job. value (store_result ref job))
