-- ===== src/Jobs/Service.antt =====
-- The Service of internal/jobs/service.go. The time is read once in a call.
use yolo_ave_mujica.Base.{
  ℕ, ℤ, pos, not_positive, Bool, true, false, not, ◌||◌, if◌then◌else◌, ◌==◌, Text, text_key,
  is_empty, lit, trim_space, keyword, nat_key, insert, List, [], ◌∷◌, Option, ok, err, Try, value,
  fault, attempt, pass, ◌>>=◌, ◌>>◌,
}
use yolo_ave_mujica.Jobs.Value.{Value, text, texts, Detail, index, string_value, int64_value}
use yolo_ave_mujica.Jobs.Model.{
  status_key, Error, plain, Job, Worker, CreateJobInput, RegisterWorkerInput, Event,
}
use yolo_ave_mujica.Jobs.Repository.{create_or_get}
use yolo_ave_mujica.Jobs.EventLog.{append_event, list_events, upsert_worker}
use yolo_ave_mujica.Jobs.Dispatcher.{
  Publisher, Action, on_repo, read, deref, observe, job_created, publish, lane_for,
}
use yolo_ave_mujica.Jobs.Sweeper.{entry}
use yolo_ave_mujica.Jobs.Normalize.{
  normalize_required_resource_type, normalize_required_capabilities, normalize_worker_strings,
  extract_result_ref,
}

-- float64 values are only copied, and stand as their bits.
pub record CandidateBbox : Type 0 where
  pub x : ℕ
  pub y : ℕ
  pub w : ℕ
  pub h : ℕ

pub record ReviewCandidateInput : Type 0 where
  pub dataset_id : ℤ
  pub snapshot_id : ℤ
  pub item_id : ℤ
  pub object_key : Text
  pub category_id : ℤ
  pub category_name : Text
  pub bbox : CandidateBbox
  pub confidence : Option ℕ
  pub model_name : Text
  pub is_pseudo : Bool

-- What the service is built with. `decode` is json.Marshal and json.Unmarshal between the dynamic
-- value and the candidates; the sink answers with the ids that it stored.
pub record Service : Type 0 where
  pub dispatcher : Option Publisher
  pub review_sink : Option (ℕ → List ReviewCandidateInput → Try Error (List ℤ))
  pub decode : Value → Try Error (List ReviewCandidateInput)

-- The part of CreateJob above the repository.
unfoldable pub normalize_input : CreateJobInput → Try Error CreateJobInput
unfolding keyword normalize_required_resource_type normalize_required_capabilities
normalize_input i =
    let job_type = keyword i.job_type in
    if is_empty job_type
    then fault (plain "job_type is required")
    else if is_empty i.idempotency_key
    then fault (plain "idempotency_key is required")
    else elim (normalize_required_resource_type job_type i.required_resource_type) [
      | fault e ↦ fault e
      | value r ↦ elim (normalize_required_capabilities job_type i.required_capabilities) [
        | fault e ↦ fault e
        | value caps ↦ value (record i {
          project_id = if not_positive i.project_id then pos 1 else i.project_id;
          job_type = job_type;
          required_resource_type = r;
          required_capabilities = caps;
        })
      ]
    ]

-- The branch of CreateJob for a job that is new.
unfoldable pub announce : Option Publisher → ℕ → ℕ → Action ℕ
announce d now id = do
  job ← deref id
  observe (job_created job.job_type)
  on_repo (
      append_event id
        (entry (lit "info") (lit "dispatch_requested") (lit "job queued for dispatch") (
          (lit "job_type", text job.job_type)
          ∷ (lit "required_resource_type", text job.required_resource_type)
          ∷ (lit "required_capabilities", texts job.required_capabilities)
          ∷ (lit "resource_lane", text (lane_for job.required_resource_type))
          ∷ []))
        now)
  publish d job
  pass id

unfoldable pub submitted : Option Publisher → ℕ → ℕ × Bool → Action ℕ
unfolding announce
submitted d now (id, true) = announce d now id
submitted d now (id, false) = pass id

unfoldable pub create_job : Service → CreateJobInput → ℕ → Action ℕ
create_job svc i now = do
  i' ← attempt (normalize_input i)
  job ← on_repo (create_or_get i' now)
  submitted svc.dispatcher now job

-- The fields that GetJob sets on the job behind the pointer.
unfoldable pub with_result : Detail → Job → Job
with_result ref job = record job {
  result_ref = ref;
  result_type = string_value (index (lit "result_type") ref);
  result_count = int64_value (index (lit "result_count") ref);
}

abbrev is_nil : Detail → Bool
is_nil [] = true
is_nil (e ∷ es) = false

unfoldable pub resolved : Job → List Event → Job
unfolding with_result
resolved job events =
    if not (is_nil job.result_ref)
    then record job {
      result_type = string_value (index (lit "result_type") job.result_ref);
      result_count = int64_value (index (lit "result_count") job.result_ref);
    }
    else if is_nil (extract_result_ref events)
    then job
    else with_result (extract_result_ref events) job

-- An assignment through the pointer.
abbrev pub write_job : ℕ → Job → Action Job
write_job id job s =
    ok job (record s { repo = record (s.repo) { by_id = insert id job s.repo.by_id } })

-- GetJob writes through the pointer, so a read changes the repository.
unfoldable pub get_job : ℕ → Action Job
unfolding resolved
get_job id = do
  job ← deref id
  events ← read (list_events id)
  let job' = resolved job events
  write_job id job'

unfoldable pub is_resource_lane : Text → Bool
is_resource_lane lane = lane == lit "jobs:cpu" || lane == lit "jobs:gpu" || lane == lit "jobs:mixed"

abbrev none_given : List Text → Bool
none_given [] = true
none_given (x ∷ xs) = false

unfoldable pub register_worker : RegisterWorkerInput → ℕ → Action Worker
unfolding is_resource_lane
register_worker i now =
    if is_empty (trim_space i.worker_id)
    then err (plain "worker_id is required")
    else if not (is_resource_lane (keyword i.resource_lane))
    then err (plain "resource_lane must be one of jobs:cpu, jobs:gpu, jobs:mixed")
    else if none_given (normalize_worker_strings i.job_types)
    then err (plain "job_types must not be empty")
    else on_repo (
        upsert_worker
          (record {
            worker_id = trim_space i.worker_id;
            resource_lane = keyword i.resource_lane;
            capabilities = normalize_worker_strings i.capabilities;
            job_types = normalize_worker_strings i.job_types;
          })
          now)
