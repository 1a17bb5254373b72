-- ===== src/Jobs/Model.antt =====
-- internal/jobs/model.go and errors.go: the statuses, the job record, workers, events and errors.
-- Times count nanoseconds after Go's zero time; ids and retry counts do not wrap.
use yolo_ave_mujica.Base.{
  ℕ, ℤ, Bool, true, false, ◌≡◌, String, Text, lit, text_beq, text_beq_iff, ◌↔◌, Key, List, Option,
  arith,
}
use yolo_ave_mujica.Jobs.Value.{Detail}

-- The status constants. `other` stands for any text that is none of them.
pub data Status : Type 0 where
  queued running succeeded succeeded_with_errors failed canceled retry_waiting : Status
  other : Text → Status

-- The kinds of typedError, an errors.New with its message, and the error of a publisher.
pub data Error : Type 0 where
  not_found conflict validation : Error
  plain : String → Error
  delivery : Text → Error

pub record Job : Type 0 where
  pub id : ℕ
  pub project_id : ℤ
  pub dataset_id : ℤ
  pub snapshot_id : ℤ
  pub job_type : Text
  pub status : Status
  pub required_resource_type : Text
  pub required_capabilities : List Text
  pub idempotency_key : Text
  pub worker_id : Text
  pub payload : Detail
  pub total_items : ℤ
  pub succeeded_items : ℤ
  pub failed_items : ℤ
  pub created_at : ℕ
  pub started_at : Option ℕ
  pub finished_at : Option ℕ
  pub lease_until : Option ℕ
  pub retry_count : ℕ
  pub error_code : Text
  pub error_msg : Text
  pub result_type : Text
  pub result_count : ℤ
  pub result_artifact_ids : List ℤ
  pub result_ref : Detail

pub record Worker : Type 0 where
  pub worker_id : Text
  pub resource_lane : Text
  pub capabilities : List Text
  pub job_types : List Text
  pub registered_at : ℕ
  pub last_seen_at : ℕ

pub record CreateJobInput : Type 0 where
  pub project_id : ℤ
  pub dataset_id : ℤ
  pub snapshot_id : ℤ
  pub job_type : Text
  pub required_resource_type : Text
  pub required_capabilities : List Text
  pub idempotency_key : Text
  pub payload : Detail

pub record RegisterWorkerInput : Type 0 where
  pub worker_id : Text
  pub resource_lane : Text
  pub capabilities : List Text
  pub job_types : List Text

pub record Event : Type 0 where
  pub id : ℕ
  pub job_id : ℕ
  pub item_id : Option ℤ
  pub event_level : Text
  pub event_type : Text
  pub message : Text
  pub detail : Detail
  pub ts : ℕ

-- The four statuses that end a job.
abbrev pub is_final : Status → Bool
is_final succeeded = true
is_final succeeded_with_errors = true
is_final failed = true
is_final canceled = true
is_final _ = false

-- The text of a status.
unfoldable pub status_text : Status → Text
status_text queued = lit "queued"
status_text running = lit "running"
status_text succeeded = lit "succeeded"
status_text succeeded_with_errors = lit "succeeded_with_errors"
status_text failed = lit "failed"
status_text canceled = lit "canceled"
status_text retry_waiting = lit "retry_waiting"
status_text (other t) = t

abbrev pub status_beq : Status → Status → Bool
status_beq queued queued = true
status_beq running running = true
status_beq succeeded succeeded = true
status_beq succeeded_with_errors succeeded_with_errors = true
status_beq failed failed = true
status_beq canceled canceled = true
status_beq retry_waiting retry_waiting = true
status_beq (other s) (other t) = text_beq s t
status_beq _ _ = false

pub status_beq_iff : (s t : Status) → (status_beq s t ≡ true) ↔ (s ≡ t)
status_beq_iff (other s) (other t) = ground (arith, text_beq_iff s t)
status_beq_iff _ _ = ground arith

instance abbrev pub status_key : Key Status
status_key = record { same = status_beq; same_iff = status_beq_iff }
