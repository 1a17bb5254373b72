-- ===== src/Jobs/Sweeper.antt =====
-- internal/jobs/sweeper.go. Durations are positive and counted in nanoseconds.
pub mod Backoff
pub mod Expiry
use yolo_ave_mujica.Base.{
  ℕ, zero, suc, ◌+◌, ◌-◌, ◌*◌, ◌/◌, ◌%◌, ◌^◌, ℤ, pos, not_positive, to_nat, ltb, leb, Bool, true,
  false, if◌then◌else◌, ◌==◌, Text, text_key, lit, keyword, lookup, List, [], ◌∷◌, Option, none,
  some, ok, err, ◌>>=◌, ◌>>◌,
}
use yolo_ave_mujica.Jobs.Value.{
  Value, null, bool, int, real, text, time, obj, Detail, detail_of, index,
}
use yolo_ave_mujica.Jobs.Model.{queued, Job}
use yolo_ave_mujica.Jobs.Repository.{
  update_status, mark_failed, mark_retry_waiting, increment_retry_count, list_retry_ready,
  list_expired_running,
}
use yolo_ave_mujica.Jobs.EventLog.{EventInput, append_event}
use yolo_ave_mujica.Jobs.Dispatcher.{
  Publisher, Action, on_repo, read, deref, observe, lease_recovery, publish, lane_for,
}

pub record Sweeper : Type 0 where
  pub max_retries : ℕ
  pub backoff_base : ℕ
  pub backoff_max : ℕ

abbrev pub second : ℕ
second = 1_000_000_000

unfoldable pub new_sweeper : ℤ → Sweeper
new_sweeper max_retries = record {
  max_retries = if not_positive max_retries then 3 else to_nat max_retries;
  backoff_base = 5 * second;
  backoff_max = 60 * second;
}

unfoldable pub with_retry_backoff : ℤ → ℤ → Sweeper → Sweeper
with_retry_backoff base max s =
    let base' = if not_positive base then 5 * second else to_nat base in
    record s {
      backoff_base = base';
      backoff_max = if ltb (to_nat max) base' then base' else to_nat max;
    }

-- The text of fmt.Sprint. A number, a list, a map or a time prints with a digit, a bracket or a
-- sign, so never as a classification; the empty text stands for its print.
unfoldable pub sprint : Value → Text
sprint (text t) = t
sprint null = lit "<nil>"
sprint (bool true) = lit "true"
sprint (bool false) = lit "false"
sprint _ = []

unfoldable pub classification_of : Value → Bool
unfolding sprint
classification_of (obj policy) =
    keyword (sprint (index (lit "classification") (detail_of policy))) == lit "fatal"
classification_of _ = false

-- Whether classifyLeaseRetry answers "fatal"; it answers "transient" otherwise.
unfoldable pub classify_lease_retry : Job → Bool
unfolding classification_of
classify_lease_retry job = elim (lookup (lit "retry_policy") job.payload) [
  | none ↦ false
  | some policy ↦ classification_of policy
]

-- The loop of retryBackoffDuration with the rounds left; `delay *= 2` in 64 bits.
unfoldable pub backoff_loop : ℕ → ℕ → ℕ → ℕ
backoff_loop zero delay max = if ltb max delay then max else delay
backoff_loop (suc rounds) delay max =
    let rest = backoff_loop rounds ((delay * 2) % 2 ^ 64) max in
    if leb max delay then max else if ltb (max / 2) delay then max else rest

unfoldable pub retry_backoff_duration : Sweeper → ℕ → ℕ
unfolding backoff_loop
retry_backoff_duration s retry_count =
    if leb retry_count 1
    then s.backoff_base
    else backoff_loop (retry_count - 1) s.backoff_base s.backoff_max

abbrev pub entry : Text → Text → Text → Detail → EventInput
entry level typ message detail = record {
  item_id = none;
  level = level;
  typ = typ;
  message = message;
  detail = detail;
}

-- The body of the first loop of Tick. The time is read once in a tick.
unfoldable pub requeue : Option Publisher → ℕ → ℕ → Action (Unit {0})
requeue d clock id = do
  before ← deref id
  job ← on_repo (update_status id queued clock)
  on_repo (
      append_event id
        (entry (lit "info") (lit "retry_requeued") (lit "retry backoff elapsed; job requeued") (
          (lit "retry_count", int (pos job.retry_count))
          ∷ (lit "resource_lane", text (lane_for job.required_resource_type))
          ∷ (lit "retry_at", time before.lease_until)
          ∷ []))
        clock)
  publish d job

unfoldable pub classification_text : Job → Value
unfolding classify_lease_retry
classification_text job = text (if classify_lease_retry job then lit "fatal" else lit "transient")

unfoldable pub timeout_entry : Job → Detail → EventInput
unfolding classification_text
timeout_entry job more =
    entry (lit "error") (lit "lease_timeout") (lit "job failed after lease expiry") (
      (lit "worker_id", text job.worker_id)
      ∷ (lit "retry_classification", classification_text job)
      ∷ more)

-- The branch of Tick for a job that is not retried.
unfoldable pub give_up : Job → Text → Detail → ℕ → ℕ → Action (Unit {0})
give_up job reason more clock id = do
  on_repo (mark_failed id (lit "lease_timeout") reason clock)
  on_repo (append_event id (timeout_entry job more) clock)
  ok tt

unfoldable pub recovery_entry : ℕ → ℕ → Job → EventInput
unfolding classification_text
recovery_entry now backoff job =
    entry (lit "warn") (lit "lease_recovered") (lit "lease expired; job scheduled for retry") (
      (lit "worker_id", text job.worker_id)
      ∷ (lit "retry_classification", classification_text job)
      ∷ (lit "retry_count", int (pos (suc job.retry_count)))
      ∷ (lit "retry_backoff_seconds", real (pos (backoff / second)))
      ∷ (lit "retry_at", time (some (now + backoff)))
      ∷ [])

-- The branch of Tick that schedules the next attempt, after `backoff`.
unfoldable pub retry_later : ℕ → ℕ → ℕ → Job → ℕ → Action (Unit {0})
retry_later backoff now clock job id = do
  on_repo (mark_retry_waiting id (now + backoff))
  on_repo (increment_retry_count id)
  on_repo (append_event id (recovery_entry now backoff job) clock)
  observe (lease_recovery job.job_type)

-- The body of the second loop of Tick, for the job behind the pointer.
unfoldable pub expire_job : Sweeper → ℕ → ℕ → ℕ → Job → Action (Unit {0})
unfolding give_up retry_later classify_lease_retry
expire_job s now clock id job =
    if classify_lease_retry job
    then give_up job (lit "fatal retry classification") [] clock id
    else if leb s.max_retries job.retry_count
    then give_up job (lit "retry exhausted") ((lit "retry_count", int (pos job.retry_count)) ∷ [])
        clock id
    else retry_later (retry_backoff_duration s (suc job.retry_count)) now clock job id

unfoldable pub expire : Sweeper → ℕ → ℕ → ℕ → Action (Unit {0})
unfolding expire_job
expire s now clock id = deref id >>= expire_job s now clock id

-- `for _, job := range jobs { if err := … { return err } }`.
unfoldable pub for_each : (ℕ → Action (Unit {0})) → List ℕ → Action (Unit {0})
for_each body [] = ok tt
for_each body (id ∷ ids) = body id >> for_each body ids

unfoldable pub tick : Sweeper → Option Publisher → ℕ → ℕ → Action (Unit {0})
unfolding for_each requeue expire
tick s d now clock = do
  ready ← read (list_retry_ready now)
  for_each (requeue d clock) ready
  expired ← read (list_expired_running now)
  for_each (expire s now clock) expired
