-- ===== src/Jobs/Reports.antt =====
-- What workers report to the Service of internal/jobs/service.go. The time is read once in a call.
pub mod Heartbeat
use yolo_ave_mujica.Base.{
  ℕ, ◌+◌, ◌-◌, ◌*◌, ◌%◌, ◌^◌, ltb, ℤ, pos, is_negative, not_positive, to_nat, Bool, true, false,
  not, ◌&&◌, ◌||◌, if◌then◌else◌, ◌==◌, Text, text_key, is_empty, lit, trim_space, lookup, List, [],
  ◌∷◌, map, Option, none, some, ok, err, Try, value, fault, attempt, ◌>>=◌, ◌>>◌,
}
use yolo_ave_mujica.Jobs.Value.{int, text, int64s, Detail, index, string_value, insert_all}
use yolo_ave_mujica.Jobs.Model.{
  Status, is_final, running, status_text, status_key, Error, validation, plain, Job,
}
use yolo_ave_mujica.Jobs.Repository.{
  claim, touch_lease, Counters, update_progress, complete, store_result_ref,
}
use yolo_ave_mujica.Jobs.EventLog.{append_event}
use yolo_ave_mujica.Jobs.Dispatcher.{Action, on_repo, deref, observe, job_completed}
use yolo_ave_mujica.Jobs.Sweeper.{entry, second}
use yolo_ave_mujica.Jobs.Normalize.{normalize_result_detail, normalize_result_ref}
use yolo_ave_mujica.Jobs.Service.{Service, ReviewCandidateInput}

abbrev pub refuse_if : {A : Type 0} → Bool → Error → Action A → Action A
refuse_if true e m = err e
refuse_if false e m = m

unfoldable pub lease_seconds_of : ℤ → ℕ
lease_seconds_of n = if not_positive n then 30 else to_nat n

-- `time.Now().UTC().Add(time.Duration(seconds) * time.Second)`: the product is an int64 and wraps. Go's
-- time.Now() is far more than 2^63 nanoseconds after the zero time, so the difference is none below it.
unfoldable pub lease_end : ℕ → ℕ → ℕ
lease_end seconds now =
    let d = (seconds * second) % 2 ^ 64 in if ltb d (2 ^ 63) then now + d else now - (2 ^ 64 - d)

-- A heartbeat renews the lease of a running job and claims any other.
unfoldable pub extend_lease : ℕ → Text → ℕ → ℕ → Job → Action Job
extend_lease id worker lease now job =
    if job.status == running
    then on_repo (touch_lease id worker lease)
    else on_repo (claim id worker lease now)

unfoldable pub heartbeat : ℕ → Text → ℕ → ℕ → Action (Unit {0})
unfolding extend_lease lease_end
heartbeat id worker seconds now = do
  job ← deref id
  extend_lease id worker (lease_end seconds now) now job
  on_repo (
      append_event id
        (entry (lit "info") (lit "heartbeat") (lit "worker heartbeat")
          ((lit "worker_id", text worker) ∷ (lit "lease_seconds", int (pos seconds)) ∷ []))
        now)
  ok tt

unfoldable pub report_heartbeat : ℕ → Text → ℤ → ℕ → Action (Unit {0})
unfolding heartbeat lease_seconds_of
report_heartbeat id worker lease_seconds now =
    refuse_if (is_empty worker) validation
      (heartbeat id worker (lease_seconds_of lease_seconds) now)

-- `total < 0 || succeeded < 0 || failed < 0`.
unfoldable pub has_negative : Counters → Bool
has_negative c = is_negative c.total || is_negative c.good || is_negative c.bad

unfoldable pub counter_entries : Counters → Detail
counter_entries c =
    (lit "total_items", int c.total)
    ∷ (lit "succeeded_items", int c.good)
    ∷ (lit "failed_items", int c.bad)
    ∷ []

unfoldable pub progress : ℕ → Text → Counters → ℕ → Action (Unit {0})
progress id worker c now = do
  on_repo (update_progress id worker c now)
  on_repo (
      append_event id
        (entry (lit "info") (lit "progress") (lit "worker progress")
          ((lit "worker_id", text worker) ∷ counter_entries c))
        now)
  ok tt

unfoldable pub report_progress : ℕ → Text → Counters → ℕ → Action (Unit {0})
unfolding progress has_negative
report_progress id worker c now =
    refuse_if (is_empty worker) validation
      (refuse_if (has_negative c) validation (progress id worker c now))

-- The loop that builds the inputs; whatever was sent, a candidate is a pseudo label.
unfoldable pub as_pseudo : List ReviewCandidateInput → List ReviewCandidateInput
as_pseudo = map (λ (c : ReviewCandidateInput). record c { is_pseudo = true })

abbrev length_of : List ℤ → ℕ
length_of [] = 0
length_of (x ∷ xs) = length_of xs + 1

unfoldable pub persisted_detail : Try Error (List ℤ) → Try Error Detail
persisted_detail (fault e) = fault e
persisted_detail (value ids) = value (
    (lit "result_type", text (lit "annotation_candidates"))
    ∷ (lit "result_count", int (pos (length_of ids)))
    ∷ (lit "candidate_ids", int64s ids)
    ∷ [])

unfoldable pub send_candidates :
    (ℕ → List ReviewCandidateInput → Try Error (List ℤ))
    → ℕ
    → Try Error (List ReviewCandidateInput)
    → Try Error Detail
unfolding as_pseudo persisted_detail
send_candidates sink id (fault e) = fault e
send_candidates sink id (value []) = fault (plain "candidates are required")
send_candidates sink id (value (c ∷ cs)) = persisted_detail (sink id (as_pseudo (c ∷ cs)))

unfoldable pub persist_review_candidates : Service → ℕ → Detail → Try Error Detail
unfolding send_candidates
persist_review_candidates svc id detail = elim svc.review_sink [
  | none ↦ fault (plain "review sink is not configured")
  | some sink ↦ elim (lookup (lit "candidates") detail) [
    | none ↦ fault (plain "candidates are required")
    | some raw ↦ send_candidates sink id (svc.decode raw)
  ]
]

unfoldable pub normalize_event_detail : Service → ℕ → Text → Detail → Try Error Detail
unfolding persist_review_candidates
normalize_event_detail svc id typ detail =
    if typ == lit "review_candidates_materialized"
    then persist_review_candidates svc id detail
    else if typ == lit "video_frames_materialized"
    then value (normalize_result_detail detail (lit "video_frames") (lit "frames"))
    else if typ == lit "cleaning_report_materialized"
    then value (normalize_result_detail detail (lit "cleaning_report") (lit "removal_candidates"))
    else value detail

abbrev pub bad_item : Option ℤ → Bool
bad_item none = false
bad_item (some n) = not_positive n

abbrev pub is_missing : Option ℤ → Bool
is_missing none = true
is_missing (some n) = false

unfoldable pub store_typed : ℕ → Detail → Action (Unit {0})
store_typed id detail =
    if is_empty (string_value (index (lit "result_type") detail))
    then ok tt
    else on_repo (store_result_ref id (normalize_result_ref detail)) >> ok tt

unfoldable pub record_event :
    Service → ℕ → Option ℤ → Text → Text → Text → Detail → ℕ → Action (Unit {0})
unfolding store_typed
record_event svc id item level typ message detail now = do
  detail' ← attempt (normalize_event_detail svc id typ detail)
  on_repo (
      append_event id
        (record { item_id = item; level = level; typ = typ; message = message; detail = detail' })
        now)
  store_typed id detail'

unfoldable pub report_event :
    Service → ℕ → Option ℤ → Text → Text → Text → Detail → ℕ → Action (Unit {0})
unfolding record_event
report_event svc id item level typ message detail now = refuse_if (bad_item item) validation (
    refuse_if (is_empty (trim_space typ)) validation (
      refuse_if (is_empty (trim_space message)) validation (
        refuse_if (is_missing item && (typ == lit "item_failed")) validation (
          record_event svc id item (if is_empty (trim_space level) then lit "info" else level) typ
            message detail now))))

unfoldable pub report_item_error : Service → ℕ → ℤ → Text → Detail → ℕ → Action (Unit {0})
unfolding report_event
report_item_error svc id item message detail now =
    report_event svc id (some item) (lit "error") (lit "item_failed") message detail now

unfoldable pub finish : ℕ → Text → Status → Counters → Detail → ℕ → Action (Unit {0})
finish id worker status c ref now = do
  job ← deref id
  on_repo (complete id worker status c now)
  on_repo (
      append_event id
        (entry (lit "info") (lit "terminal") (lit "job completed") (
          insert_all (normalize_result_ref ref) (
            (lit "worker_id", text worker)
            ∷ (lit "status", text (status_text status))
            ∷ counter_entries c)))
        now)
  on_repo (store_result_ref id (normalize_result_ref ref))
  observe (job_completed job.job_type status)

unfoldable pub report_terminal : ℕ → Text → Status → Counters → Detail → ℕ → Action (Unit {0})
unfolding finish has_negative
report_terminal id worker status c ref now = refuse_if (is_empty worker) validation (
    refuse_if (not (is_final status)) validation
      (refuse_if (has_negative c) validation (finish id worker status c ref now)))
