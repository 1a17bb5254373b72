-- ===== src/Jobs/Invariant/Bodies.antt =====
-- What each method of InMemoryRepository does to its job is an allowed change.
use yolo_ave_mujica.Base.{
  ℕ, suc, ◌≤◌, ◌≡◌, refl, inl, inr, Bool-cases, true, false, Text, Option, none, some, arith, value,
  if◌then◌else◌, ◌==◌, [], ◌∷◌,
}
use yolo_ave_mujica.Jobs.Value.{Detail}
use yolo_ave_mujica.Jobs.Model.{
  Status, is_final, queued, running, succeeded, failed, retry_waiting, status_key, Error, Job,
}
use yolo_ave_mujica.Jobs.StateMachine.{can_transition}
use yolo_ave_mujica.Jobs.StateMachine.Lifecycle.{
  start, retry, Reach, here, along, can_transition_iff, Edge-from_final,
}
use yolo_ave_mujica.Jobs.Repository.{
  guarded, set_status, claim_job, Counters, set_counters, start_job, progress_job, effective_status,
  or_now, update_job, store_result, update_status, claim, touch_lease, update_progress, complete,
  increment_retry_count, mark_retry_waiting, mark_failed, store_result_ref,
}
use yolo_ave_mujica.Jobs.Invariant.{IsSound, RepoKeeps}
use yolo_ave_mujica.Jobs.Invariant.Writes.{IsStep, update_job-RepoKeeps}

Reach-of_accepted : (s t : Status) → can_transition s t ≡ none → Reach s t
Reach-of_accepted s t h = elim ((can_transition_iff s t).0 h) [
  | inl e ↦ rw e here
  | inr e ↦ along e here
]

pub Reach-of_eq : {s t : Status} → t ≡ s → Reach s t
Reach-of_eq e = rw e here

-- Only a job that has not ended can become one that has not.
live_of_accepted :
    (s t : Status) → can_transition s t ≡ none → is_final t ≡ false → is_final s ≡ false
live_of_accepted s t h l = elim ((can_transition_iff s t).0 h) [
  | inl e ↦ rw e l
  | inr e ↦ Edge-from_final e
]

-- A change that keeps what identifies the job, given how its status moves.
pub step :
    (j k : Job)
    → (k.id ≡ j.id)
      × (k.project_id ≡ j.project_id)
      × (k.job_type ≡ j.job_type)
      × (k.idempotency_key ≡ j.idempotency_key)
      × (k.payload ≡ j.payload)
      × (k.created_at ≡ j.created_at)
      × (j.retry_count ≤ k.retry_count)
    → Reach j.status k.status
    → (IsSound j → IsSound k)
    → IsStep j k
step j k (a, b, c, d, e, f, g) moved keeps = record {
  advances = record {
    same_id = a;
    same_key = rw (b, c, d) refl;
    same_payload = e;
    same_creation = f;
    moved = moved;
    retried = g;
  };
  keeps = keeps;
}

claim-Reach : (s : Status) → Reach s (if s == queued then running else s)
claim-Reach queued = along start here
claim-Reach _ = here

pure-RepoKeeps :
    (id : ℕ) (f : Job → Job)
    → ((j : Job) → IsStep j (f j))
    → RepoKeeps (update_job id (λ j. value (f j)))
pure-RepoKeeps id f steps =
    update_job-RepoKeeps id (λ j. value (f j))
      λ j k h. let e : k ≡ f j = ground arith in rw e (steps j)

guarded-RepoKeeps :
    (id : ℕ) (test : Job → Option Error) (f : Job → Job)
    → ((j : Job) → test j ≡ none → IsStep j (f j))
    → RepoKeeps (update_job id (λ j. guarded (test j) (f j)))
unfolding guarded
guarded-RepoKeeps id test f steps =
    update_job-RepoKeeps id (λ j. guarded (test j) (f j))
      λ j k h. let e : k ≡ f j = ground arith in rw e (steps j (ground arith))

claim-IsStep : (w : Text) (lease now : ℕ) (j : Job) → IsStep j (claim_job w lease now j)
unfolding claim_job
claim-IsStep w lease now j =
    step j (claim_job w lease now j) (refl, refl, refl, refl, refl, refl, omega arith)
      (claim-Reach j.status) (λ s. ground arith)

pub claim-RepoKeeps : (id : ℕ) (w : Text) (lease now : ℕ) → RepoKeeps (claim id w lease now)
unfolding claim
claim-RepoKeeps id w lease now =
    pure-RepoKeeps id (claim_job w lease now) (claim-IsStep w lease now)

pub touch_lease-RepoKeeps : (id : ℕ) (w : Text) (lease : ℕ) → RepoKeeps (touch_lease id w lease)
unfolding touch_lease
touch_lease-RepoKeeps id w lease =
    pure-RepoKeeps id (λ j. record j { worker_id = w; lease_until = some lease })
      λ j.
        step j (record j { worker_id = w; lease_until = some lease })
          (refl, refl, refl, refl, refl, refl, omega arith) here (λ s. ground arith)

pub increment_retry_count-RepoKeeps : (id : ℕ) → RepoKeeps (increment_retry_count id)
unfolding increment_retry_count
increment_retry_count-RepoKeeps id =
    pure-RepoKeeps id (λ j. record j { retry_count = suc j.retry_count })
      λ j.
        step j (record j { retry_count = suc j.retry_count })
          (refl, refl, refl, refl, refl, refl, omega arith) here (λ s. ground arith)

store_result-IsStep : (ref : Detail) (j : Job) → IsStep j (store_result ref j)
unfolding store_result
store_result-IsStep [] j = step j j (refl, refl, refl, refl, refl, refl, omega arith) here (λ s. s)
store_result-IsStep (e ∷ es) j =
    step j (store_result (e ∷ es) j) (refl, refl, refl, refl, refl, refl, omega arith) here
      (λ s. ground arith)

pub store_result_ref-RepoKeeps : (id : ℕ) (ref : Detail) → RepoKeeps (store_result_ref id ref)
unfolding store_result_ref
store_result_ref-RepoKeeps id ref = pure-RepoKeeps id (store_result ref) (store_result-IsStep ref)

-- The sweeper is the only caller, and asks for `queued`.
pub requeue_status-RepoKeeps : (id now : ℕ) → RepoKeeps (update_status id queued now)
unfolding update_status
requeue_status-RepoKeeps id now =
    guarded-RepoKeeps id (λ j. can_transition j.status queued) (set_status queued now)
      λ j h.
        step j (set_status queued now j) (refl, refl, refl, refl, refl, refl, omega arith)
          (Reach-of_accepted j.status queued h)
          (λ s. ground (arith, live_of_accepted j.status queued h))

pub mark_retry_waiting-RepoKeeps : (id at : ℕ) → RepoKeeps (mark_retry_waiting id at)
unfolding mark_retry_waiting
mark_retry_waiting-RepoKeeps id at =
    guarded-RepoKeeps id (λ j. can_transition j.status retry_waiting)
      (λ j. record j { status = retry_waiting; lease_until = some at })
      λ j h.
        step j (record j { status = retry_waiting; lease_until = some at })
          (refl, refl, refl, refl, refl, refl, omega arith)
          (Reach-of_accepted j.status retry_waiting h)
          (λ s. ground (arith, live_of_accepted j.status retry_waiting h))

pub mark_failed-RepoKeeps :
    (id : ℕ) (code msg : Text) (now : ℕ) → RepoKeeps (mark_failed id code msg now)
unfolding mark_failed
mark_failed-RepoKeeps id code msg now =
    guarded-RepoKeeps id (λ j. can_transition j.status failed)
      (λ j. record j {
        status = failed;
        finished_at = some now;
        error_code = code;
        error_msg = msg;
      })
      λ j h.
        step j
          (record j { status = failed; finished_at = some now; error_code = code; error_msg = msg })
          (refl, refl, refl, refl, refl, refl, omega arith) (Reach-of_accepted j.status failed h)
          (λ s. ground arith)

progress-IsStep :
    (w : Text) (c : Counters) (now : ℕ) (j k : Job) → progress_job w c now j ≡ value k → IsStep j k
unfolding progress_job
progress-IsStep w c now j k h = elim (Bool-cases (j.status == running)) [
  | inl e ↦
      let f : k ≡ set_counters w c j = ground arith in
      rw f (
        step j (set_counters w c j) (refl, refl, refl, refl, refl, refl, omega arith) here
          (λ s. ground arith))
  | inr e ↦
      let f : k ≡ set_counters w c (start_job now j) = ground arith in
      let a : can_transition j.status running ≡ none = ground arith in
      rw f (
        step j (set_counters w c (start_job now j))
          (refl, refl, refl, refl, refl, refl, omega arith) (Reach-of_accepted j.status running a)
          (λ s. ground (arith, live_of_accepted j.status running a)))
]

pub update_progress-RepoKeeps :
    (id : ℕ) (w : Text) (c : Counters) (now : ℕ) → RepoKeeps (update_progress id w c now)
unfolding update_progress
update_progress-RepoKeeps id w c now =
    update_job-RepoKeeps id (progress_job w c now) (progress-IsStep w c now)

-- A waiting job that is completed counts as run, so the edges on its way are legal ones.
complete-Reach : (s t : Status) → can_transition (effective_status s) t ≡ none → Reach s t
unfolding effective_status
complete-Reach queued t h = along start (Reach-of_accepted running t h)
complete-Reach retry_waiting t h = along retry (along start (Reach-of_accepted running t h))
complete-Reach s t h = Reach-of_accepted s t h

completed : Text → Status → Counters → ℕ → Job → Job
completed w to c now j =
    set_counters w c
      (record j { started_at = or_now j.started_at now; status = to; finished_at = some now })

completed-IsSound :
    (w : Text) (to : Status) (c : Counters) (now : ℕ) (j : Job)
    → is_final to ≡ true
    → IsSound (completed w to c now j)
unfolding completed set_counters
completed-IsSound w succeeded c now j h = ground arith
completed-IsSound w to c now j h = ground arith

pub complete-RepoKeeps :
    (id : ℕ) (w : Text) (to : Status) (c : Counters) (now : ℕ)
    → is_final to ≡ true
    → RepoKeeps (complete id w to c now)
unfolding complete completed
complete-RepoKeeps id w to c now final =
    guarded-RepoKeeps id (λ j. can_transition (effective_status j.status) to) (completed w to c now)
      λ j h.
        step j (completed w to c now j) (refl, refl, refl, refl, refl, refl, omega arith)
          (complete-Reach j.status to h) (λ s. completed-IsSound w to c now j final)
