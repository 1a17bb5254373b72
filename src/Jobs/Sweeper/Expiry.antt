-- ===== src/Jobs/Sweeper/Expiry.antt =====
-- What the second loop of Tick (internal/jobs/sweeper.go) makes of one job, described without the
-- calls of the repository.
use yolo_ave_mujica.Base.{
  ℕ, suc, ◌+◌, ◌≡◌, refl, leb, if◌then◌else◌, Text, lit, lookup, insert, lookup-insert_self,
  nat_key, [], ◌∷◌, ◌++◌, none, some, ok, and_then, Bool-cases, inl, inr,
}
use yolo_ave_mujica.Jobs.Value.{Detail}
use yolo_ave_mujica.Jobs.Model.{running, failed, retry_waiting, Job}
use yolo_ave_mujica.Jobs.StateMachine.{can_transition}
use yolo_ave_mujica.Jobs.Repository.{
  get, guarded, mark_failed, mark_retry_waiting, increment_retry_count,
}
use yolo_ave_mujica.Jobs.Dispatcher.{ServiceState, with_repo, observe, lease_recovery}
use yolo_ave_mujica.Jobs.Dispatcher.Steps.{update_job_changed, append_keeps}
use yolo_ave_mujica.Jobs.Sweeper.{
  Sweeper, classify_lease_retry, retry_backoff_duration, timeout_entry, recovery_entry, give_up,
  retry_later, expire_job, expire,
}

-- The job after it failed, and after it was put off.
abbrev pub failed_job : ℕ → Text → Job → Job
failed_job clock reason job = record job {
  status = failed;
  finished_at = some clock;
  error_code = lit "lease_timeout";
  error_msg = reason;
}

abbrev pub waiting_job : ℕ → Job → Job
waiting_job until job = record job {
  status = retry_waiting;
  lease_until = some until;
  retry_count = suc job.retry_count;
}

-- A job marked fatal fails, a job with no retry left fails, and any other waits for its backoff.
abbrev pub after_expiry : Sweeper → ℕ → ℕ → Job → Job
after_expiry s now clock job =
    if classify_lease_retry job
    then failed_job clock (lit "fatal retry classification") job
    else if leb s.max_retries job.retry_count
    then failed_job clock (lit "retry exhausted") job
    else waiting_job (now + retry_backoff_duration s (suc job.retry_count)) job

running_fails : (job : Job) → job.status ≡ running → can_transition job.status failed ≡ none
unfolding can_transition
running_fails job live = rw live refl

running_waits : (job : Job) → job.status ≡ running → can_transition job.status retry_waiting ≡ none
unfolding can_transition
running_waits job live = rw live refl

module _ (id : ℕ) (s : ServiceState) (job : Job) (at : lookup id s.repo.by_id ≡ some job)
    (live : job.status ≡ running) where
  -- The state with the job rewritten.
  abbrev with_job : Job → ServiceState
  with_job k = record s { repo = record (s.repo) { by_id = insert id k s.repo.by_id } }

  give_up_lem :
      (reason : Text) (more : Detail) (clock : ℕ)
      → (t : ServiceState) × (give_up job reason more clock id s ≡ ok tt t)
        × (lookup id t.repo.by_id ≡ some (failed_job clock reason job))
  unfolding give_up mark_failed guarded
  give_up_lem reason more clock =
      let k = failed_job clock reason job in
      let s' = with_job k in
      let failing : mark_failed id (lit "lease_timeout") reason clock s.repo ≡ ok k s'.repo =
        update_job_changed id _ s.repo job k at (rw (running_fails job live) refl) in
      let (r, e, f) =
        append_keeps id (timeout_entry job more) clock k s' (ok tt)
          (lookup-insert_self id k s.repo.by_id) in
      (record s' { repo = r }, rw (failing, with_repo, and_then) f, e)

  retry_later_lem :
      (backoff now clock : ℕ)
      → (t : ServiceState) × (retry_later backoff now clock job id s ≡ ok tt t)
        × (lookup id t.repo.by_id ≡ some (waiting_job (now + backoff) job))
  unfolding retry_later mark_retry_waiting increment_retry_count guarded
  retry_later_lem backoff now clock =
      let j : Job = record job { status = retry_waiting; lease_until = some (now + backoff) } in
      let k = waiting_job (now + backoff) job in
      let s' = with_job j in
      let waits : mark_retry_waiting id (now + backoff) s.repo ≡ ok j s'.repo =
        update_job_changed id _ s.repo job j at (rw (running_waits job live) refl) in
      let at' : lookup id s'.repo.by_id ≡ some j = lookup-insert_self id j s.repo.by_id in
      let s'' : ServiceState = record s' {
        repo = record (s'.repo) { by_id = insert id k s'.repo.by_id };
      } in
      let counts : increment_retry_count id s'.repo ≡ ok k s''.repo =
        update_job_changed id _ s'.repo j k at' refl in
      let (r, e, f) =
        append_keeps id (recovery_entry now backoff job) clock k s''
          (observe (lease_recovery job.job_type)) (lookup-insert_self id k s'.repo.by_id) in
      (
        record s'' { repo = r; observed = s.observed ++ lease_recovery job.job_type ∷ [] },
        rw (waits, with_repo, and_then) (rw (counts, with_repo, and_then) f),
        e,
      )

  -- The second loop of a tick succeeds on a job that is running, and leaves it failed, with the reason,
  -- if its payload says that a retry is fatal or if it has no retry left; any other it puts off
  -- until its backoff has passed, and counts the retry.
  pub expire_lem :
      (sweeper : Sweeper) (now clock : ℕ)
      → (t : ServiceState) × (expire sweeper now clock id s ≡ ok tt t)
        × (lookup id t.repo.by_id ≡ some (after_expiry sweeper now clock job))
  unfolding expire expire_job get
  expire_lem sweeper now clock = elim (Bool-cases (classify_lease_retry job)) [
    | inl fatal ↦ rw (at, and_then, fatal) (give_up_lem (lit "fatal retry classification") [] clock)
    | inr transient ↦ elim (Bool-cases (leb sweeper.max_retries job.retry_count)) [
      | inl spent ↦
          rw (at, and_then, transient, spent) (give_up_lem (lit "retry exhausted") _ clock)
      | inr left ↦
          rw (at, and_then, transient, left)
            (retry_later_lem (retry_backoff_duration sweeper (suc job.retry_count)) now clock)
    ]
  ]
