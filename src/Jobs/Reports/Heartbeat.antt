-- ===== src/Jobs/Reports/Heartbeat.antt =====
-- What a heartbeat and a progress report make of a job (ReportHeartbeat and ReportProgress of
-- internal/jobs/service.go).
use yolo_ave_mujica.Base.{
  ℕ, ◌+◌, ◌*◌, ◌%◌, ◌^◌, ◌≤◌, ◌<◌, ℤ, pos, ◌≡◌, refl, false, if◌then◌else◌, ◌==◌, Text, is_empty,
  lit, lookup, insert, lookup-insert_self, nat_key, [], ◌∷◌, some, ok, value, and_then, arith,
  Bool-cases, inl, inr, ◌⊎◌,
}
use yolo_ave_mujica.Jobs.Value.{int, text}
use yolo_ave_mujica.Jobs.Model.{queued, running, status_key, status_beq, Job}
use yolo_ave_mujica.Jobs.StateMachine.{can_transition}
use yolo_ave_mujica.Jobs.Repository.{
  get, claim_job, claim, touch_lease, Counters, progress_job, update_progress,
}
use yolo_ave_mujica.Jobs.Dispatcher.{ServiceState, with_repo}
use yolo_ave_mujica.Jobs.Dispatcher.Steps.{update_job_changed, append_keeps}
use yolo_ave_mujica.Jobs.Sweeper.{entry, second}
use yolo_ave_mujica.Jobs.Reports.{
  lease_seconds_of, lease_end, heartbeat, extend_lease, report_heartbeat, has_negative,
  counter_entries, progress, report_progress, refuse_if,
}

-- The job with its new worker and lease. Only a queued job changes its status.
abbrev pub beating : Text → ℕ → ℕ → Job → Job
beating worker lease now job = record job {
  worker_id = worker;
  lease_until = some lease;
  status = if job.status == queued then running else job.status;
  started_at = if job.status == queued then some now else job.started_at;
}

-- The job with its new counters. A queued job starts, and has no lease.
abbrev pub progressed : Text → Counters → ℕ → Job → Job
progressed worker c now job = record job {
  worker_id = worker;
  total_items = c.total;
  succeeded_items = c.good;
  failed_items = c.bad;
  status = running;
  started_at = if job.status == running then job.started_at else some now;
}

progress_job_lem :
    (worker : Text) (c : Counters) (now : ℕ) (job : Job)
    → (job.status ≡ queued) ⊎ (job.status ≡ running)
    → progress_job worker c now job ≡ value (progressed worker c now job)
unfolding progress_job can_transition
progress_job_lem worker c now job live = ground arith

lease_end-exact :
    (seconds now : ℕ) → seconds ≤ 9_223_372_036 → lease_end seconds now ≡ now + seconds * second
unfolding lease_end
lease_end-exact seconds now short =
    let fits : seconds * second % 2 ^ 64 ≡ seconds * second = omega arith in rw fits (ground arith)

lease_end-past :
    (seconds now : ℕ)
    → 9_223_372_037 ≤ seconds
    → seconds ≤ 18_446_744_073
    → 0 < now
    → lease_end seconds now < now
unfolding lease_end
lease_end-past seconds now long bounded later =
    let fits : seconds * second % 2 ^ 64 ≡ seconds * second = omega arith in rw fits (ground arith)

module _ (id : ℕ) (s : ServiceState) (job : Job) (at : lookup id s.repo.by_id ≡ some job)
    (worker : Text) (named : is_empty worker ≡ false) (now : ℕ) where
  abbrev with_job : Job → ServiceState
  with_job k = record s { repo = record (s.repo) { by_id = insert id k s.repo.by_id } }

  extend_lease_lem :
      (lease : ℕ)
      → extend_lease id worker lease now job s
        ≡ ok (beating worker lease now job) (with_job (beating worker lease now job))
  unfolding extend_lease touch_lease claim
  extend_lease_lem lease =
      let k = beating worker lease now job in
      elim (Bool-cases (job.status == running)) [
        | inl runs ↦
            let idle : status_beq job.status queued ≡ false = ground arith in
            let touched : touch_lease id worker lease s.repo ≡ ok k (with_job k).repo =
              update_job_changed id _ s.repo job k at (rw idle refl) in
            rw (runs, extend_lease) (rw (touched, with_repo) refl)
        | inr waits ↦
            let claimed : claim id worker lease now s.repo ≡ ok k (with_job k).repo =
              update_job_changed id _ s.repo job k at (unfold claim_job in refl) in
            rw (waits, extend_lease) (rw (claimed, with_repo) refl)
      ]

  heartbeat_lem :
      (lease_seconds : ℤ)
      → (t : ServiceState) × (report_heartbeat id worker lease_seconds now s ≡ ok tt t)
        × (lookup id t.repo.by_id
            ≡ some (beating worker (lease_end (lease_seconds_of lease_seconds) now) now job))
  unfolding report_heartbeat heartbeat get
  heartbeat_lem lease_seconds =
      let seconds = lease_seconds_of lease_seconds in
      let lease = lease_end seconds now in
      let k = beating worker lease now job in
      let (r, e, f) =
        append_keeps id
          (entry (lit "info") (lit "heartbeat") (lit "worker heartbeat")
            ((lit "worker_id", text worker) ∷ (lit "lease_seconds", int (pos seconds)) ∷ []))
          now k (with_job k) (ok tt) (lookup-insert_self id k s.repo.by_id) in
      (
        record (with_job k) { repo = r },
        rw (named, refuse_if, at, and_then) (rw (extend_lease_lem lease, and_then) f),
        e,
      )

  -- A heartbeat with a worker's name on any job that exists, for a lease of at most 9223372036 seconds,
  -- succeeds: the job belongs to that worker until the lease ends, that many seconds (30, if not positive)
  -- from now, and starts if it was queued. In any other status, also while it waits for a retry or after it
  -- ended, it keeps its status, and its lease time is overwritten all the same.
  pub report_heartbeat_lem :
      (lease_seconds : ℤ)
      → lease_seconds_of lease_seconds ≤ 9_223_372_036
      → (t : ServiceState) × (report_heartbeat id worker lease_seconds now s ≡ ok tt t)
        × (lookup id t.repo.by_id
            ≡ some (beating worker (now + lease_seconds_of lease_seconds * second) now job))
  report_heartbeat_lem lease_seconds short =
      rw (← lease_end-exact (lease_seconds_of lease_seconds) now short)
        (heartbeat_lem lease_seconds)

  -- A heartbeat with a worker's name on any job that exists, for a lease of 9223372037 to 18446744073
  -- seconds, succeeds too, but the lease that it gives the job has ended before now.
  pub report_heartbeat_wraps :
      (lease_seconds : ℤ)
      → 9_223_372_037 ≤ lease_seconds_of lease_seconds
      → lease_seconds_of lease_seconds ≤ 18_446_744_073
      → 0 < now
      → (t : ServiceState) × (lease : ℕ) × (report_heartbeat id worker lease_seconds now s
          ≡ ok tt t)
        × (lookup id t.repo.by_id ≡ some (beating worker lease now job))
        × (lease < now)
  report_heartbeat_wraps lease_seconds long bounded later =
      let seconds = lease_seconds_of lease_seconds in
      let (t, e, f) = heartbeat_lem lease_seconds in
      (t, lease_end seconds now, e, f, lease_end-past seconds now long bounded later)

  -- A progress report with a worker's name and counters that are not negative succeeds on a job that
  -- is queued or running, and leaves it running with these counters; a job that was queued starts
  -- without a lease.
  pub report_progress_lem :
      (c : Counters)
      → has_negative c ≡ false
      → (job.status ≡ queued) ⊎ (job.status ≡ running)
      → (t : ServiceState) × (report_progress id worker c now s ≡ ok tt t)
        × (lookup id t.repo.by_id ≡ some (progressed worker c now job))
  unfolding report_progress progress update_progress
  report_progress_lem c natural live =
      let k = progressed worker c now job in
      let moved : update_progress id worker c now s.repo ≡ ok k (with_job k).repo =
        update_job_changed id _ s.repo job k at (progress_job_lem worker c now job live) in
      let (r, e, f) =
        append_keeps id
          (entry (lit "info") (lit "progress") (lit "worker progress")
            ((lit "worker_id", text worker) ∷ counter_entries c))
          now k (with_job k) (ok tt) (lookup-insert_self id k s.repo.by_id) in
      (
        record (with_job k) { repo = r },
        rw (named, natural, refuse_if) (rw (moved, with_repo, and_then) f),
        e,
      )
