-- ===== src/Jobs/History/Changes.antt =====
-- What each call of the job service and the sweeper (internal/jobs/service.go, sweeper.go) may change of the
-- status of a job.
use yolo_ave_mujica.Base.{
  ℕ, ◌<◌, ◌≡◌, refl, inl, inr, false, lookup, lookup-insert, nat_key, nat_beq, text_key, List, some,
  Try-cases, Option-cases, attempt, and_then, state_of, arith,
}
use yolo_ave_mujica.Jobs.Model.{Status, Job, CreateJobInput}
use yolo_ave_mujica.Jobs.Repository.{InMemoryRepository, create_or_get, idempotency_key, new_job}
use yolo_ave_mujica.Jobs.Dispatcher.{ServiceState, with_repo}
use yolo_ave_mujica.Jobs.Sweeper.{Sweeper}
use yolo_ave_mujica.Jobs.Service.{Service, normalize_input, submitted, create_job}
use yolo_ave_mujica.Jobs.Invariant.{Inv, Advances}
use yolo_ave_mujica.Jobs.Invariant.Moves.{Follows, and_then-Follows, with_repo-Follows}
use yolo_ave_mujica.Jobs.Invariant.Changes.{
  Same, Same-IsOrder, Starts, Ends, Sweeps, report_heartbeat-Moves, report_progress-Moves,
  report_event-Moves, report_terminal-Moves, tick-Moves, submitted-Moves, register_worker-Moves,
  get_job-Moves,
}
use yolo_ave_mujica.Jobs.History.{
  Call, creates, reads, registers, heartbeats, progresses, logs, finishes, ticks, step, run,
}
use yolo_ave_mujica.Jobs.History.Laws.{step-After, run-After}
use yolo_ave_mujica.Jobs.History.Dispatch.{create_job_normal}

abbrev pub Change : Call → Status → Status → Type 0
Change (heartbeats id w n) = Starts
Change (progresses id w c) = Starts
Change (finishes id w to c ref) = Ends to
Change (ticks at) = Sweeps
Change (creates i) = Same
Change (reads id) = Same
Change (registers i) = Same
Change (logs id item level typ message d) = Same

create_or_get-Follows :
    (i : CreateJobInput) (now : ℕ) (r : InMemoryRepository)
    → Inv r
    → Follows Same r (state_of (create_or_get i now r))
unfolding create_or_get
create_or_get-Follows i now r inv id j at =
    elim (Option-cases (lookup (idempotency_key i) r.by_key)) [
      | inr (n, e) ↦ rw (e, create_or_get, state_of) (j, at, refl)
      | inl e ↦
          let below : id < r.next_id = (inv.ids id j at).1 in
          let other : nat_beq r.next_id id ≡ false = ground arith in
          rw (e, create_or_get, state_of)
            (j, rw (lookup-insert id r.next_id (new_job r.next_id i now) r.by_id, other) at, refl)
    ]

create_job-Follows :
    (svc : Service) (i : CreateJobInput) (now : ℕ) (s : ServiceState)
    → Inv s.repo
    → Follows Same s.repo (state_of (create_job svc i now s)).repo
unfolding create_job
create_job-Follows svc i now s inv = elim (Try-cases (normalize_input i)) [
  | inl (x, e) ↦ rw (e, attempt, and_then, state_of) (λ id j at. (j, at, refl))
  | inr (i', e) ↦
      let got = create_or_get-Follows i' now s.repo inv in
      rw (create_job_normal svc i i' e now s) (
        and_then-Follows Same Same Same (λ a b h. h) Same-IsOrder.compose s.repo
          (with_repo s (create_or_get i' now s.repo)) (submitted svc.dispatcher now)
          (with_repo-Follows Same Same-IsOrder s (create_or_get i' now s.repo) got)
          (submitted-Moves svc.dispatcher now))
]

module _ (svc : Service) (sweeper : Sweeper) where
  step-Follows :
      (c : ℕ × Call) (s : ServiceState)
      → Inv s.repo
      → Follows (Change c.1) s.repo (step svc sweeper c s).repo
  unfolding step
  step-Follows (now, creates i) s inv = create_job-Follows svc i now s inv
  step-Follows (now, reads id) s inv = (get_job-Moves id).follows s
  step-Follows (now, registers i) s inv = (register_worker-Moves i now).follows s
  step-Follows (now, heartbeats id w n) s inv = (report_heartbeat-Moves id w n now).follows s
  step-Follows (now, progresses id w c) s inv = (report_progress-Moves id w c now).follows s
  step-Follows (now, logs id item level typ message d) s inv =
      (report_event-Moves svc id item level typ message d now).follows s
  step-Follows (now, finishes id w to c ref) s inv =
      (report_terminal-Moves id w to c ref now).follows s
  step-Follows (now, ticks at) s inv = (tick-Moves sweeper svc.dispatcher at now).follows s

  -- Over any history from a well-formed state a job that is there stays there under its id, keeps its key,
  -- its payload and its creation time, and never loses a retry. A further call keeps all that too, and may
  -- change the job's status only so: a heartbeat or a progress report makes a queued job run; a terminal
  -- report makes a job that is queued, running or waiting for a retry end with the final status that it names;
  -- a tick of the sweeper queues a job that waits for a retry, or makes a running job wait for one or fail.
  -- No other call changes a status.
  pub run-Change :
      (cs : List (ℕ × Call)) (c : ℕ × Call) (s : ServiceState) (id : ℕ) (j : Job)
      → Inv s.repo
      → lookup id s.repo.by_id ≡ some j
      → let t = run svc sweeper cs s in
        (k : Job) × (lookup id t.repo.by_id ≡ some k)
        × Advances j k
        × ((l : Job) × (lookup id (step svc sweeper c t).repo.by_id ≡ some l)
            × Advances k l
            × Change c.1 k.status l.status)
  run-Change cs c s id j inv at =
      let t = run svc sweeper cs s in
      let (inv', ev) = run-After svc sweeper cs s inv in
      let (k, at', a) = ev id j at in
      let (l, at'', b) = (step-After svc sweeper c t inv').1 id k at' in
      let (m, at3, changed) = step-Follows c t inv' id k at' in
      let same : m ≡ l = ground arith in (k, at', a, (l, at'', b, rw same at changed))
