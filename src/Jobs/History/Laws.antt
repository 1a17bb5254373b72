-- ===== src/Jobs/History/Laws.antt =====
-- What holds of the job repository after any history of calls.
use yolo_ave_mujica.Base.{ℕ, ◌≡◌, true, lookup, nat_key, List, [], ◌∷◌, some}
use yolo_ave_mujica.Jobs.Model.{is_final, Job}
use yolo_ave_mujica.Jobs.StateMachine.Lifecycle.{Reach-from_final}
use yolo_ave_mujica.Jobs.Dispatcher.{ServiceState}
use yolo_ave_mujica.Jobs.Sweeper.{Sweeper}
use yolo_ave_mujica.Jobs.Service.{Service}
use yolo_ave_mujica.Jobs.Invariant.{Inv, After, Advances}
use yolo_ave_mujica.Jobs.Invariant.Calls.{Evolves-refl, Evolves-trans}
use yolo_ave_mujica.Jobs.Invariant.Actions.{
  create_job-Keeps, get_job-Keeps, register_worker-Keeps, report_heartbeat-Keeps,
  report_progress-Keeps, report_event-Keeps, report_terminal-Keeps, tick-Keeps,
}
use yolo_ave_mujica.Jobs.History.{
  Call, creates, reads, registers, heartbeats, progresses, logs, finishes, ticks, step, run,
  new_state,
}

pub new_state-Inv : Inv new_state.repo
unfolding new_state lookup
new_state-Inv = record {
  ids = λ k j h. cc;
  sound = λ k j h. cc;
  filed = λ k j h. cc;
  found = λ key k h. cc;
  logged = λ k es h. cc;
}

module _ (svc : Service) (sweeper : Sweeper) where
  pub step-After :
      (c : ℕ × Call) (s : ServiceState) → Inv s.repo → After s.repo (step svc sweeper c s).repo
  unfolding step
  step-After (now, creates i) s inv = (create_job-Keeps svc i now).after s inv
  step-After (now, reads id) s inv = (get_job-Keeps id).after s inv
  step-After (now, registers i) s inv = (register_worker-Keeps i now).after s inv
  step-After (now, heartbeats id w n) s inv = (report_heartbeat-Keeps id w n now).after s inv
  step-After (now, progresses id w c) s inv = (report_progress-Keeps id w c now).after s inv
  step-After (now, logs id item level typ message d) s inv =
      (report_event-Keeps svc id item level typ message d now).after s inv
  step-After (now, finishes id w to c ref) s inv =
      (report_terminal-Keeps id w to c ref now).after s inv
  step-After (now, ticks at) s inv = (tick-Keeps sweeper svc.dispatcher at now).after s inv

  pub run-After :
      (cs : List (ℕ × Call)) (s : ServiceState)
      → Inv s.repo
      → After s.repo (run svc sweeper cs s).repo
  unfolding run
  run-After [] s inv = (inv, Evolves-refl s.repo)
  run-After (c ∷ cs) s inv =
      let (inv', ev) = step-After c s inv in
      let (inv'', ev') = run-After cs (step svc sweeper c s) inv' in
      (
        inv'',
        Evolves-trans s.repo (step svc sweeper c s).repo
            (run svc sweeper cs (step svc sweeper c s)).repo ev ev',
      )

  -- After any history of calls on a new service the repository is well formed.
  pub run-Inv : (cs : List (ℕ × Call)) → Inv (run svc sweeper cs new_state).repo
  run-Inv cs = (run-After cs new_state new_state-Inv).0

  -- Over any history from a well-formed state a job that is there stays there under its id, keeps its
  -- key, its payload and its creation time, and never loses a retry; its status is one that the graph
  -- reaches.
  pub run-Advances :
      (cs : List (ℕ × Call)) (s : ServiceState) (id : ℕ) (j : Job)
      → Inv s.repo
      → lookup id s.repo.by_id ≡ some j
      → (k : Job) × (lookup id (run svc sweeper cs s).repo.by_id ≡ some k) × Advances j k
  run-Advances cs s id j inv h = (run-After cs s inv).1 id j h

  -- No history of calls from a well-formed state changes the status of a job that has ended.
  pub run-final :
      (cs : List (ℕ × Call)) (s : ServiceState) (id : ℕ) (j : Job)
      → Inv s.repo
      → lookup id s.repo.by_id ≡ some j
      → is_final j.status ≡ true
      → (k : Job) × (lookup id (run svc sweeper cs s).repo.by_id ≡ some k) × (k.status ≡ j.status)
  run-final cs s id j inv h final =
      let (k, e, a) = run-Advances cs s id j inv h in (k, e, Reach-from_final a.moved final)
