-- ===== src/Jobs/Tests.antt =====
-- The job theorems at concrete inputs, and runs of the job service.
use yolo_ave_mujica.Base.{
  ℕ, ◌+◌, ◌*◌, ◌^◌, ◌<◌, pos, ◌≡◌, refl, inr, lit, lookup, insert, nat_key, text_key, List, [], ◌∷◌,
  none, some, ok, state_of, value, fault, arith,
}
use yolo_ave_mujica.Jobs.Model.{running, failed, Job, plain, CreateJobInput}
use yolo_ave_mujica.Jobs.StateMachine.{can_transition}
use yolo_ave_mujica.Jobs.Repository.{
  new_job, create_or_get, get, update_job, complete, store_result_ref, Counters,
}
use yolo_ave_mujica.Jobs.EventLog.{append_event}
use yolo_ave_mujica.Jobs.Normalize.{normalize_result_ref}
use yolo_ave_mujica.Jobs.Dispatcher.{ServiceState, publish}
use yolo_ave_mujica.Jobs.Sweeper.{Sweeper, second, expire}
use yolo_ave_mujica.Jobs.Sweeper.Expiry.{expire_lem, after_expiry}
use yolo_ave_mujica.Jobs.Service.{Service, normalize_input, submitted, create_job}
use yolo_ave_mujica.Jobs.Reports.{
  report_heartbeat, report_progress, report_terminal, has_negative, lease_seconds_of,
}
use yolo_ave_mujica.Jobs.Reports.Heartbeat.{
  report_heartbeat_lem, report_heartbeat_wraps, report_progress_lem, beating, progressed,
}
use yolo_ave_mujica.Jobs.Invariant.{Inv, Advances}
use yolo_ave_mujica.Jobs.History.{Call, creates, heartbeats, finishes, ticks, step, run, new_state}
use yolo_ave_mujica.Jobs.History.Laws.{new_state-Inv, run-Inv, run-final, run-After}
use yolo_ave_mujica.Jobs.History.Changes.{Change, run-Change}
use yolo_ave_mujica.Jobs.History.Dispatch.{create_job_again}

-- A publisher that is down, and no review sink.
abbrev service : Service
service = record {
  dispatcher = some (λ item. some (plain "connection refused"));
  review_sink = none;
  decode = λ v. fault (plain "no candidates");
}

abbrev sweeper : Sweeper
sweeper = record { max_retries = 3; backoff_base = 5 * second; backoff_max = 60 * second }

abbrev cleaning : CreateJobInput
cleaning = record {
  project_id = pos 0;
  dataset_id = pos 3;
  snapshot_id = pos 4;
  job_type = lit " Cleaning";
  required_resource_type = [];
  required_capabilities = [];
  idempotency_key = lit "k1";
  payload = [];
}

-- The input as the repository gets it.
abbrev normal_cleaning : CreateJobInput
normal_cleaning = record cleaning {
  project_id = pos 1;
  job_type = lit "cleaning";
  required_resource_type = lit "cpu";
  required_capabilities = lit "rules_engine" ∷ lit "image_stats" ∷ [];
}

cleaning_normal : normalize_input cleaning ≡ value normal_cleaning
unfolding normalize_input lit
cleaning_normal = refl

abbrev job : Job
job = new_job 1 normal_cleaning 7

abbrev created : ServiceState
created = run service sweeper ((7, creates cleaning) ∷ []) new_state

created-Inv : Inv created.repo
created-Inv = run-Inv service sweeper ((7, creates cleaning) ∷ [])

created_job : lookup 1 created.repo.by_id ≡ some job
unfolding run step create_job create_or_get new_state submitted get insert append_event publish
    lookup normalize_input lit
created_job = refl

abbrev two_ticks : List (ℕ × Call)
two_ticks = (8, heartbeats 1 (lit "w1") (pos 0)) ∷ (99, ticks (40 * second)) ∷ []

run-Inv_example : Inv (run service sweeper two_ticks new_state).repo
run-Inv_example = run-Inv service sweeper two_ticks

abbrev nothing_done : Counters
nothing_done = record { total = pos 10; good = pos 0; bad = pos 10 }

-- After these, a report that the job failed.
run-Change_example :
    let c : ℕ × Call = (100, finishes 1 (lit "w1") failed nothing_done []) in
    let t = run service sweeper two_ticks created in
    (k : Job) × (lookup 1 t.repo.by_id ≡ some k)
    × Advances job k
    × ((l : Job) × (lookup 1 (step service sweeper c t).repo.by_id ≡ some l)
        × Advances k l
        × Change c.1 k.status l.status)
run-Change_example =
    run-Change service sweeper two_ticks (100, finishes 1 (lit "w1") failed nothing_done []) created
      1 job created-Inv created_job

-- The first call fails, since the publisher is down; the second finds the job that it left behind.
create_job_again_example :
    let t = run service sweeper two_ticks (state_of (create_job service cleaning 7 new_state)) in
    create_job service cleaning 100 t ≡ ok 1 t
unfolding new_state lookup
create_job_again_example =
    create_job_again service cleaning normal_cleaning cleaning_normal sweeper two_ticks 7 100
      new_state new_state-Inv

abbrev started : Job
started = record job { status = running; started_at = some 8; lease_until = some 9 }

-- A state with that one job.
abbrev busy : ServiceState
busy = record created { repo = record (created.repo) { by_id = (1, started) ∷ [] } }

busy_job : lookup 1 busy.repo.by_id ≡ some started
unfolding lookup
busy_job = refl

expire_lem_example :
    (t : ServiceState) × (expire sweeper 10 11 1 busy ≡ ok tt t)
    × (lookup 1 t.repo.by_id ≡ some (after_expiry sweeper 10 11 started))
expire_lem_example = expire_lem 1 busy started busy_job refl sweeper 10 11

report_heartbeat_lem_example :
    (t : ServiceState) × (report_heartbeat 1 (5 ∷ []) (pos 60) 12 busy ≡ ok tt t)
    × (lookup 1 t.repo.by_id
        ≡ some (beating (5 ∷ []) (12 + lease_seconds_of (pos 60) * second) 12 started))
unfolding lease_seconds_of
report_heartbeat_lem_example =
    report_heartbeat_lem 1 busy started busy_job (5 ∷ []) refl 12 (pos 60) (omega arith)

report_heartbeat_wraps_example :
    (t : ServiceState) × (lease : ℕ) × (report_heartbeat 1
        (5 ∷ [])
        (pos 9_223_372_037)
        (20 * 10 ^ 18)
        busy
      ≡ ok tt t)
    × (lookup 1 t.repo.by_id ≡ some (beating (5 ∷ []) lease (20 * 10 ^ 18) started))
    × (lease < 20 * 10 ^ 18)
unfolding lease_seconds_of
report_heartbeat_wraps_example =
    report_heartbeat_wraps 1 busy started busy_job (5 ∷ []) refl (20 * 10 ^ 18) (pos 9_223_372_037)
      (omega arith) (omega arith) (omega arith)

abbrev halfway : Counters
halfway = record { total = pos 10; good = pos 4; bad = pos 1 }

report_progress_lem_example :
    (t : ServiceState) × (report_progress 1 (5 ∷ []) halfway 12 busy ≡ ok tt t)
    × (lookup 1 t.repo.by_id ≡ some (progressed (5 ∷ []) halfway 12 started))
report_progress_lem_example =
    report_progress_lem 1 busy started busy_job (5 ∷ []) refl 12 halfway
      (unfold has_negative in refl) (inr refl)

abbrev ended : ServiceState
ended = run service sweeper ((9, finishes 1 (5 ∷ []) failed halfway []) ∷ []) created

abbrev done : Job
done = record job {
  status = failed;
  worker_id = 5 ∷ [];
  total_items = pos 10;
  succeeded_items = pos 4;
  failed_items = pos 1;
  started_at = some 9;
  finished_at = some 9;
}

ended_job : lookup 1 ended.repo.by_id ≡ some done
unfolding run step create_job create_or_get new_state submitted get insert append_event publish
    lookup normalize_input lit report_terminal complete update_job can_transition new_job
    store_result_ref normalize_result_ref
ended_job = refl

run-final_example :
    (k : Job) × (lookup 1 (run service sweeper two_ticks ended).repo.by_id ≡ some k)
    × (k.status ≡ failed)
run-final_example =
    run-final service sweeper two_ticks ended 1 done
      (run-After service sweeper ((9, finishes 1 (5 ∷ []) failed halfway []) ∷ []) created
        created-Inv).0
      ended_job refl
