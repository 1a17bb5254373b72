-- ===== src/Jobs/History.antt =====
-- Histories of calls of the job service and the sweeper (internal/jobs/service.go, sweeper.go): the
-- calls in the order in which they take the lock, each with the time that it reads.
pub mod Laws
pub mod Dispatch
pub mod Changes
use yolo_ave_mujica.Base.{ℕ, ℤ, Text, List, [], ◌∷◌, Option, state_of}
use yolo_ave_mujica.Jobs.Value.{Detail}
use yolo_ave_mujica.Jobs.Model.{Status, CreateJobInput, RegisterWorkerInput}
use yolo_ave_mujica.Jobs.Repository.{Counters, new_in_memory_repository}
use yolo_ave_mujica.Jobs.Dispatcher.{ServiceState}
use yolo_ave_mujica.Jobs.Sweeper.{Sweeper, tick}
use yolo_ave_mujica.Jobs.Service.{Service, create_job, get_job, register_worker}
use yolo_ave_mujica.Jobs.Reports.{report_heartbeat, report_progress, report_event, report_terminal}

pub data Call : Type 0 where
  creates : CreateJobInput → Call
  reads : ℕ → Call
  registers : RegisterWorkerInput → Call
  heartbeats : ℕ → Text → ℤ → Call
  progresses : ℕ → Text → Counters → Call
  logs : ℕ → Option ℤ → Text → Text → Text → Detail → Call
  finishes : ℕ → Text → Status → Counters → Detail → Call
  ticks : ℕ → Call

module _ (svc : Service) (sweeper : Sweeper) where
  unfoldable pub step : ℕ × Call → ServiceState → ServiceState
  step (now, creates i) s = state_of (create_job svc i now s)
  step (now, reads id) s = state_of (get_job id s)
  step (now, registers i) s = state_of (register_worker i now s)
  step (now, heartbeats id w seconds) s = state_of (report_heartbeat id w seconds now s)
  step (now, progresses id w c) s = state_of (report_progress id w c now s)
  step (now, logs id item level typ message d) s =
      state_of (report_event svc id item level typ message d now s)
  step (now, finishes id w to c ref) s = state_of (report_terminal id w to c ref now s)
  step (now, ticks at) s = state_of (tick sweeper svc.dispatcher at now s)

  unfoldable pub run : List (ℕ × Call) → ServiceState → ServiceState
  run [] s = s
  run (c ∷ cs) s = run cs (step c s)

unfoldable pub new_state : ServiceState
unfolding new_in_memory_repository
new_state = record { repo = new_in_memory_repository; published = []; observed = [] }
