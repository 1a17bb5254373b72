-- ===== src/Annotations/History.antt =====
-- Histories of calls of the annotation service (internal/annotations/service.go), one after the other,
-- each with the time that it reads. Between them anything may happen to the tasks.
pub mod Laws
use yolo_ave_mujica.Base.{ℕ, ℤ, Text, List, [], ◌∷◌, Option, state_of}
use yolo_ave_mujica.Jobs.Value.{Detail}
use yolo_ave_mujica.Tasks.Repository
use yolo_ave_mujica.Annotations.Model.{SaveDraftInput, WorkspaceDraftInput}
use yolo_ave_mujica.Annotations.Service.{
  TaskService, ServiceState, save_draft, submit, save_workspace_draft, submit_workspace,
}

pub data Call : Type 0 where
  saves : SaveDraftInput → Call
  submits : ℤ → Text → Call
  saves_workspace : ℤ → WorkspaceDraftInput → Call
  submits_workspace : ℤ → Text → Call
  others : Repository.InMemoryRepository → Call

module _ (encode : Detail → Option Detail) (tasks : Option TaskService) where
  unfoldable pub step : ℕ × Call → ServiceState → ServiceState
  step (now, saves i) s = state_of (save_draft encode i now s)
  step (now, submits id actor) s = state_of (submit encode id actor now s)
  step (now, saves_workspace id i) s = state_of (save_workspace_draft encode tasks id i now s)
  step (now, submits_workspace id actor) s = state_of (submit_workspace encode tasks id actor now s)
  step (now, others ts) s = record s { tasks = ts }

  unfoldable pub run : List (ℕ × Call) → ServiceState → ServiceState
  run [] s = s
  run (c ∷ cs) s = run cs (step c s)
