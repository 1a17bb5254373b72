-- ===== src/Jobs/StateMachine.antt =====
-- internal/jobs/state_machine.go: the table of legal status changes.
pub mod Lifecycle
use yolo_ave_mujica.Base.{Bool, true, false, if◌then◌else◌, ◌==◌, Option, none, some}
use yolo_ave_mujica.Jobs.Model.{
  Status, queued, running, succeeded, succeeded_with_errors, failed, canceled, retry_waiting,
  status_key, Error, conflict,
}

-- `transitions[from][to]`, false where either key is missing.
unfoldable pub transitions : Status → Status → Bool
transitions queued running = true
transitions queued canceled = true
transitions running succeeded = true
transitions running succeeded_with_errors = true
transitions running failed = true
transitions running canceled = true
transitions running retry_waiting = true
transitions retry_waiting queued = true
transitions _ _ = false

unfoldable pub can_transition : Status → Status → Option Error
unfolding transitions
can_transition from to =
    if from == to then none else if transitions from to then none else some conflict
