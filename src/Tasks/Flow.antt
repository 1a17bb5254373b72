-- ===== src/Tasks/Flow.antt =====
-- The transition table of internal/tasks/service.go, and its graph.
use yolo_ave_mujica.Base.{Bool, true, false, ◌≡◌, arith}
use yolo_ave_mujica.Tasks.Model.{
  Status, queued, ready, in_progress, blocked, submitted, reviewing, rework_required, accepted,
  published, closed, is_valid_status,
}

-- `allowedTransitions[from][to]`, false where either key is missing.
unfoldable pub is_allowed_transition : Status → Status → Bool
is_allowed_transition queued ready = true
is_allowed_transition ready in_progress = true
is_allowed_transition ready blocked = true
is_allowed_transition in_progress blocked = true
is_allowed_transition in_progress submitted = true
is_allowed_transition in_progress closed = true
is_allowed_transition blocked ready = true
is_allowed_transition blocked in_progress = true
is_allowed_transition submitted reviewing = true
is_allowed_transition submitted blocked = true
is_allowed_transition reviewing rework_required = true
is_allowed_transition reviewing accepted = true
is_allowed_transition reviewing blocked = true
is_allowed_transition rework_required in_progress = true
is_allowed_transition rework_required blocked = true
is_allowed_transition accepted published = true
is_allowed_transition accepted blocked = true
is_allowed_transition published closed = true
is_allowed_transition _ _ = false

-- Any number of allowed changes.
pub data Flow : Status → Status → Type 0 where
  here : {s : Status} → Flow s s
  along : {s t u : Status} → is_allowed_transition s t ≡ true → Flow t u → Flow s u

pub Flow-trans : {s t u : Status} → Flow s t → Flow t u → Flow s u
Flow-trans here q = q
Flow-trans (along e p) q = along e (Flow-trans p q)

pub Flow-one : {s t : Status} → is_allowed_transition s t ≡ true → Flow s t
Flow-one e = along e here

-- No way leads out of a closed task.
pub Flow-from_closed : {s t : Status} → Flow s t → s ≡ closed → t ≡ closed
unfolding is_allowed_transition
Flow-from_closed here h = h
Flow-from_closed {s = closed} (along e p) h = cc
Flow-from_closed (along e p) h = cc

-- A change ends in a valid status.
pub allowed-is_valid_status :
    (s t : Status) → is_allowed_transition s t ≡ true → is_valid_status t ≡ true
unfolding is_allowed_transition
allowed-is_valid_status s t h = ground arith
