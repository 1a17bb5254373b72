-- ===== src/Publish/History.antt =====
-- Histories of calls of the publish service (internal/publish/service.go), one after the other, each
-- with the time that it reads. Calls that overlap are the subject of Overlap.
pub mod Calls
pub mod Edits
pub mod Owners
pub mod Laws
use yolo_ave_mujica.Base.{ℕ, ℤ, List, [], ◌∷◌, Option, state_of}
use yolo_ave_mujica.Jobs.Value.{Detail}
use yolo_ave_mujica.Publish.Model.{
  CreateBatchInput, ReplaceBatchItemsInput, ApprovalInput, CreateFeedbackInput,
}
use yolo_ave_mujica.Publish.Service.{
  ServiceState, TaskCreator, create_batch, replace_batch_items, review_approve, review_reject,
  review_rework, owner_approve, owner_reject, owner_rework, add_batch_feedback, add_item_feedback,
}

pub data Call : Type 0 where
  creates : CreateBatchInput → Call
  replaces : ℤ → ReplaceBatchItemsInput → Call
  review_approves review_rejects review_reworks : ℤ → ApprovalInput → Call
  owner_approves owner_rejects owner_reworks : ℤ → ApprovalInput → Call
  comments : ℤ → CreateFeedbackInput → Call
  comments_item : ℤ → ℤ → CreateFeedbackInput → Call

module _ (clone : Detail → Detail) (creator : Option TaskCreator) where
  unfoldable pub step : ℕ × Call → ServiceState → ServiceState
  step (now, creates i) s = state_of (create_batch clone i now s)
  step (now, replaces id i) s = state_of (replace_batch_items clone id i now s)
  step (now, review_approves id i) s = state_of (review_approve clone id i now s)
  step (now, review_rejects id i) s = state_of (review_reject clone id i now s)
  step (now, review_reworks id i) s = state_of (review_rework clone id i now s)
  step (now, owner_approves id i) s = state_of (owner_approve clone creator id i now s)
  step (now, owner_rejects id i) s = state_of (owner_reject clone id i now s)
  step (now, owner_reworks id i) s = state_of (owner_rework clone id i now s)
  step (now, comments id i) s = state_of (add_batch_feedback clone id i now s)
  step (now, comments_item id item i) s = state_of (add_item_feedback clone id item i now s)

  unfoldable pub run : List (ℕ × Call) → ServiceState → ServiceState
  run [] s = s
  run (c ∷ cs) s = run cs (step c s)
