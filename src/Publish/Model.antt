-- ===== src/Publish/Model.antt =====
-- internal/publish/model.go, and the types of service.go and repository.go. float64 values stand as
-- their bits; a time counts nanoseconds after Go's zero time.
use yolo_ave_mujica.Base.{ℕ, ℤ, Text, List, Option, String}
use yolo_ave_mujica.Jobs.Value.{Detail}
use yolo_ave_mujica.Tasks.Model

-- The constants of a batch's status. The service and the repository write no other text.
pub data Status : Type 0 where
  draft review_pending review_approved owner_pending owner_changes_requested : Status
  rejected published superseded : Status

pub data Decision : Type 0 where
  approve reject rework : Decision
  other : Text → Decision

pub record BatchItem : Type 0 where
  pub id : ℕ
  pub publish_batch_id : ℕ
  pub candidate_id : ℤ
  pub task_id : ℤ
  pub dataset_id : ℤ
  pub snapshot_id : ℤ
  pub item_payload : Detail
  pub position : ℕ
  pub created_at : ℕ
  pub updated_at : ℕ

-- An item id of 0 stands for feedback on the whole batch, as in the source.
pub record Feedback : Type 0 where
  pub id : ℕ
  pub publish_batch_id : ℕ
  pub publish_batch_item_id : ℕ
  pub scope : Text
  pub stage : Text
  pub action : Text
  pub reason_code : Text
  pub severity : Text
  pub influence_weight : ℕ
  pub comment : Text
  pub created_by : Text
  pub created_at : ℕ

pub record Batch : Type 0 where
  pub id : ℕ
  pub project_id : ℤ
  pub snapshot_id : ℤ
  pub source : Text
  pub status : Status
  pub rule_summary : Detail
  pub owner_edit_version : ℕ
  pub review_approved_at : Option ℕ
  pub review_approved_by : Text
  pub owner_decided_at : Option ℕ
  pub owner_decided_by : Text
  pub items : List BatchItem
  pub feedback : List Feedback
  pub created_at : ℕ
  pub updated_at : ℕ

pub record Record : Type 0 where
  pub id : ℕ
  pub project_id : ℤ
  pub snapshot_id : ℤ
  pub publish_batch_id : ℕ
  pub status : Status
  pub summary : Detail
  pub approved_by_owner : Text
  pub approved_at : ℕ
  pub created_at : ℕ

pub record SuggestedCandidateItem : Type 0 where
  pub candidate_id : ℤ
  pub task_id : ℤ
  pub dataset_id : ℤ
  pub item_payload : Detail

pub record SuggestedCandidate : Type 0 where
  pub snapshot_id : ℤ
  pub suggestion_key : Text
  pub summary : Detail
  pub items : List SuggestedCandidateItem

pub record CreateBatchItemInput : Type 0 where
  pub candidate_id : ℤ
  pub task_id : ℤ
  pub dataset_id : ℤ
  pub snapshot_id : ℤ
  pub item_payload : Detail

pub record CreateBatchInput : Type 0 where
  pub project_id : ℤ
  pub snapshot_id : ℤ
  pub source : Text
  pub rule_summary : Detail
  pub items : List CreateBatchItemInput

pub record ReplaceBatchItemsInput : Type 0 where
  pub actor : Text
  pub items : List CreateBatchItemInput

pub record CreateFeedbackInput : Type 0 where
  pub scope : Text
  pub stage : Text
  pub action : Text
  pub reason_code : Text
  pub severity : Text
  pub influence_weight : ℕ
  pub comment : Text
  pub actor : Text

pub record ApprovalInput : Type 0 where
  pub actor : Text
  pub feedback : List CreateFeedbackInput

-- The errors without the values in their messages; `task` is an error of the task service.
pub data Error : Type 0 where
  not_found : Error
  plain : String → Error
  task : Model.Error → Error
