-- ===== src/Annotations/Model.antt =====
-- internal/annotations/model.go, errors.go and the inputs of repository.go. A body of nil stands as an
-- empty one, which the code puts in its place.
use yolo_ave_mujica.Base.{ℕ, ℤ, Text, Option, String}
use yolo_ave_mujica.Jobs.Value.{Detail}
use yolo_ave_mujica.Tasks.Model

pub data State : Type 0 where
  draft submitted : State

pub record Annotation : Type 0 where
  pub id : ℕ
  pub task_id : ℕ
  pub snapshot_id : ℤ
  pub asset_object_key : Text
  pub frame_index : Option ℤ
  pub ontology_version : Text
  pub state : State
  pub revision : ℕ
  pub body : Detail
  pub submitted_by : Text
  pub submitted_at : Option ℕ
  pub created_at : ℕ
  pub updated_at : ℕ

-- Without the names and the version of the data set, which only SQL joins fill.
pub record Asset : Type 0 where
  pub snapshot_id : Option ℤ
  pub object_key : Text
  pub frame_index : Option ℤ

pub record Workspace : Type 0 where
  pub task : Model.Task
  pub asset : Asset
  pub annotation : Annotation

pub record WorkspaceDraftInput : Type 0 where
  pub actor : Text
  pub base_revision : ℤ
  pub body : Detail

pub record SaveDraftInput : Type 0 where
  pub task_id : ℤ
  pub actor : Text
  pub snapshot_id : ℤ
  pub asset_object_key : Text
  pub frame_index : Option ℤ
  pub ontology_version : Text
  pub base_revision : ℤ
  pub body : Detail

-- The errors by their kind, without the values in their messages; `task` is one of the task service.
pub data Error : Type 0 where
  not_found : Error
  conflict : String → Error
  validation : String → Error
  plain : String → Error
  task : Model.Error → Error
