-- ===== src/Datahub/Model.antt =====
-- The types of internal/datahub: service.go, repository.go, browse_models.go and errors.go. float64 values
-- stand as their bits.
use yolo_ave_mujica.Base.{ℕ, ℤ, Text, Option, List, String, Bool, ◌&&◌, ◌||◌, nat_beq, leb}

pub record Dataset : Type 0 where
  pub id : ℕ
  pub project_id : ℤ
  pub name : Text
  pub bucket : Text
  pub prefix : Text

pub record Snapshot : Type 0 where
  pub id : ℕ
  pub dataset_id : ℕ
  pub version : Text
  pub based_on_snapshot : Option ℤ
  pub note : Text

pub record DatasetItem : Type 0 where
  pub id : ℕ
  pub dataset_id : ℕ
  pub object_key : Text
  pub etag : Text

pub record CreateDatasetInput : Type 0 where
  pub project_id : ℤ
  pub name : Text
  pub bucket : Text
  pub prefix : Text

pub record CreateSnapshotInput : Type 0 where
  pub based_on_snapshot_id : Option ℤ
  pub note : Text

pub record PresignInput : Type 0 where
  pub dataset_id : ℤ
  pub object_key : Text
  pub ttl_seconds : ℤ

pub record ScannedObject : Type 0 where
  pub key : Text
  pub etag : Text
  pub size : ℤ
  pub mime : Text
  pub width : ℤ
  pub height : ℤ

pub record ImportedAnnotation : Type 0 where
  pub object_key : Text
  pub category_name : Text
  pub bbox_x : ℕ
  pub bbox_y : ℕ
  pub bbox_w : ℕ
  pub bbox_h : ℕ

pub record ImportSnapshotInput : Type 0 where
  pub format : Text
  pub source_uri : Text
  pub entries : List ImportedAnnotation

pub record ImportSnapshotResult : Type 0 where
  pub dataset_id : ℕ
  pub snapshot_id : ℕ
  pub imported_annotations : ℕ

pub record StoredAnnotation : Type 0 where
  pub snapshot_id : ℕ
  pub dataset_id : ℕ
  pub item_id : ℕ
  pub object_key : Text
  pub category_id : ℕ
  pub category_name : Text
  pub bbox_x : ℕ
  pub bbox_y : ℕ
  pub bbox_w : ℕ
  pub bbox_h : ℕ

pub record AnnotationChangePayload : Type 0 where
  pub object_key : Text
  pub category_id : ℕ
  pub category_name : Text
  pub bbox_x : ℕ
  pub bbox_y : ℕ
  pub bbox_w : ℕ
  pub bbox_h : ℕ

pub record AnnotationChange : Type 0 where
  pub from_snapshot_id : ℤ
  pub to_snapshot_id : ℕ
  pub item_id : ℕ
  pub change_type : Text
  pub before : Option AnnotationChangePayload
  pub after : Option AnnotationChangePayload

-- DatasetSummary and DatasetDetail, which have the same fields.
pub record DatasetSummary : Type 0 where
  pub dataset : Dataset
  pub item_count : ℕ
  pub snapshot_count : ℕ
  pub latest_snapshot : Option (ℕ × Text)

pub record SnapshotDetail : Type 0 where
  pub snapshot : Snapshot
  pub project_id : ℤ
  pub dataset_name : Text
  pub annotation_count : ℕ

-- The errors by their kind, without the values in their messages; `plain` has none.
pub data Error : Type 0 where
  not_found : Error
  conflict : String → Error
  validation : String → Error
  plain : String → Error

-- `x < 0` and `x <= 0` on the bits of a float64: the negative numbers lie between the negative zero and
-- the negative infinity.
unfoldable pub is_below_zero : ℕ → Bool
is_below_zero bits = leb 0x8000000000000001 bits && leb bits 0xfff0000000000000

unfoldable pub is_at_most_zero : ℕ → Bool
unfolding is_below_zero
is_at_most_zero bits = is_below_zero bits || nat_beq bits 0 || nat_beq bits 0x8000000000000000
