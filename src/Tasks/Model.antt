-- ===== src/Tasks/Model.antt =====
-- internal/tasks/model.go and the keyword tests of service.go. A keyword that was normalised is read
-- into a data type with the constants of the source; `other` stands for any text that is none of them.
-- A time counts nanoseconds after Go's zero time, which is 0.
use yolo_ave_mujica.Base.{
  ℕ, ℤ, Bool, true, false, if◌then◌else◌, ◌==◌, Text, text_key, is_empty, lit, keyword, Option,
  String,
}

pub data Status : Type 0 where
  queued ready in_progress blocked submitted reviewing rework_required accepted : Status
  published closed : Status
  other : Text → Status

pub data Kind : Type 0 where
  annotation review qa ops training_candidate promotion_review : Kind
  other : Text → Kind

pub data MediaKind : Type 0 where
  unset image video : MediaKind
  other : Text → MediaKind

pub data Priority : Type 0 where
  low normal high critical : Priority
  other : Text → Priority

unfoldable pub read_status : Text → Status
read_status t =
    if t == lit "queued"
    then queued
    else if t == lit "ready"
    then ready
    else if t == lit "in_progress"
    then in_progress
    else if t == lit "blocked"
    then blocked
    else if t == lit "submitted"
    then submitted
    else if t == lit "reviewing"
    then reviewing
    else if t == lit "rework_required"
    then rework_required
    else if t == lit "accepted"
    then accepted
    else if t == lit "published"
    then published
    else if t == lit "closed"
    then closed
    else Status.other t

unfoldable pub normalize_status : Text → Status
unfolding read_status keyword
normalize_status raw = let t = keyword raw in if is_empty t then queued else read_status t

unfoldable pub read_kind : Text → Kind
read_kind t =
    if t == lit "annotation"
    then annotation
    else if t == lit "review"
    then review
    else if t == lit "qa"
    then qa
    else if t == lit "ops"
    then ops
    else if t == lit "training_candidate"
    then training_candidate
    else if t == lit "promotion_review"
    then promotion_review
    else Kind.other t

unfoldable pub normalize_kind : Text → Kind
unfolding read_kind keyword
normalize_kind raw = let t = keyword raw in if is_empty t then annotation else read_kind t

unfoldable pub normalize_media_kind : Text → MediaKind
unfolding keyword
normalize_media_kind raw =
    let t = keyword raw in
    if is_empty t
    then unset
    else if t == lit "image"
    then image
    else if t == lit "video"
    then video
    else MediaKind.other t

unfoldable pub read_priority : Text → Priority
read_priority t =
    if t == lit "low"
    then low
    else if t == lit "normal"
    then normal
    else if t == lit "high"
    then high
    else if t == lit "critical"
    then critical
    else Priority.other t

unfoldable pub normalize_priority : Text → Priority
unfolding read_priority keyword
normalize_priority raw = let t = keyword raw in if is_empty t then normal else read_priority t

abbrev pub is_valid_status : Status → Bool
is_valid_status (Status.other t) = false
is_valid_status _ = true

abbrev pub is_valid_kind : Kind → Bool
is_valid_kind (Kind.other t) = false
is_valid_kind _ = true

abbrev pub is_valid_media_kind : MediaKind → Bool
is_valid_media_kind image = true
is_valid_media_kind video = true
is_valid_media_kind _ = false

abbrev pub is_valid_priority : Priority → Bool
is_valid_priority (Priority.other t) = false
is_valid_priority _ = true

pub record Task : Type 0 where
  pub id : ℕ
  pub project_id : ℤ
  pub snapshot_id : Option ℤ
  pub title : Text
  pub kind : Kind
  pub asset_object_key : Text
  pub media_kind : MediaKind
  pub frame_index : Option ℤ
  pub ontology_version : Text
  pub status : Status
  pub priority : Priority
  pub assignee : Text
  pub due_at : Option ℕ
  pub blocker_reason : Text
  pub last_activity_at : ℕ
  pub created_at : ℕ
  pub updated_at : ℕ

-- The input as it arrives, with its keywords as texts.
pub record CreateTaskInput : Type 0 where
  pub project_id : ℤ
  pub snapshot_id : Option ℤ
  pub title : Text
  pub kind : Text
  pub asset_object_key : Text
  pub media_kind : Text
  pub frame_index : Option ℤ
  pub ontology_version : Text
  pub status : Text
  pub priority : Text
  pub assignee : Text
  pub due_at : Option ℕ
  pub blocker_reason : Text
  pub last_activity_at : ℕ

pub record TransitionTaskInput : Type 0 where
  pub status : Text
  pub blocker_reason : Text
  pub last_activity_at : ℕ

pub record ListTasksFilter : Type 0 where
  pub status : Text
  pub kind : Text
  pub assignee : Text
  pub priority : Text
  pub snapshot_id : Option ℤ

pub data Error : Type 0 where
  not_found : Error
  plain : String → Error
