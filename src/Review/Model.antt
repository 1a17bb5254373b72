-- ===== src/Review/Model.antt =====
-- The types and the statuses of internal/review/service.go. float64 values stand as their bits; a
-- time counts nanoseconds after Go's zero time, which is 0.
use yolo_ave_mujica.Base.{
  ℕ, ℤ, leb, nat_beq, Bool, ◌&&◌, ◌||◌, if◌then◌else◌, ◌==◌, Text, text_key, is_empty, lit, Option,
  String, ◌^◌,
}

pub record CandidateSource : Type 0 where
  pub job_id : Option ℤ
  pub confidence : Option ℕ
  pub model_name : Text
  pub is_pseudo : Bool
  pub created_at : Option ℕ

pub record CandidateBox : Type 0 where
  pub x : ℕ
  pub y : ℕ
  pub w : ℕ
  pub h : ℕ

pub record PersistCandidateInput : Type 0 where
  pub dataset_id : ℤ
  pub snapshot_id : ℤ
  pub item_id : ℤ
  pub object_key : Text
  pub category_id : ℤ
  pub category_name : Text
  pub bbox : CandidateBox
  pub confidence : Option ℕ
  pub model_name : Text
  pub is_pseudo : Bool

pub record Candidate : Type 0 where
  pub id : ℕ
  pub project_id : ℤ
  pub dataset_id : ℤ
  pub snapshot_id : ℤ
  pub item_id : ℤ
  pub object_key : Text
  pub category_id : ℤ
  pub bbox : CandidateBox
  pub status : Text
  pub review_status : Text
  pub reviewer_id : Text
  pub reviewed_at : ℕ
  pub source : CandidateSource

pub record Annotation : Type 0 where
  pub candidate_id : ℕ
  pub reviewer_id : Text
  pub created_at : ℕ

-- An audit event. Its resource is the candidate, and its detail holds at most a reason.
pub record AuditEvent : Type 0 where
  pub actor : Text
  pub action : Text
  pub resource_id : ℕ
  pub reason_code : Option Text
  pub ts : ℕ

-- The errors, without the values in their messages.
pub data Error : Type 0 where
  plain : String → Error

-- `f <= 0` on the bits of a float64: zero, or a negative number that is not a NaN.
unfoldable pub float_not_positive : ℕ → Bool
float_not_positive bits = nat_beq bits 0 || (leb (2 ^ 63) bits && leb bits 0xfff0000000000000)

unfoldable pub normalize_candidate_status : Text → Text
normalize_candidate_status s =
    if is_empty s
    then lit "queued_for_review"
    else if s == lit "pending"
    then lit "queued_for_review"
    else s

unfoldable pub is_queued_candidate_status : Text → Bool
unfolding normalize_candidate_status
is_queued_candidate_status s = normalize_candidate_status s == lit "queued_for_review"

-- `status := c.Status; if status == "" { status = c.ReviewStatus }`.
abbrev pub either_status : Candidate → Text
either_status c = if is_empty c.status then c.review_status else c.status

unfoldable pub normalize_candidate : Candidate → Candidate
unfolding normalize_candidate_status
normalize_candidate c = record c {
  status = normalize_candidate_status (either_status c);
  review_status = normalize_candidate_status (either_status c);
}
