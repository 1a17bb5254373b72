-- ===== src/Tasks/Equality.antt =====
-- Go's `==` on the statuses, kinds and priorities of internal/tasks/model.go.
use yolo_ave_mujica.Base.{Bool, true, false, ◌≡◌, ◌↔◌, text_beq, text_beq_iff, Key, arith}
use yolo_ave_mujica.Tasks.Model.{
  Status, queued, ready, in_progress, blocked, submitted, reviewing, rework_required, accepted,
  published, closed, Kind, annotation, review, qa, ops, training_candidate, promotion_review,
  Priority, low, normal, high, critical,
}

-- `other` is compared by its text.
abbrev pub status_beq : Status → Status → Bool
status_beq queued queued = true
status_beq ready ready = true
status_beq in_progress in_progress = true
status_beq blocked blocked = true
status_beq submitted submitted = true
status_beq reviewing reviewing = true
status_beq rework_required rework_required = true
status_beq accepted accepted = true
status_beq published published = true
status_beq closed closed = true
status_beq (Status.other t) (Status.other u) = text_beq t u
status_beq _ _ = false

pub status_beq_iff : (s t : Status) → (status_beq s t ≡ true) ↔ (s ≡ t)
status_beq_iff (Status.other t) (Status.other u) = ground (arith, text_beq_iff t u)
status_beq_iff s t = ground arith

instance abbrev pub status_key : Key Status
status_key = record { same = status_beq; same_iff = status_beq_iff }

abbrev pub kind_beq : Kind → Kind → Bool
kind_beq annotation annotation = true
kind_beq review review = true
kind_beq qa qa = true
kind_beq ops ops = true
kind_beq training_candidate training_candidate = true
kind_beq promotion_review promotion_review = true
kind_beq (Kind.other t) (Kind.other u) = text_beq t u
kind_beq _ _ = false

pub kind_beq_iff : (s t : Kind) → (kind_beq s t ≡ true) ↔ (s ≡ t)
kind_beq_iff (Kind.other t) (Kind.other u) = ground (arith, text_beq_iff t u)
kind_beq_iff s t = ground arith

instance abbrev pub kind_key : Key Kind
kind_key = record { same = kind_beq; same_iff = kind_beq_iff }

abbrev pub priority_beq : Priority → Priority → Bool
priority_beq low low = true
priority_beq normal normal = true
priority_beq high high = true
priority_beq critical critical = true
priority_beq (Priority.other t) (Priority.other u) = text_beq t u
priority_beq _ _ = false

pub priority_beq_iff : (s t : Priority) → (priority_beq s t ≡ true) ↔ (s ≡ t)
priority_beq_iff (Priority.other t) (Priority.other u) = ground (arith, text_beq_iff t u)
priority_beq_iff s t = ground arith

instance abbrev pub priority_key : Key Priority
priority_key = record { same = priority_beq; same_iff = priority_beq_iff }
