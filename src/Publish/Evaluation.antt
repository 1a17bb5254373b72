-- ===== src/Publish/Evaluation.antt =====
-- The end of OwnerApprove (internal/publish/service.go): the evaluation task that it starts through the
-- task service.
use mathlib.Core.List.{reverse, reverse-cons}
use yolo_ave_mujica.Base.{
  ℕ, not_positive, ◌≡◌, refl, false, Text, is_empty, is_space, lit, text_beq, trim_left, trim_space,
  nat_key, [], ◌∷◌, ◌++◌, some, inl, inr, Bool-cases, decimal,
}
use yolo_ave_mujica.Tasks.Model.{
  queued, training_candidate, normalize_kind, normalize_status, normalize_priority,
  normalize_media_kind,
}
use yolo_ave_mujica.Tasks.Service.{normalize_task}
use yolo_ave_mujica.Tasks.Validity.{IsValid}
use yolo_ave_mujica.Publish.Model.{Batch, Record}
use yolo_ave_mujica.Publish.Service.{evaluation_task}

trim_left-cons :
    (s : Text) (c : ℕ) → is_space c ≡ false → is_empty (trim_left (s ++ (c ∷ []))) ≡ false
unfolding trim_left
trim_left-cons [] c h = rw h refl
trim_left-cons (d ∷ s) c h =
    let later = trim_left-cons s c h in
    elim (Bool-cases (is_space d)) [ inl e ↦ rw e later | inr e ↦ rw e refl ]

is_empty-append : (s : Text) (c : ℕ) → is_empty (s ++ (c ∷ [])) ≡ false
is_empty-append [] c = refl
is_empty-append (d ∷ s) c = refl

is_empty-reverse : (s : Text) → is_empty (reverse s) ≡ is_empty s
is_empty-reverse [] = refl
is_empty-reverse (c ∷ s) = rw (reverse-cons c s) (is_empty-append (reverse s) c)

-- Text that starts with a visible letter is not trimmed away.
pub trim_space-cons :
    (c : ℕ) (s : Text) → is_space c ≡ false → is_empty (trim_space (c ∷ s)) ≡ false
unfolding trim_space trim_left
trim_space-cons c s h =
    rw (h, is_empty-reverse (trim_left (reverse (c ∷ s))), reverse-cons c s)
      (trim_left-cons (reverse s) c h)

pub evaluation_task-IsValid :
    (b : Batch) (x : Record) (now : ℕ)
    → not_positive b.project_id ≡ false
    → not_positive b.snapshot_id ≡ false
    → let t = normalize_task (evaluation_task b x) now in
      IsValid t
      × (t.kind ≡ training_candidate)
      × (t.status ≡ queued)
      × (t.snapshot_id ≡ some b.snapshot_id)
unfolding normalize_task evaluation_task normalize_kind normalize_status normalize_priority
    normalize_media_kind lit text_beq is_space
evaluation_task-IsValid b x now project snapshot = (
  record {
    in_project = project;
    of_snapshot = snapshot;
    titled = trim_space-cons b'E' (lit "valuate publish record " ++ decimal x.id) refl;
    status_valid = refl;
    kind_valid = refl;
    priority_valid = refl;
    media_valid = inl refl;
    annotates = λ e. cc;
    at_frame = refl;
    blocked_for = λ e. cc;
  },
  refl,
  refl,
  refl,
)
