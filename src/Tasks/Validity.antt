-- ===== src/Tasks/Validity.antt =====
-- What a valid task is, apart from the order of the tests in internal/tasks/service.go.
use yolo_ave_mujica.Base.{
  ℕ, suc, ◌≡◌, refl, ◌⊎◌, inl, inr, not_positive, is_negative, true, false, not, ◌&&◌, is_empty,
  insert, nat_key, none, ok, err, and_then, check, arith, Option-cases,
}
use yolo_ave_mujica.Tasks.Model.{
  blocked, is_valid_status, annotation, is_valid_kind, MediaKind, unset, is_valid_media_kind,
  is_valid_priority, Task, CreateTaskInput, Error,
}
use yolo_ave_mujica.Tasks.Equality.{status_beq_iff, kind_beq_iff, status_beq, kind_beq}
use yolo_ave_mujica.Tasks.Repository.{InMemoryRepository, insert_task, new_task}
use yolo_ave_mujica.Tasks.Service.{normalize_task, refusal, create_task, given, is_unset}

-- A valid task: it has a project, a title, known keywords, an asset of a known media kind if it is
-- to annotate one, and a reason if it is blocked; what is optional is in range.
pub record IsValid (t : Task) : Type 0 where
  pub in_project : not_positive t.project_id ≡ false
  pub of_snapshot : given not_positive t.snapshot_id ≡ false
  pub titled : is_empty t.title ≡ false
  pub status_valid : is_valid_status t.status ≡ true
  pub kind_valid : is_valid_kind t.kind ≡ true
  pub priority_valid : is_valid_priority t.priority ≡ true
  pub media_valid : (t.media_kind ≡ unset) ⊎ (is_valid_media_kind t.media_kind ≡ true)
  pub annotates :
      t.kind ≡ annotation
      → (is_empty t.asset_object_key ≡ false) × (is_valid_media_kind t.media_kind ≡ true)
  pub at_frame : given is_negative t.frame_index ≡ false
  pub blocked_for : t.status ≡ blocked → is_empty t.blocker_reason ≡ false

unset-cases : (m : MediaKind) → (m ≡ unset) ⊎ (is_unset m ≡ false)
unset-cases m = grind arith

refusal-IsValid : (t : Task) → refusal t ≡ none → IsValid t
unfolding refusal
refusal-IsValid t h = record {
  in_project = ground arith;
  of_snapshot = ground arith;
  titled = ground arith;
  status_valid = ground arith;
  kind_valid = ground arith;
  priority_valid = ground arith;
  media_valid = elim (unset-cases t.media_kind) [ inl e ↦ inl e | inr e ↦ inr (ground arith) ];
  annotates = λ e. (
    ground (arith, (kind_beq_iff t.kind annotation).1 e),
    ground (arith, (kind_beq_iff t.kind annotation).1 e),
  );
  at_frame = ground arith;
  blocked_for = λ e. ground (arith, (status_beq_iff t.status blocked).1 e);
}

IsValid-refusal : (t : Task) → IsValid t → refusal t ≡ none
unfolding refusal
IsValid-refusal t v =
    let b : (status_beq t.status blocked && is_empty t.blocker_reason) ≡ false =
      ground (arith, status_beq_iff t.status blocked, v.blocked_for) in
    let a : (kind_beq t.kind annotation && is_empty t.asset_object_key) ≡ false =
      ground (arith, kind_beq_iff t.kind annotation, v.annotates) in
    let m : (kind_beq t.kind annotation && not (is_valid_media_kind t.media_kind)) ≡ false =
      ground (arith, kind_beq_iff t.kind annotation, v.annotates) in
    let n : (not (is_unset t.media_kind) && not (is_valid_media_kind t.media_kind)) ≡ false =
      elim v.media_valid [ inl e ↦ rw e refl | inr e ↦ ground arith ] in
    rw
      (
        v.in_project, v.of_snapshot, v.titled, b, v.kind_valid, a, m, n, v.at_frame, v.status_valid,
        v.priority_valid,
      )
      refl

-- If the normalised input describes a valid task, CreateTask stores that task under the next id and
-- returns it; otherwise it fails and changes nothing.
pub create_task_lem :
    (i : CreateTaskInput) (now : ℕ) (r : InMemoryRepository)
    → let task = new_task r.next_id (normalize_task i now) now in
      (IsValid (normalize_task i now)
        × (create_task i now r
            ≡ ok task
                (record r { next_id = suc r.next_id; by_id = insert r.next_id task r.by_id })))
      ⊎ ((¬ IsValid (normalize_task i now)) × (e : Error) × (create_task i now r ≡ err e r))
unfolding create_task insert_task
create_task_lem i now r = elim (Option-cases (refusal (normalize_task i now))) [
  | inl e ↦ inl (refusal-IsValid (normalize_task i now) e, rw (e, check, and_then) refl)
  | inr (x, e) ↦ inr (
    (λ v. let none_found = IsValid-refusal (normalize_task i now) v in cc),
    x,
    rw (e, check, and_then) refl,
  )
]
