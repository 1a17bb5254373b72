-- ===== src/Publish/Service.antt =====
-- The Service of internal/publish/service.go over the in-memory repository. The task creator is an
-- optional function on the state of the task service, as internal/tasks/service.go provides it.
use yolo_ave_mujica.Base.{
  ℕ, ℤ, not_positive, to_nat, Bool, true, false, not, ◌||◌, ◌==◌, int_key, Text, text_key, lit,
  keyword, List, [], ◌∷◌, ◌++◌, Option, none, some, String, Outcome, ok, err, check, pass, ◌>>=◌,
  ◌>>◌, decimal,
}
use yolo_ave_mujica.Jobs.Value.{Detail}
use yolo_ave_mujica.Tasks.Model
use yolo_ave_mujica.Tasks.Repository
use yolo_ave_mujica.Publish.Model.{
  Status, draft, review_pending, review_approved, owner_pending, owner_changes_requested, rejected,
  published, superseded, Decision, approve, reject, rework, Batch, Record, Feedback,
  SuggestedCandidate, CreateBatchItemInput, CreateBatchInput, ReplaceBatchItemsInput,
  CreateFeedbackInput, ApprovalInput, Error, plain, task,
}
use yolo_ave_mujica.Publish.Feedback.{normalize_actor, normalize_decision_feedback, text_or}
use yolo_ave_mujica.Publish.Repository.{
  InMemoryRepository, list_suggested, insert_batch, find_batch, find_record, replace_items,
}
use yolo_ave_mujica.Publish.Decisions.{
  apply_review_decision, apply_owner_decision, insert_batch_feedback, insert_item_feedback,
}

-- The state that the calls act on: the batches, and the tasks behind the task creator.
pub record ServiceState : Type 0 where
  pub repo : InMemoryRepository
  pub tasks : Repository.InMemoryRepository

abbrev pub Action : Type 0 → Type 0
Action A = ServiceState → Outcome Error ServiceState A

abbrev pub with_repo :
    {A : Type 0} → ServiceState → Outcome Error InMemoryRepository A → Outcome Error ServiceState A
with_repo s (ok a r) = ok a (record s { repo = r })
with_repo s (err e r) = err e (record s { repo = r })

abbrev pub on_repo :
    {A : Type 0} → (InMemoryRepository → Outcome Error InMemoryRepository A) → Action A
on_repo m s = with_repo s (m s.repo)

abbrev pub TaskCreator : Type 0
TaskCreator = Model.CreateTaskInput → ℕ → Repository.Action Model.Task

-- A failure of the task service is returned as it is.
abbrev pub with_tasks :
    {A : Type 0}
    → ServiceState
    → A
    → Outcome Model.Error Repository.InMemoryRepository Model.Task
    → Outcome Error ServiceState A
with_tasks s a (ok t ts) = ok a (record s { tasks = ts })
with_tasks s a (err e ts) = err (task e) (record s { tasks = ts })

unfoldable pub normalize_source : Text → Text
unfolding keyword
normalize_source source = text_or (lit "manual") (keyword source)

unfoldable pub is_valid_source : Text → Bool
is_valid_source s = s == lit "suggested" || s == lit "manual"

abbrev pub first_error : List (Bool × String) → Option Error
first_error [] = none
first_error ((true, message) ∷ checks) = some (plain message)
first_error ((false, message) ∷ checks) = first_error checks

unfoldable pub validate_batch_item : ℤ → CreateBatchItemInput → Option Error
validate_batch_item snapshot i = first_error (
    (not_positive i.candidate_id, "candidate_id must be > 0")
    ∷ (not_positive i.task_id, "task_id must be > 0")
    ∷ (not_positive i.dataset_id, "dataset_id must be > 0")
    ∷ (not_positive i.snapshot_id, "snapshot_id must be > 0")
    ∷ (not (i.snapshot_id == snapshot), "item snapshot_id must match batch snapshot_id")
    ∷ [])

-- `if len(items) == 0 { … }; for _, item := range items { … }`.
abbrev first_of : Option Error → Option Error → Option Error
first_of none later = later
first_of (some e) later = some e

unfoldable pub validate_all : ℤ → List CreateBatchItemInput → Option Error
unfolding validate_batch_item
validate_all snapshot [] = none
validate_all snapshot (i ∷ is) =
    first_of (validate_batch_item snapshot i) (validate_all snapshot is)

unfoldable pub validate_items : ℤ → List CreateBatchItemInput → Option Error
unfolding validate_all
validate_items snapshot [] = some (plain "items are required")
validate_items snapshot (i ∷ is) = validate_all snapshot (i ∷ is)

unfoldable pub is_editable_status : Status → Bool
is_editable_status draft = true
is_editable_status review_pending = true
is_editable_status review_approved = true
is_editable_status owner_pending = true
is_editable_status owner_changes_requested = true
is_editable_status _ = false

-- `batch.Status == StatusPublished || … Rejected || … Superseded`.
unfoldable pub is_closed_status : Status → Bool
is_closed_status published = true
is_closed_status rejected = true
is_closed_status superseded = true
is_closed_status _ = false

-- `batch.Status != StatusReviewApproved && batch.Status != StatusOwnerPending`, negated.
unfoldable pub is_ready_for_owner : Status → Bool
is_ready_for_owner review_approved = true
is_ready_for_owner owner_pending = true
is_ready_for_owner _ = false

abbrev pub require : Bool → String → Option Error
require true message = none
require false message = some (plain message)

abbrev pub positive : ℤ → String → Option Error
positive n message = require (not (not_positive n)) message

unfoldable pub create_batch_problem : CreateBatchInput → Option Error
unfolding normalize_source is_valid_source validate_items
create_batch_problem i =
    first_of
      (first_error (
        (not_positive i.project_id, "project_id must be > 0")
        ∷ (not_positive i.snapshot_id, "snapshot_id must be > 0")
        ∷ (not (is_valid_source (normalize_source i.source)), "invalid source")
        ∷ []))
      (validate_items i.snapshot_id i.items)

-- The input of the task that an approved record starts.
unfoldable pub evaluation_task : Batch → Record → Model.CreateTaskInput
unfolding decimal
evaluation_task b x = record {
  project_id = b.project_id;
  snapshot_id = some b.snapshot_id;
  title = lit "Evaluate publish record " ++ decimal x.id;
  kind = lit "training_candidate";
  asset_object_key = [];
  media_kind = [];
  frame_index = none;
  ontology_version = [];
  status = lit "queued";
  priority = lit "high";
  assignee = lit "ml-engineer";
  due_at = none;
  blocker_reason = [];
  last_activity_at = 0;
}

-- The end of OwnerApprove, after the repository's call; that always returns a record here.
unfoldable pub start_evaluation :
    Option TaskCreator → Batch → ℕ → Option Record → Action (Option Record)
unfolding evaluation_task
start_evaluation none b now x s = ok x s
start_evaluation (some create) b now none s = ok none s
start_evaluation (some create) b now (some x) s =
    with_tasks s (some x) (create (evaluation_task b x) now s.tasks)

module _ (clone : Detail → Detail) where
  unfoldable pub list_suggested_candidates : ℤ → Action (List SuggestedCandidate)
  unfolding list_suggested
  list_suggested_candidates project_id =
      check (positive project_id "project_id must be > 0") >> on_repo (list_suggested clone)

  unfoldable pub create_batch : CreateBatchInput → ℕ → Action Batch
  unfolding create_batch_problem insert_batch
  create_batch i now =
      check (create_batch_problem i)
      >> on_repo (insert_batch clone (record i { source = normalize_source i.source }) now)

  unfoldable pub get_batch : ℤ → Action Batch
  unfolding find_batch
  get_batch id =
      check (positive id "batch_id must be > 0") >> on_repo (find_batch clone (to_nat id))

  unfoldable pub get_record : ℤ → Action Record
  unfolding find_record
  get_record id =
      check (positive id "record_id must be > 0") >> on_repo (find_record clone (to_nat id))

  unfoldable pub replace_batch_items : ℤ → ReplaceBatchItemsInput → ℕ → Action Batch
  unfolding get_batch validate_items is_editable_status normalize_actor replace_items
  replace_batch_items id i now = do
    b ← get_batch id
    check (require (is_editable_status b.status) "batch is not editable")
    check (validate_items b.snapshot_id i.items)
    on_repo (replace_items clone (to_nat id) (record i { actor = normalize_actor i.actor }) now)

  -- The part of a review decision before the repository writes, and the writing.
  unfoldable pub check_review : ℤ → Action (Unit {0})
  unfolding get_batch is_closed_status
  check_review id = do
    b ← get_batch id
    check (require (not (is_closed_status b.status)) "batch is not reviewable")

  unfoldable pub apply_review : ℤ → Decision → ApprovalInput → ℕ → Action (Unit {0})
  unfolding normalize_actor normalize_decision_feedback apply_review_decision
  apply_review id d i now =
      let actor = normalize_actor i.actor in
      on_repo (
        apply_review_decision clone (to_nat id) d actor
          (normalize_decision_feedback i.feedback actor (lit "review")) now)

  unfoldable pub review_decision : ℤ → Decision → ApprovalInput → ℕ → Action (Unit {0})
  unfolding check_review apply_review
  review_decision id d i now = check_review id >> apply_review id d i now

  unfoldable pub review_approve : ℤ → ApprovalInput → ℕ → Action (Unit {0})
  unfolding review_decision
  review_approve id = review_decision id approve

  unfoldable pub review_reject : ℤ → ApprovalInput → ℕ → Action (Unit {0})
  unfolding review_decision
  review_reject id = review_decision id reject

  unfoldable pub review_rework : ℤ → ApprovalInput → ℕ → Action (Unit {0})
  unfolding review_decision
  review_rework id = review_decision id rework

  unfoldable pub check_owner : ℤ → String → Action Batch
  unfolding get_batch is_ready_for_owner
  check_owner id message = do
    b ← get_batch id
    check (require (is_ready_for_owner b.status) message)
    pass b

  unfoldable pub apply_owner : ℤ → Decision → ApprovalInput → ℕ → Action (Option Record)
  unfolding normalize_actor normalize_decision_feedback apply_owner_decision
  apply_owner id d i now =
      let actor = normalize_actor i.actor in
      on_repo (
        apply_owner_decision clone (to_nat id) d actor
          (normalize_decision_feedback i.feedback actor (lit "owner")) now)

  unfoldable pub owner_approve : Option TaskCreator → ℤ → ApprovalInput → ℕ → Action (Option Record)
  unfolding check_owner apply_owner start_evaluation
  owner_approve creator id i now = do
    b ← check_owner id "batch is not ready for owner approval"
    x ← apply_owner id approve i now
    start_evaluation creator b now x

  unfoldable pub owner_decision : ℤ → Decision → ApprovalInput → ℕ → Action (Unit {0})
  unfolding check_owner apply_owner
  owner_decision id d i now = do
    b ← check_owner id "batch is not ready for owner decision"
    x ← apply_owner id d i now
    pass tt

  unfoldable pub owner_reject : ℤ → ApprovalInput → ℕ → Action (Unit {0})
  unfolding owner_decision
  owner_reject id = owner_decision id reject

  unfoldable pub owner_rework : ℤ → ApprovalInput → ℕ → Action (Unit {0})
  unfolding owner_decision
  owner_rework id = owner_decision id rework

  unfoldable pub add_batch_feedback : ℤ → CreateFeedbackInput → ℕ → Action Feedback
  unfolding normalize_actor insert_batch_feedback
  add_batch_feedback id i now =
      check (positive id "batch_id must be > 0")
      >> on_repo (
          insert_batch_feedback clone (to_nat id) (record i { actor = normalize_actor i.actor })
            now)

  unfoldable pub add_item_feedback : ℤ → ℤ → CreateFeedbackInput → ℕ → Action Feedback
  unfolding normalize_actor insert_item_feedback
  add_item_feedback id item i now =
      check (positive id "batch_id must be > 0")
      >> check (positive item "item_id must be > 0")
      >> on_repo (
          insert_item_feedback clone (to_nat id) (to_nat item)
            (record i { actor = normalize_actor i.actor; scope = text_or (lit "item") i.scope })
            now)
