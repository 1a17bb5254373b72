-- ===== src/Publish/Decisions.antt =====
-- The decisions on a batch and its feedback: ApplyReviewDecision, ApplyOwnerDecision, AddBatchFeedback
-- and AddItemFeedback of internal/publish/in_memory_repository.go.
use yolo_ave_mujica.Base.{
  ℕ, suc, ◌+◌, pos, Bool, false, not, ◌||◌, if◌then◌else◌, Text, lit, nat_key, nat_beq, lookup,
  insert, List, [], ◌∷◌, ◌++◌, Option, none, some, ok, err,
}
use yolo_ave_mujica.Jobs.Value.{Detail, text, int}
use yolo_ave_mujica.Publish.Model.{
  Status, review_approved, owner_changes_requested, rejected, published, Decision, approve, reject,
  rework, other, Batch, BatchItem, Record, Feedback, CreateFeedbackInput, not_found, plain,
}
use yolo_ave_mujica.Publish.Feedback.{new_feedback, new_feedbacks}
use yolo_ave_mujica.Publish.Repository.{
  InMemoryRepository, Action, count, clone_batch, clone_record, put_batch,
}

abbrev pub add_feedback : List Feedback → Batch → Batch
add_feedback more b = record b { feedback = b.feedback ++ more }

-- The switch of ApplyReviewDecision; none is the error for an unknown decision.
unfoldable pub reviewed : Decision → Text → ℕ → Batch → Option Batch
reviewed approve actor now b = some (record b {
  status = review_approved;
  review_approved_at = some now;
  review_approved_by = actor;
  updated_at = now;
})
reviewed reject actor now b = some (record b {
  status = rejected;
  review_approved_at = none;
  review_approved_by = [];
  updated_at = now;
})
reviewed rework actor now b = some (record b {
  status = owner_changes_requested;
  review_approved_at = none;
  review_approved_by = [];
  updated_at = now;
})
reviewed (other d) actor now b = none

unfoldable pub new_record : ℕ → Text → ℕ → Batch → Record
new_record id actor now b = record {
  id = id;
  project_id = b.project_id;
  snapshot_id = b.snapshot_id;
  publish_batch_id = b.id;
  status = published;
  summary =
      (lit "decision", text (lit "approve"))
      ∷ (lit "batch_id", int (pos b.id))
      ∷ (lit "snapshot_id", int b.snapshot_id)
      ∷ [];
  approved_by_owner = actor;
  approved_at = now;
  created_at = now;
}

-- The assignments of ApplyOwnerDecision that all decisions share, with the status to come.
unfoldable pub owner_decided : Status → Text → ℕ → Batch → Batch
owner_decided status actor now b = record b {
  status = status;
  owner_decided_at = some now;
  owner_decided_by = actor;
  updated_at = now;
}

unfoldable pub has_item : ℕ → List BatchItem → Bool
has_item id [] = false
has_item id (item ∷ items) = nat_beq item.id id || has_item id items

module _ (clone : Detail → Detail) where
  unfoldable pub apply_review_decision :
      ℕ → Decision → Text → List CreateFeedbackInput → ℕ → Action (Unit {0})
  unfolding reviewed new_feedbacks clone_batch
  apply_review_decision id d actor feedback now r = elim (lookup id r.batches) [
    | none ↦ err not_found r
    | some b ↦
        let b' = add_feedback (new_feedbacks r.next_feed id feedback now) b in
        let r' : InMemoryRepository = record r { next_feed = r.next_feed + count feedback } in
        elim (reviewed d actor now b') [
          | none ↦ err (plain "unsupported review decision") r'
          | some b'' ↦ ok tt (put_batch clone id b'' r')
        ]
  ]

  -- The record that an approval makes; none stands for the empty Record{}.
  unfoldable pub apply_owner_decision :
      ℕ → Decision → Text → List CreateFeedbackInput → ℕ → Action (Option Record)
  unfolding owner_decided new_feedbacks clone_batch new_record clone_record
  apply_owner_decision id d actor feedback now r = elim (lookup id r.batches) [
    | none ↦ err not_found r
    | some b ↦
        let b' = add_feedback (new_feedbacks r.next_feed id feedback now) b in
        let r' : InMemoryRepository = record r { next_feed = r.next_feed + count feedback } in
        elim d [
          | approve ↦
              let x = new_record r.next_record actor now b' in
              ok (some (clone_record clone x)) (
                put_batch clone id (owner_decided published actor now b') (record r' {
                  next_record = suc r.next_record;
                  records = insert r.next_record (clone_record clone x) r.records;
                }))
          | reject ↦ ok none (put_batch clone id (owner_decided rejected actor now b') r')
          | rework ↦
              ok none (put_batch clone id (owner_decided owner_changes_requested actor now b') r')
          | other t ↦ err (plain "unsupported owner decision") r'
        ]
  ]

  -- AddBatchFeedback, and AddItemFeedback once the item is found.
  abbrev pub with_feedback : ℕ → Batch → Option ℕ → CreateFeedbackInput → ℕ → Action Feedback
  with_feedback id b item i now r =
      let f = new_feedback r.next_feed id item i now in
      ok f (
        put_batch clone id (record (add_feedback (f ∷ []) b) { updated_at = f.created_at })
          (record r { next_feed = suc r.next_feed }))

  unfoldable pub insert_batch_feedback : ℕ → CreateFeedbackInput → ℕ → Action Feedback
  unfolding new_feedback clone_batch
  insert_batch_feedback id i now r = elim (lookup id r.batches) [
    | none ↦ err not_found r
    | some b ↦ with_feedback id b none i now r
  ]

  unfoldable pub insert_item_feedback : ℕ → ℕ → CreateFeedbackInput → ℕ → Action Feedback
  unfolding new_feedback clone_batch has_item
  insert_item_feedback id item i now r = elim (lookup id r.batches) [
    | none ↦ err not_found r
    | some b ↦
        if not (has_item item b.items)
        then err (plain "publish batch item not found") r
        else with_feedback id b (some item) i now r
  ]
