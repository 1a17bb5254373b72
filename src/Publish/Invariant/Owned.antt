-- ===== src/Publish/Invariant/Owned.antt =====
-- The owner's decision (ApplyOwnerDecision of internal/publish/in_memory_repository.go) keeps what
-- holds of the repository, and an approval makes the one record of the batch.
use yolo_ave_mujica.Base.{
  ℕ, suc, ◌+◌, ◌<◌, ◌≡◌, refl, inr, sym, ◌∙◌, true, false, Text, is_empty, lookup, insert,
  lookup-insert, nat_key, List, some, arith, state_of,
}
use yolo_ave_mujica.Jobs.Value.{Detail}
use yolo_ave_mujica.Publish.Model.{
  Status, owner_changes_requested, rejected, published, Batch, Record, Feedback, Decision, approve,
  reject, rework, other, CreateFeedbackInput,
}
use yolo_ave_mujica.Publish.Feedback.{new_feedbacks}
use yolo_ave_mujica.Publish.Repository.{InMemoryRepository, count, clone_batch, clone_record}
use yolo_ave_mujica.Publish.Decisions.{
  add_feedback, apply_owner_decision, owner_decided, new_record,
}
use yolo_ave_mujica.Publish.Service.{is_closed_status, is_ready_for_owner}
use yolo_ave_mujica.Publish.Invariant.{
  IsSound, Good, is_published, Inv, rejects, returns, publishes, Moved, After,
}
use yolo_ave_mujica.Publish.Invariant.Parts.{new_feedbacks-Rising}
use yolo_ave_mujica.Publish.Invariant.Writes.{written-After, records_more}
use yolo_ave_mujica.Publish.Invariant.Bodies.{open_unpublished}
use yolo_ave_mujica.Publish.Invariant.Decided.{
  Retouched, is_known, ready_open, ready_approved, Retouched-Good, Retouched-Advances,
  decided-After,
}

owned-IsSound :
    (b : Batch) (actor : Text) (now : ℕ) (more : List Feedback)
    → IsSound b
    → is_ready_for_owner b.status ≡ true
    → is_empty actor ≡ false
    → IsSound (owner_decided published actor now (add_feedback more b))
unfolding owner_decided
owned-IsSound b actor now more s ready named = record {
  in_project = s.in_project;
  of_snapshot = s.of_snapshot;
  written = refl;
  reviewed = λ e. cc;
  published_reviewed = λ e. s.reviewed (ready_approved b.status ready s.written);
  published_owned = λ e. (refl, named);
}

module _ (clone : Detail → Detail) (r : InMemoryRepository) (inv : Inv r) (id : ℕ) (b : Batch)
    (at : lookup id r.batches ≡ some b) (ready : is_ready_for_owner b.status ≡ true) where
  open_status : is_closed_status b.status ≡ false
  open_status = ready_open b.status ready

  old : Good r.next_item r.next_feed id b
  old = inv.good id b at

  -- The state after an approval.
  abbrev pub approved : Text → List Feedback → ℕ → ℕ → InMemoryRepository
  approved actor more next now = record r {
    next_feed = next;
    next_record = suc r.next_record;
    records =
        insert r.next_record
          (clone_record clone (new_record r.next_record actor now (add_feedback more b))) r.records;
    batches =
        insert id (clone_batch clone (owner_decided published actor now (add_feedback more b)))
          r.batches;
  }

  record_below :
      (x y : Record) (n : ℕ)
      → lookup n (insert r.next_record x r.records) ≡ some y
      → n < suc r.next_record
  record_below x y n h =
      ground (arith, lookup-insert n r.next_record x r.records, inv.record_below n y)

  approved-After :
      (actor : Text) (feedback : List CreateFeedbackInput) (now : ℕ)
      → is_empty actor ≡ false
      → After r (
          approved actor
            (new_feedbacks r.next_feed id feedback now)
            (r.next_feed + count feedback)
            now)
  unfolding owner_decided new_record clone_record
  approved-After actor feedback now named =
      let more = new_feedbacks r.next_feed id feedback now in
      let c = owner_decided published actor now (add_feedback more b) in
      let x = clone_record clone (new_record r.next_record actor now (add_feedback more b)) in
      let t : Retouched b c more = ground arith in
      written-After clone r (approved actor more (r.next_feed + count feedback) now) id c refl
        (omega arith) (inv.below id b at) (omega arith) (omega arith)
        (Retouched-Good clone r inv id b at c more (r.next_feed + count feedback) t
          (owned-IsSound b actor now more old.sound ready named)
          (new_feedbacks-Rising r.next_feed id now feedback))
        (records_more r inv id b x at (open_unpublished b.status open_status) old.own_id)
        (λ n y h. record_below x y n h)
        (Retouched-Advances clone r inv id b at c more t (inr (publishes ready))
          (λ e. cc open_status))
        inv

  -- A rejection or a return.
  refused-After :
      (s : Status) (actor : Text) (feedback : List CreateFeedbackInput) (now : ℕ)
      → is_published s ≡ false
      → IsSound
          (owner_decided s actor now (add_feedback (new_feedbacks r.next_feed id feedback now) b))
      → Moved b.status s
      → After r (record r {
        next_feed = r.next_feed + count feedback;
        batches =
            insert id
              (clone_batch clone (
                owner_decided s actor now
                  (add_feedback (new_feedbacks r.next_feed id feedback now) b)))
              r.batches;
      })
  unfolding owner_decided
  refused-After s actor feedback now unpublished sound moved =
      let more = new_feedbacks r.next_feed id feedback now in
      let c = owner_decided s actor now (add_feedback more b) in
      decided-After clone r inv id b at c more (r.next_feed + count feedback) (ground arith) sound
        (new_feedbacks-Rising r.next_feed id now feedback) (omega arith)
        (unpublished ∙ sym (open_unpublished b.status open_status)) moved (λ h. cc open_status)

  pub apply_owner_decision-After :
      (d : Decision) (actor : Text) (feedback : List CreateFeedbackInput) (now : ℕ)
      → is_known d ≡ true
      → is_empty actor ≡ false
      → After r (state_of (apply_owner_decision clone id d actor feedback now r))
  unfolding apply_owner_decision owner_decided
  apply_owner_decision-After approve actor feedback now known named =
      rw (at, apply_owner_decision, state_of) (approved-After actor feedback now named)
  apply_owner_decision-After reject actor feedback now known named =
      let s = old.sound in
      rw (at, apply_owner_decision, state_of)
        (refused-After rejected actor feedback now refl (ground arith) (inr (rejects open_status)))
  apply_owner_decision-After rework actor feedback now known named =
      let s = old.sound in
      rw (at, apply_owner_decision, state_of)
        (refused-After owner_changes_requested actor feedback now refl (ground arith)
          (inr (returns open_status)))
  apply_owner_decision-After (other t) actor feedback now known named = cc
