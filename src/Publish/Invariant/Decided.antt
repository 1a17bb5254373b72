-- ===== src/Publish/Invariant/Decided.antt =====
-- Decisions and feedback (internal/publish/in_memory_repository.go) keep what holds of the repository.
use yolo_ave_mujica.Base.{
  ℕ, suc, ◌+◌, ◌≤◌, ◌≡◌, refl, inl, inr, sym, ◌∙◌, Bool, true, false, Text, is_empty, lookup,
  insert, nat_key, List, [], ◌∷◌, ◌++◌, some, arith, state_of,
}
use yolo_ave_mujica.Jobs.Value.{Detail}
use yolo_ave_mujica.Publish.Model.{
  Status, review_approved, Batch, Feedback, Decision, approve, reject, rework, other,
  CreateFeedbackInput,
}
use yolo_ave_mujica.Publish.Feedback.{new_feedbacks}
use yolo_ave_mujica.Publish.Repository.{InMemoryRepository, count, clone_batch}
use yolo_ave_mujica.Publish.Decisions.{add_feedback, apply_review_decision, reviewed}
use yolo_ave_mujica.Publish.Service.{is_closed_status, is_ready_for_owner}
use yolo_ave_mujica.Publish.Invariant.{
  IsSound, is_written, Rising, Good, is_published, Inv, approves, returns, rejects, Moved, Advances,
  After,
}
use yolo_ave_mujica.Publish.Invariant.Parts.{Rising-append, new_feedbacks-Rising}
use yolo_ave_mujica.Publish.Invariant.Writes.{written-After, records_same}
use yolo_ave_mujica.Publish.Invariant.Bodies.{open_unpublished}

abbrev pub is_known : Decision → Bool
is_known (other t) = false
is_known _ = true

-- What a decision leaves alone, and the feedback that comes with it.
pub record Retouched (b c : Batch) (more : List Feedback) : Type 0 where
  pub same_id : c.id ≡ b.id
  pub same_project : c.project_id ≡ b.project_id
  pub same_snapshot : c.snapshot_id ≡ b.snapshot_id
  pub same_source : c.source ≡ b.source
  pub same_creation : c.created_at ≡ b.created_at
  pub same_version : c.owner_edit_version ≡ b.owner_edit_version
  pub same_items : c.items ≡ b.items
  pub more_feedback : c.feedback ≡ b.feedback ++ more

pub ready_open : (s : Status) → is_ready_for_owner s ≡ true → is_closed_status s ≡ false
unfolding is_ready_for_owner is_closed_status
ready_open s h = ground arith

pub ready_approved :
    (s : Status) → is_ready_for_owner s ≡ true → is_written s ≡ true → s ≡ review_approved
unfolding is_ready_for_owner
ready_approved s h w = ground arith

-- What a review makes of a batch that is open.
review_result :
    (b : Batch)
    → IsSound b
    → is_closed_status b.status ≡ false
    → (d : Decision) → is_known d ≡ true
    → (actor : Text) → is_empty actor ≡ false
    → (now : ℕ) (more : List Feedback)
    → (c : Batch) × (reviewed d actor now (add_feedback more b) ≡ some c)
      × Retouched b c more
      × IsSound c
      × Moved b.status c.status
      × (is_published c.status ≡ false)
unfolding reviewed
review_result b s open_status approve known actor named now more =
    (_, refl, ground arith, ground arith, inr (approves open_status), refl)
review_result b s open_status reject known actor named now more =
    (_, refl, ground arith, ground arith, inr (rejects open_status), refl)
review_result b s open_status rework known actor named now more =
    (_, refl, ground arith, ground arith, inr (returns open_status), refl)
review_result b s open_status (other t) known actor named now more = cc

module _ (clone : Detail → Detail) (r : InMemoryRepository) (inv : Inv r) (id : ℕ) (b : Batch)
    (at : lookup id r.batches ≡ some b) where
  old : Good r.next_item r.next_feed id b
  old = inv.good id b at

  same_batch : (c : Batch) → lookup id r.batches ≡ some c → c ≡ b
  same_batch c h = let e : some c ≡ some b = rw at at (sym h) in cc

  pub Retouched-Good :
      (c : Batch) (more : List Feedback) (next : ℕ)
      → Retouched b c more
      → IsSound c
      → Rising id r.next_feed next more
      → Good r.next_item next id c
  Retouched-Good c more next t sound rising = record {
    own_id = t.same_id ∙ old.own_id;
    sound = sound;
    numbered = rw (t.same_items, t.same_snapshot) old.numbered;
    fed = rw t.more_feedback (Rising-append id 0 r.next_feed next b.feedback more old.fed rising);
  }

  pub Retouched-Advances :
      (c : Batch) (more : List Feedback)
      → Retouched b c more
      → Moved b.status c.status
      → (is_closed_status b.status ≡ true
          → (c.status ≡ b.status)
            × (c.review_approved_by ≡ b.review_approved_by)
            × (c.owner_decided_by ≡ b.owner_decided_by))
      → (d : Batch) → lookup id r.batches ≡ some d
      → Advances d c
  Retouched-Advances c more t moved sealed d h = rw (same_batch d h) (record {
    kept = record {
      same_id = t.same_id;
      same_project = t.same_project;
      same_snapshot = t.same_snapshot;
      same_source = t.same_source;
      same_creation = t.same_creation;
      edited = let e = t.same_version in omega arith;
      sealed = sealed;
    };
    moved = moved;
  })

  -- The decisions that make no record.
  pub decided-After :
      (c : Batch) (more : List Feedback) (next : ℕ)
      → Retouched b c more
      → IsSound c
      → Rising id r.next_feed next more
      → r.next_feed ≤ next
      → is_published c.status ≡ is_published b.status
      → Moved b.status c.status
      → (is_closed_status b.status ≡ true
          → (c.status ≡ b.status)
            × (c.review_approved_by ≡ b.review_approved_by)
            × (c.owner_decided_by ≡ b.owner_decided_by))
      → After r (record r { next_feed = next; batches = insert id (clone_batch clone c) r.batches })
  decided-After c more next t sound rising le same moved sealed =
      written-After clone r
        (record r { next_feed = next; batches = insert id (clone_batch clone c) r.batches }) id c
        refl (omega arith) (inv.below id b at) (omega arith) le
        (Retouched-Good c more next t sound rising) (rw same (records_same r inv id b at))
        inv.record_below (Retouched-Advances c more t moved sealed) inv

  pub apply_review_decision-After :
      (d : Decision) (actor : Text) (feedback : List CreateFeedbackInput) (now : ℕ)
      → is_known d ≡ true
      → is_empty actor ≡ false
      → is_closed_status b.status ≡ false
      → After r (state_of (apply_review_decision clone id d actor feedback now r))
  unfolding apply_review_decision
  apply_review_decision-After d actor feedback now known named open_status =
      let more = new_feedbacks r.next_feed id feedback now in
      let next : ℕ = r.next_feed + count feedback in
      let (c, e, t, sound, flow, unpublished) =
        review_result b old.sound open_status d known actor named now more in
      rw (at, apply_review_decision, e, state_of)
        (decided-After c more next t sound (new_feedbacks-Rising r.next_feed id now feedback)
          (omega arith) (unpublished ∙ sym (open_unpublished b.status open_status)) flow (λ h. cc))

  pub add_feedback-After :
      (f : Feedback)
      → Rising id r.next_feed (suc r.next_feed) (f ∷ [])
      → After r (record r {
        next_feed = suc r.next_feed;
        batches =
            insert id
              (clone_batch clone (record (add_feedback (f ∷ []) b) { updated_at = f.created_at }))
              r.batches;
      })
  add_feedback-After f rising =
      decided-After (record (add_feedback (f ∷ []) b) { updated_at = f.created_at }) (f ∷ [])
        (suc r.next_feed)
        (record {
          same_id = refl;
          same_project = refl;
          same_snapshot = refl;
          same_source = refl;
          same_creation = refl;
          same_version = refl;
          same_items = refl;
          more_feedback = refl;
        })
        (record {
          in_project = old.sound.in_project;
          of_snapshot = old.sound.of_snapshot;
          written = old.sound.written;
          reviewed = old.sound.reviewed;
          published_reviewed = old.sound.published_reviewed;
          published_owned = old.sound.published_owned;
        })
        rising (omega arith) refl (inl refl) (λ e. (refl, refl, refl))
