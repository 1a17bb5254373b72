-- ===== src/Publish/Invariant/Bodies.antt =====
-- The methods of internal/publish/in_memory_repository.go keep what holds of the repository.
use yolo_ave_mujica.Base.{
  ℕ, ◌+◌, ◌≡◌, refl, sym, ◌∙◌, inl, inr, not_positive, false, nat_beq, nat_beq_iff, lookup, nat_key,
  none, some, arith, Bool-cases, Option-cases, if◌then◌else◌, state_of,
}
use yolo_ave_mujica.Jobs.Value.{Detail}
use yolo_ave_mujica.Publish.Model.{Status, Batch, CreateBatchInput, ReplaceBatchItemsInput}
use yolo_ave_mujica.Publish.Repository.{
  InMemoryRepository, count, insert_batch, new_batch, new_items, replace_items, replaced,
}
use yolo_ave_mujica.Publish.Service.{validate_all, is_closed_status}
use yolo_ave_mujica.Publish.Invariant.{Good, records_of, is_published, due, Inv, returns, After}
use yolo_ave_mujica.Publish.Invariant.Parts.{Numbered-low, new_items-Numbered}
use yolo_ave_mujica.Publish.Invariant.Writes.{written-After, records_same}

module _ (clone : Detail → Detail) (i : CreateBatchInput) (now : ℕ) (r : InMemoryRepository)
    (inv : Inv r) (in_project : not_positive i.project_id ≡ false)
    (of_snapshot : not_positive i.snapshot_id ≡ false)
    (items_valid : validate_all i.snapshot_id i.items ≡ none) where
  fresh : lookup r.next_batch r.batches ≡ none
  fresh = elim (Option-cases (lookup r.next_batch r.batches)) [
    | inl e ↦ e
    | inr (b, e) ↦ let lt = inv.below r.next_batch b e in ground arith
  ]

  created : Batch
  created = new_batch clone r.next_batch r.next_item i now

  created-Good : Good (r.next_item + count i.items) r.next_feed r.next_batch created
  unfolding created new_batch
  created-Good = record {
    own_id = refl;
    sound = record {
      in_project = in_project;
      of_snapshot = of_snapshot;
      written = refl;
      reviewed = λ e. cc;
      published_reviewed = λ e. cc;
      published_owned = λ e. cc;
    };
    numbered =
        Numbered-low r.next_batch i.snapshot_id 0 r.next_item (r.next_item + count i.items)
          (new_items clone r.next_item 0 r.next_batch i.items now)
          (new_items-Numbered clone i.snapshot_id r.next_item 0 r.next_batch now i.items
            items_valid);
    fed = omega arith;
  }

  created_counts :
      (j : ℕ)
      → records_of j r.records ≡ (if nat_beq r.next_batch j then 0 else records_of j r.records)
  created_counts j = elim (Bool-cases (nat_beq r.next_batch j)) [
    | inl e ↦
        let f : r.next_batch ≡ j = (nat_beq_iff r.next_batch j).0 e in
        rw e (inv.recorded j ∙ rw (← f, fresh, due) refl)
    | inr e ↦ rw e refl
  ]

  pub insert_batch-After : After r (state_of (insert_batch clone i now r))
  unfolding insert_batch
  insert_batch-After =
      written-After clone r (state_of (insert_batch clone i now r)) r.next_batch created
        (unfold created in refl) (omega arith) (omega arith) (omega arith) (omega arith)
        created-Good (unfold created new_batch in created_counts) inv.record_below
        (λ b h. let e : none ≡ some b = rw fresh at h in cc) inv

pub open_unpublished : (s : Status) → is_closed_status s ≡ false → is_published s ≡ false
unfolding is_closed_status
open_unpublished s h = ground arith

-- A batch that is stored, and the statuses that let it change.
module _ (clone : Detail → Detail) (r : InMemoryRepository) (inv : Inv r) (id : ℕ) (b : Batch)
    (at : lookup id r.batches ≡ some b) where
  old : Good r.next_item r.next_feed id b
  old = inv.good id b at

  same_batch : (c : Batch) → lookup id r.batches ≡ some c → c ≡ b
  same_batch c h = let e : some c ≡ some b = rw at at (sym h) in cc

  pub replace_items-After :
      (i : ReplaceBatchItemsInput) (now : ℕ)
      → is_closed_status b.status ≡ false
      → validate_all b.snapshot_id i.items ≡ none
      → After r (state_of (replace_items clone id i now r))
  unfolding replace_items replaced
  replace_items-After i now open_status valid =
      let items = new_items clone r.next_item 0 b.id i.items now in
      let c = replaced items now b in
      let unpublished = open_unpublished b.status open_status in
      rw (at, replace_items, state_of)
        (written-After clone r _ id c refl (omega arith) (inv.below id b at) (omega arith)
          (omega arith)
          (record {
            own_id = old.own_id;
            sound = record {
              in_project = old.sound.in_project;
              of_snapshot = old.sound.of_snapshot;
              written = refl;
              reviewed = λ e. cc;
              published_reviewed = λ e. cc;
              published_owned = λ e. cc;
            };
            numbered = rw (old.own_id) (
                Numbered-low id b.snapshot_id 0 r.next_item (r.next_item + count i.items) _
                  (new_items-Numbered clone b.snapshot_id r.next_item 0 id now i.items valid));
            fed = old.fed;
          })
          (rw unpublished at (records_same r inv id b at)) inv.record_below
          (λ d h. rw (same_batch d h) (record {
            kept = record {
              same_id = refl;
              same_project = refl;
              same_snapshot = refl;
              same_source = refl;
              same_creation = refl;
              edited = omega arith;
              sealed = λ e. cc;
            };
            moved = inr (returns open_status);
          }))
          inv)
