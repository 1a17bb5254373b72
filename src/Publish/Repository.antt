-- ===== src/Publish/Repository.antt =====
-- InMemoryRepository of internal/publish/in_memory_repository.go; each method is one step under the
-- lock. `clone` is cloneJSONMap, a round trip through encoding/json.
use yolo_ave_mujica.Base.{
  ℕ, suc, ◌+◌, nat_key, Map, lookup, insert, List, [], ◌∷◌, map, none, some, Outcome, ok, err,
}
use yolo_ave_mujica.Jobs.Value.{Detail}
use yolo_ave_mujica.Publish.Model.{
  draft, owner_changes_requested, Batch, BatchItem, Record, SuggestedCandidateItem,
  SuggestedCandidate, CreateBatchItemInput, CreateBatchInput, ReplaceBatchItemsInput, Error,
  not_found,
}

pub record InMemoryRepository : Type 0 where
  pub next_batch : ℕ
  pub next_item : ℕ
  pub next_feed : ℕ
  pub next_record : ℕ
  pub batches : Map ℕ Batch
  pub records : Map ℕ Record
  pub suggested : List SuggestedCandidate

unfoldable pub new_in_memory_repository : InMemoryRepository
new_in_memory_repository = record {
  next_batch = 1;
  next_item = 1;
  next_feed = 1;
  next_record = 1;
  batches = [];
  records = [];
  suggested = [];
}

abbrev pub Action : Type 0 → Type 0
Action A = InMemoryRepository → Outcome Error InMemoryRepository A

abbrev pub count {ℓ} : {A : Type ℓ} → List A → ℕ
count [] = 0
count (x ∷ xs) = suc (count xs)

-- The assignments of ReplaceBatchItems.
unfoldable pub replaced : List BatchItem → ℕ → Batch → Batch
replaced items now b = record b {
  items = items;
  status = owner_changes_requested;
  owner_edit_version = suc b.owner_edit_version;
  review_approved_at = none;
  review_approved_by = [];
  owner_decided_at = none;
  owner_decided_by = [];
  updated_at = now;
}

module _ (clone : Detail → Detail) where
  unfoldable pub clone_item : BatchItem → BatchItem
  clone_item i = record i { item_payload = clone i.item_payload }

  unfoldable pub clone_batch : Batch → Batch
  unfolding clone_item
  clone_batch b = record b { rule_summary = clone b.rule_summary; items = map clone_item b.items }

  unfoldable pub clone_record : Record → Record
  clone_record r = record r { summary = clone r.summary }

  unfoldable pub clone_suggested_item : SuggestedCandidateItem → SuggestedCandidateItem
  clone_suggested_item i = record i { item_payload = clone i.item_payload }

  unfoldable pub clone_suggested : SuggestedCandidate → SuggestedCandidate
  unfolding clone_suggested_item
  clone_suggested g = record g {
    summary = clone g.summary;
    items = map clone_suggested_item g.items;
  }

  unfoldable pub list_suggested : Action (List SuggestedCandidate)
  unfolding clone_suggested
  list_suggested r = ok (map clone_suggested r.suggested) r

  unfoldable pub seed_suggested_candidates :
      List SuggestedCandidate → InMemoryRepository → InMemoryRepository
  unfolding clone_suggested
  seed_suggested_candidates groups r = record r { suggested = map clone_suggested groups }

  -- The loop over the items of an input: the first gets the item id `next` and the position `i`.
  unfoldable pub new_items : ℕ → ℕ → ℕ → List CreateBatchItemInput → ℕ → List BatchItem
  new_items next i batch_id [] now = []
  new_items next i batch_id (item ∷ items) now =
      record {
        id = next;
        publish_batch_id = batch_id;
        candidate_id = item.candidate_id;
        task_id = item.task_id;
        dataset_id = item.dataset_id;
        snapshot_id = item.snapshot_id;
        item_payload = clone item.item_payload;
        position = i;
        created_at = now;
        updated_at = now;
      }
      ∷ new_items (suc next) (suc i) batch_id items now

  unfoldable pub new_batch : ℕ → ℕ → CreateBatchInput → ℕ → Batch
  unfolding new_items
  new_batch id next_item i now = record {
    id = id;
    project_id = i.project_id;
    snapshot_id = i.snapshot_id;
    source = i.source;
    status = draft;
    rule_summary = clone i.rule_summary;
    owner_edit_version = 0;
    review_approved_at = none;
    review_approved_by = [];
    owner_decided_at = none;
    owner_decided_by = [];
    items = new_items next_item 0 id i.items now;
    feedback = [];
    created_at = now;
    updated_at = now;
  }

  -- `r.batches[batchID] = cloneBatch(batch)`.
  abbrev pub put_batch : ℕ → Batch → InMemoryRepository → InMemoryRepository
  put_batch id b r = record r { batches = insert id (clone_batch b) r.batches }

  unfoldable pub insert_batch : CreateBatchInput → ℕ → Action Batch
  unfolding new_batch clone_batch
  insert_batch i now r =
      let b = new_batch r.next_batch r.next_item i now in
      ok (clone_batch b) (
        put_batch r.next_batch b
          (record r { next_batch = suc r.next_batch; next_item = r.next_item + count i.items }))

  unfoldable pub find_batch : ℕ → Action Batch
  unfolding clone_batch
  find_batch id r = elim (lookup id r.batches) [
    | none ↦ err not_found r
    | some b ↦ ok (clone_batch b) r
  ]

  unfoldable pub find_record : ℕ → Action Record
  unfolding clone_record
  find_record id r = elim (lookup id r.records) [
    | none ↦ err not_found r
    | some x ↦ ok (clone_record x) r
  ]

  unfoldable pub replace_items : ℕ → ReplaceBatchItemsInput → ℕ → Action Batch
  unfolding replaced new_items clone_batch
  replace_items id i now r = elim (lookup id r.batches) [
    | none ↦ err not_found r
    | some b ↦
        let b' = replaced (new_items r.next_item 0 b.id i.items now) now b in
        ok (clone_batch b') (put_batch id b' (record r { next_item = r.next_item + count i.items }))
  ]
