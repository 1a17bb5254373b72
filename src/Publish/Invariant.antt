-- ===== src/Publish/Invariant.antt =====
-- What holds of the publish repository (internal/publish/in_memory_repository.go) between two calls,
-- and how a batch may change over a call.
pub mod Parts
pub mod Writes
pub mod Bodies
pub mod Decided
pub mod Owned
use yolo_ave_mujica.Base.{
  ℕ, suc, ◌+◌, ◌≤◌, ◌<◌, ◌≡◌, ◌⊎◌, ℤ, not_positive, Bool, true, false, ◌&&◌, ◌||◌, Text, is_empty,
  nat_beq, lookup, nat_key, Map, List, [], ◌∷◌, Option, none, some,
}
use yolo_ave_mujica.Publish.Model.{
  Status, draft, review_pending, review_approved, owner_pending, owner_changes_requested, rejected,
  published, superseded, Batch, BatchItem, Feedback, Record,
}
use yolo_ave_mujica.Publish.Repository.{InMemoryRepository}
use yolo_ave_mujica.Publish.Feedback.{float_is_zero}
use yolo_ave_mujica.Publish.Service.{is_closed_status, is_ready_for_owner}

abbrev pub is_set {ℓ} : {A : Type ℓ} → Option A → Bool
is_set none = false
is_set (some a) = true

-- Who decided, and when, are both known.
abbrev pub Signed : Option ℕ → Text → Type 0
Signed at by = (is_set at ≡ true) × (is_empty by ≡ false)

-- The statuses that the repository writes.
abbrev pub is_written : Status → Bool
is_written review_pending = false
is_written owner_pending = false
is_written superseded = false
is_written _ = true

-- An approved batch names its reviewer, a published one its owner too.
pub record IsSound (b : Batch) : Type 0 where
  pub in_project : not_positive b.project_id ≡ false
  pub of_snapshot : not_positive b.snapshot_id ≡ false
  pub written : is_written b.status ≡ true
  pub reviewed : b.status ≡ review_approved → Signed b.review_approved_at b.review_approved_by
  pub published_reviewed : b.status ≡ published → Signed b.review_approved_at b.review_approved_by
  pub published_owned : b.status ≡ published → Signed b.owner_decided_at b.owner_decided_by

-- The items of a batch from position `i` on: they belong to it and to its snapshot, and their ids
-- rise from `low` on and stay below `next`.
abbrev pub Numbered : ℕ → ℤ → ℕ → ℕ → ℕ → List BatchItem → Type 0
Numbered batch snapshot i low next [] = low ≤ next
Numbered batch snapshot i low next (x ∷ xs) =
    (x.publish_batch_id ≡ batch)
    × (x.snapshot_id ≡ snapshot)
    × (x.position ≡ i)
    × (low ≤ x.id)
    × Numbered batch snapshot (suc i) (suc x.id) next xs

-- Its feedback: complete, with ids that rise likewise.
pub record IsComplete (f : Feedback) : Type 0 where
  pub has_scope : is_empty f.scope ≡ false
  pub has_stage : is_empty f.stage ≡ false
  pub has_action : is_empty f.action ≡ false
  pub has_reason : is_empty f.reason_code ≡ false
  pub has_severity : is_empty f.severity ≡ false
  pub has_weight : float_is_zero f.influence_weight ≡ false

abbrev pub Rising : ℕ → ℕ → ℕ → List Feedback → Type 0
Rising batch low next [] = low ≤ next
Rising batch low next (f ∷ fs) =
    (f.publish_batch_id ≡ batch) × IsComplete f × (low ≤ f.id) × Rising batch (suc f.id) next fs

pub record Good (next_item next_feed k : ℕ) (b : Batch) : Type 0 where
  pub own_id : b.id ≡ k
  pub sound : IsSound b
  pub numbered : Numbered k b.snapshot_id 0 0 next_item b.items
  pub fed : Rising k 0 next_feed b.feedback

abbrev pub one_if : Bool → ℕ
one_if true = 1
one_if false = 0

-- The records of a batch.
unfoldable pub records_of : ℕ → Map ℕ Record → ℕ
records_of k [] = 0
records_of k ((n, x) ∷ more) = one_if (nat_beq x.publish_batch_id k) + records_of k more

abbrev pub is_published : Status → Bool
is_published published = true
is_published _ = false

-- How many it is to have.
abbrev pub due : Option Batch → ℕ
due none = 0
due (some b) = one_if (is_published b.status)

pub record Inv (r : InMemoryRepository) : Type 0 where
  pub good : (k : ℕ) (b : Batch) → lookup k r.batches ≡ some b → Good r.next_item r.next_feed k b
  pub below : (k : ℕ) (b : Batch) → lookup k r.batches ≡ some b → k < r.next_batch
  pub recorded : (k : ℕ) → records_of k r.records ≡ due (lookup k r.batches)
  pub record_below : (n : ℕ) (x : Record) → lookup n r.records ≡ some x → n < r.next_record

-- The decisions: review may come at any time before the end, publication only once the owner may
-- decide.
pub data Edge (s : Status) : Status → Type 0 where
  approves : is_closed_status s ≡ false → Edge s review_approved
  returns : is_closed_status s ≡ false → Edge s owner_changes_requested
  rejects : is_closed_status s ≡ false → Edge s rejected
  publishes : is_ready_for_owner s ≡ true → Edge s published

-- One call makes one decision, or none.
abbrev pub Moved : Status → Status → Type 0
Moved s t = (t ≡ s) ⊎ Edge s t

-- What a batch keeps over any number of calls.
pub record Kept (b c : Batch) : Type 0 where
  pub same_id : c.id ≡ b.id
  pub same_project : c.project_id ≡ b.project_id
  pub same_snapshot : c.snapshot_id ≡ b.snapshot_id
  pub same_source : c.source ≡ b.source
  pub same_creation : c.created_at ≡ b.created_at
  pub edited : b.owner_edit_version ≤ c.owner_edit_version
  pub sealed :
      is_closed_status b.status ≡ true
      → (c.status ≡ b.status)
        × (c.review_approved_by ≡ b.review_approved_by)
        × (c.owner_decided_by ≡ b.owner_decided_by)

-- How one call changes it.
pub record Advances (b c : Batch) : Type 0 where
  pub kept : Kept b c
  pub moved : Moved b.status c.status

abbrev pub Evolves : InMemoryRepository → InMemoryRepository → Type 0
Evolves r s =
    (k : ℕ) (b : Batch)
    → lookup k r.batches ≡ some b
    → (c : Batch) × (lookup k s.batches ≡ some c) × Advances b c

-- No batch is lost over calls, and each keeps what it is to keep.
abbrev pub Preserves : InMemoryRepository → InMemoryRepository → Type 0
Preserves r s =
    (k : ℕ) (b : Batch)
    → lookup k r.batches ≡ some b
    → (c : Batch) × (lookup k s.batches ≡ some c) × Kept b c

abbrev pub After : InMemoryRepository → InMemoryRepository → Type 0
After r s = Inv s × Evolves r s
