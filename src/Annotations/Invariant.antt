-- ===== src/Annotations/Invariant.antt =====
-- What holds of the annotations (internal/annotations/in_memory_repository.go) between two calls, and
-- how an annotation may change over a call.
pub mod Writes
pub mod Saves
use yolo_ave_mujica.Base.{
  ℕ, ℤ, ◌≡◌, ◌≤◌, ◌<◌, ◌⊎◌, true, false, Bool, Text, is_empty, Option, none, some, List, [], lookup,
  nat_key,
}
use yolo_ave_mujica.Annotations.Model.{State, draft, submitted, Annotation}
use yolo_ave_mujica.Annotations.Repository.{InMemoryRepository, is_submitted}

abbrev pub is_set {ℓ} : {A : Type ℓ} → Option A → Bool
is_set none = false
is_set (some a) = true

-- The annotation of task `k`: who submitted it, and when, is known exactly if it is submitted.
pub record IsSound (next k : ℕ) (a : Annotation) : Type 0 where
  pub own_task : a.task_id ≡ k
  pub below : a.id < next
  pub revised : 1 ≤ a.revision
  pub signed :
      is_submitted a.state ≡ true
      → (is_empty a.submitted_by ≡ false) × (is_set a.submitted_at ≡ true)
  pub unsigned :
      is_submitted a.state ≡ false
      → (is_empty a.submitted_by ≡ true) × (is_set a.submitted_at ≡ false)

pub record Inv (r : InMemoryRepository) : Type 0 where
  pub sound : (k : ℕ) (a : Annotation) → lookup k r.by_task ≡ some a → IsSound r.next_id k a
  pub unique :
      (j k : ℕ) (a b : Annotation)
      → lookup j r.by_task ≡ some a
      → lookup k r.by_task ≡ some b
      → a.id ≡ b.id
      → j ≡ k

-- A later state of an annotation: the same context, and either nothing has changed or a draft has got a
-- higher revision.
pub record Advances (a b : Annotation) : Type 0 where
  pub same_id : b.id ≡ a.id
  pub same_task : b.task_id ≡ a.task_id
  pub same_snapshot : b.snapshot_id ≡ a.snapshot_id
  pub same_asset : b.asset_object_key ≡ a.asset_object_key
  pub same_frame : b.frame_index ≡ a.frame_index
  pub same_ontology : b.ontology_version ≡ a.ontology_version
  pub same_creation : b.created_at ≡ a.created_at
  pub revised : (b ≡ a) ⊎ ((is_submitted a.state ≡ false) × (a.revision < b.revision))

abbrev pub Evolves : InMemoryRepository → InMemoryRepository → Type 0
Evolves r s =
    (k : ℕ) (a : Annotation)
    → lookup k r.by_task ≡ some a
    → (b : Annotation) × (lookup k s.by_task ≡ some b) × Advances a b

abbrev pub After : InMemoryRepository → InMemoryRepository → Type 0
After r s = Inv s × Evolves r s
