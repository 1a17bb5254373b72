-- ===== src/Datahub/Invariant.antt =====
-- What holds of the data hub's repository (internal/datahub/repository.go) between two calls.
pub mod Lists
pub mod Calls
pub mod Imports
use yolo_ave_mujica.Base.{
  ℕ, suc, ◌≡◌, ◌≤◌, ◌<◌, not_positive, true, false, Text, is_empty, lit, decimal, nat_key, lookup,
  List, [], ◌∷◌, ◌++◌, some,
}
use yolo_ave_mujica.Datahub.Model.{Dataset, Snapshot, DatasetItem}
use yolo_ave_mujica.Datahub.Repository.{InMemoryRepository, all_of}
use yolo_ave_mujica.Datahub.Items.{has_key}

-- The snapshots of dataset `k` after the first `i`: versions counted on, ids that rise from `low`.
abbrev pub Versioned : ℕ → ℕ → ℕ → ℕ → List Snapshot → Type 0
Versioned k i low next [] = low ≤ next
Versioned k i low next (x ∷ xs) =
    (x.dataset_id ≡ k)
    × (x.version ≡ lit "v" ++ decimal (suc i))
    × (low ≤ x.id)
    × Versioned k (suc i) (suc x.id) next xs

-- The items of dataset `k`: no key twice, none empty, an etag for each, ids that rise from `low`.
abbrev pub Stock : ℕ → ℕ → ℕ → List DatasetItem → Type 0
Stock k low next [] = low ≤ next
Stock k low next (x ∷ xs) =
    (x.dataset_id ≡ k)
    × (is_empty x.object_key ≡ false)
    × (is_empty x.etag ≡ false)
    × (low ≤ x.id)
    × (has_key x.object_key xs ≡ false)
    × Stock k (suc x.id) next xs

pub record IsNamed (next k : ℕ) (d : Dataset) : Type 0 where
  pub own_id : d.id ≡ k
  pub below : k < next
  pub in_project : not_positive d.project_id ≡ false
  pub named : is_empty d.name ≡ false
  pub placed : is_empty d.bucket ≡ false

pub record Inv (r : InMemoryRepository) : Type 0 where
  pub named : (k : ℕ) (d : Dataset) → lookup k r.datasets ≡ some d → IsNamed r.next_dataset k d
  pub versioned : (k : ℕ) → Versioned k 0 0 r.next_snapshot (all_of k r.snapshots)
  pub stocked : (k : ℕ) → Stock k 0 r.next_item (all_of k r.items)
