-- ===== src/Datahub/Invariant/Imports.antt =====
-- ImportSnapshot of internal/datahub/service.go and EnsureCategory of repository.go leave datasets,
-- snapshots and items as they are.
use yolo_ave_mujica.Base.{
  ℕ, suc, ℤ, ◌≡◌, refl, ◌∙◌, ◌⊎◌, inl, inr, Text, keys, lookup, nat_key, List, [], ◌∷◌, Bool-cases,
  Option-cases, Outcome, ok, err, Try, value, fault, and_then, state_of, text_key,
}
use yolo_ave_mujica.Datahub.Model.{
  Dataset, Snapshot, DatasetItem, ImportedAnnotation, ImportSnapshotInput, StoredAnnotation, Error,
}
use yolo_ave_mujica.Datahub.Repository.{
  InMemoryRepository, find_dataset, find_snapshot, snapshot_of,
}
use yolo_ave_mujica.Datahub.Items.{
  create_annotation, record_annotation_change, category_key, ensure_category, list_annotations,
}
use yolo_ave_mujica.Datahub.Import.{
  imported_annotation_key, import_problem, import_entries_match_snapshot, resolve, store_entry,
  import_entries, import_into, import_snapshot,
}
use yolo_ave_mujica.Datahub.Invariant.{Inv}
use yolo_ave_mujica.Datahub.Invariant.Calls.{Keeps, Rest, Inv-same}

Rest-refl : (r : InMemoryRepository) → Rest r r
Rest-refl r = (refl, refl, refl, refl, refl, refl)

Rest-trans : (r s t : InMemoryRepository) → Rest r s → Rest s t → Rest r t
Rest-trans r s t (a, b, c, d, e, f) (a', b', c', d', e', f') =
    (a' ∙ a, b' ∙ b, c' ∙ c, d' ∙ d, e' ∙ e, f' ∙ f)

try_cases :
    {A : Type 0} (o : Try Error A) → ((e : Error) × (o ≡ fault e)) ⊎ ((a : A) × (o ≡ value a))
try_cases (value a) = inr (a, refl)
try_cases (fault e) = inl (e, refl)

pub ensure_category-Keeps :
    (project : ℤ) (name : Text) (r : InMemoryRepository)
    → Inv r
    → Inv (ensure_category project name r).1
unfolding ensure_category
ensure_category-Keeps project name r inv =
    elim (Option-cases (lookup (category_key project name) r.category_ids)) [
      | inl e ↦
          rw (e, ensure_category)
            (record { named = inv.named; versioned = inv.versioned; stocked = inv.stocked })
      | inr (id, e) ↦ rw (e, ensure_category) inv
    ]

module _ (format : ℕ → Text) (x : Snapshot) (d : Dataset) where
  store_entry-Rest :
      (e : ImportedAnnotation) (item : DatasetItem) (category : ℕ) (r : InMemoryRepository)
      → Rest r (store_entry x d e item category r)
  unfolding store_entry create_annotation record_annotation_change
  store_entry-Rest e item category r = (refl, refl, refl, refl, refl, refl)

  import_entries-Rest :
      (es : List ImportedAnnotation) (seen : List Text) (n : ℕ) (r : InMemoryRepository)
      → Rest r (state_of (import_entries format x d es seen n r))
  unfolding import_entries
  import_entries-Rest [] seen n r = Rest-refl r
  import_entries-Rest (e ∷ es) seen n r = elim (try_cases (resolve format d seen e r)) [
    | inl (problem, h) ↦ rw (h, import_entries, state_of) (Rest-refl r)
    | inr ((item, category), h) ↦
        let next = store_entry x d e item category r in
        rw (h, import_entries)
          (Rest-trans r next
            (state_of
              (import_entries format x d es (imported_annotation_key format e ∷ seen) (suc n) next))
            (store_entry-Rest e item category r)
            (import_entries-Rest es (imported_annotation_key format e ∷ seen) (suc n) next))
  ]

  answered-Rest :
      (r : InMemoryRepository) (es : List ImportedAnnotation)
      → (o : Outcome Error InMemoryRepository ℕ) → import_entries format x d es [] 0 r ≡ o
      → Rest r (state_of o)
      → Rest r (state_of (import_into format x d es [] r))
  unfolding import_into
  answered-Rest r es (ok n s) h rest = rw (h, import_into, state_of) rest
  answered-Rest r es (err e s) h rest = rw (h, import_into, state_of) rest

  import_into-Rest :
      (es : List ImportedAnnotation) (old : List StoredAnnotation) (r : InMemoryRepository)
      → Rest r (state_of (import_into format x d es old r))
  unfolding import_into
  import_into-Rest es [] r =
      answered-Rest r es (import_entries format x d es [] 0 r) refl (import_entries-Rest es [] 0 r)
  import_into-Rest es (a ∷ old) r =
      elim (Bool-cases (import_entries_match_snapshot format (a ∷ old) es)) [
        | inl e ↦ rw (e, import_into, state_of) (Rest-refl r)
        | inr e ↦ rw (e, import_into, state_of) (Rest-refl r)
      ]

pub import_snapshot-Keeps :
    (format : ℕ → Text) (id : ℕ) (i : ImportSnapshotInput) → Keeps (import_snapshot format id i)
unfolding import_snapshot find_snapshot find_dataset
import_snapshot-Keeps format id i r inv = elim (Option-cases (import_problem i)) [
  | inr (e, bad) ↦ rw (bad, and_then, state_of) inv
  | inl fine ↦ elim (Option-cases (snapshot_of id r.snapshots (keys r.datasets))) [
    | inl e ↦ rw (fine, and_then, e, state_of) inv
    | inr (x, e) ↦ elim (Option-cases (lookup x.dataset_id r.datasets)) [
      | inl f ↦ rw (fine, and_then, e, f, state_of) inv
      | inr (d, f) ↦
          rw (fine, and_then, e, f)
            (Inv-same r (state_of (import_into format x d i.entries (list_annotations x.id r) r))
              (import_into-Rest format x d i.entries (list_annotations x.id r) r) inv)
    ]
  ]
]
