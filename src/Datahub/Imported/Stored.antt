-- ===== src/Datahub/Imported/Stored.antt =====
-- The annotations that an import leaves in the repository.
use mathlib.Core.List.{append_assoc, append-nil}
use yolo_ave_mujica.Base.{
  ℕ, ◌≡◌, refl, sym, ◌∙◌, ap, inl, inr, Text, text_key, text_beq_iff, ◌==◌, List, [], ◌∷◌, ◌++◌,
  map, some, nat_beq, nat_beq_iff, Bool-cases,
}
use yolo_ave_mujica.Datahub.Model.{
  Dataset, Snapshot, DatasetItem, ImportedAnnotation, StoredAnnotation,
}
use yolo_ave_mujica.Datahub.Repository.{InMemoryRepository, all_of}
use yolo_ave_mujica.Datahub.Items.{
  item_by_key, list_annotations, of_snapshot, create_annotation, record_annotation_change,
}
use yolo_ave_mujica.Datahub.Import.{stored, store_entry, imported_annotation_key, as_imported}
use yolo_ave_mujica.Datahub.Imported.{Importable, none_left, one_more, stored_all, imported}

of_snapshot-append :
    (id : ℕ) (xs ys : List StoredAnnotation)
    → of_snapshot id (xs ++ ys) ≡ of_snapshot id xs ++ of_snapshot id ys
unfolding of_snapshot
of_snapshot-append id [] ys = refl
of_snapshot-append id (a ∷ xs) ys =
    let later = of_snapshot-append id xs ys in
    elim (Bool-cases (nat_beq a.snapshot_id id)) [
      | inl e ↦ rw (e, later) refl
      | inr e ↦ rw (e, later) refl
    ]

module _ (x : Snapshot) (d : Dataset) where
  of_snapshot-stored :
      (e : ImportedAnnotation) (item : DatasetItem) (category : ℕ)
      → of_snapshot x.id (stored x d e item category ∷ []) ≡ stored x d e item category ∷ []
  unfolding of_snapshot stored
  of_snapshot-stored e item category = rw ((nat_beq_iff x.id x.id).1 refl) refl

  list_annotations-store :
      (e : ImportedAnnotation) (item : DatasetItem) (category : ℕ) (r : InMemoryRepository)
      → list_annotations x.id (store_entry x d e item category r)
        ≡ list_annotations x.id r ++ (stored x d e item category ∷ [])
  unfolding list_annotations store_entry create_annotation record_annotation_change
  list_annotations-store e item category r =
      of_snapshot-append x.id r.annotations (stored x d e item category ∷ [])
      ∙ ap (λ ys. of_snapshot x.id r.annotations ++ ys) (of_snapshot-stored e item category)

  -- After an import the snapshot has the annotations of its entries besides those it had.
  pub list_annotations-imported :
      (es : List ImportedAnnotation) (found : List (DatasetItem × ℕ)) (r : InMemoryRepository)
      → list_annotations x.id (imported x d es found r)
        ≡ list_annotations x.id r ++ stored_all x d es found
  list_annotations-imported [] found r = sym (append-nil (list_annotations x.id r))
  list_annotations-imported (e ∷ es) [] r = sym (append-nil (list_annotations x.id r))
  list_annotations-imported (e ∷ es) ((item, category) ∷ found) r =
      list_annotations-imported es found (store_entry x d e item category r)
      ∙ ap (λ ys. ys ++ stored_all x d es found) (list_annotations-store e item category r)
      ∙ append_assoc (list_annotations x.id r) (stored x d e item category ∷ [])
          (stored_all x d es found)

  pub imported_snapshots :
      (es : List ImportedAnnotation) (found : List (DatasetItem × ℕ)) (r : InMemoryRepository)
      → ((imported x d es found r).snapshots ≡ r.snapshots)
        × ((imported x d es found r).datasets ≡ r.datasets)
  unfolding store_entry create_annotation record_annotation_change
  imported_snapshots [] found r = (refl, refl)
  imported_snapshots (e ∷ es) [] r = (refl, refl)
  imported_snapshots (e ∷ es) ((item, category) ∷ found) r =
      imported_snapshots es found (store_entry x d e item category r)

item_by_key-key :
    (key : Text) (items : List DatasetItem) (item : DatasetItem)
    → item_by_key key items ≡ some item
    → item.object_key ≡ key
unfolding item_by_key
item_by_key-key key [] item h = cc
item_by_key-key key (i ∷ items) item h = elim (Bool-cases (i.object_key == key)) [
  | inl e ↦
      let f : some i ≡ some item = rw e at h in
      let g : i ≡ item = cc in rw (← g) ((text_beq_iff i.object_key key).0 e)
  | inr e ↦ item_by_key-key key items item (rw e at h)
]

module _ (format : ℕ → Text) (x : Snapshot) (d : Dataset) where
  stored_key :
      (e : ImportedAnnotation) (item : DatasetItem) (category : ℕ)
      → item.object_key ≡ e.object_key
      → as_imported format (stored x d e item category) ≡ e
  unfolding stored
  stored_key e item category h = rw h refl

  -- The stored annotations read back as the entries.
  pub as_imported-stored_all :
      (r : InMemoryRepository) (seen : List Text) (es : List ImportedAnnotation)
      (found : List (DatasetItem × ℕ))
      → Importable format d r seen es found
      → map (as_imported format) (stored_all x d es found) ≡ es
  as_imported-stored_all r seen [] [] none_left = refl
  as_imported-stored_all r seen [] (p ∷ found) h = elim h [ ]
  as_imported-stored_all r seen (e ∷ es) [] h = elim h [ ]
  as_imported-stored_all r seen (e ∷ es) ((item, category) ∷ found) (one_more h more) =
      let own =
        stored_key e item category
          (item_by_key-key e.object_key (all_of d.id r.items) item h.has_item) in
      let later =
        as_imported-stored_all r (imported_annotation_key format e ∷ seen) es found more in
      rw (own, later) refl
