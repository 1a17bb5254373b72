-- ===== src/Datahub/Import.antt =====
-- ImportSnapshot of internal/datahub/service.go. `format` is `%f` of package fmt on the bits of a float64.
use yolo_ave_mujica.Base.{
  ℕ, suc, ℤ, pos, nat_beq, Bool, true, false, not, ◌&&◌, ◌||◌, if◌then◌else◌, ◌==◌, Text, text_key,
  is_empty, lit, sort, text_ltb, List, [], ◌∷◌, ◌++◌, map, Option, none, some, String, ok, err, Try,
  value, fault, check, ◌>>=◌, ◌>>◌,
}
use yolo_ave_mujica.Datahub.Model.{
  Dataset, Snapshot, DatasetItem, ImportedAnnotation, ImportSnapshotInput, ImportSnapshotResult,
  StoredAnnotation, AnnotationChange, Error, not_found, validation, conflict, is_below_zero,
  is_at_most_zero,
}
use yolo_ave_mujica.Datahub.Repository.{
  InMemoryRepository, Action, count, all_of, find_dataset, find_snapshot,
}
use yolo_ave_mujica.Datahub.Items.{
  item_by_key, category_of, create_annotation, record_annotation_change, list_annotations,
}

unfoldable pub is_supported_import_format : Text → Bool
is_supported_import_format t = t == lit "yolo" || t == lit "coco"

abbrev pub first_error : List (Bool × String) → Option Error
first_error [] = none
first_error ((true, message) ∷ checks) = some (validation message)
first_error ((false, message) ∷ checks) = first_error checks

abbrev pub no_entries : List ImportedAnnotation → Bool
no_entries [] = true
no_entries (e ∷ es) = false

unfoldable pub import_problem : ImportSnapshotInput → Option Error
unfolding is_supported_import_format
import_problem i = first_error (
    (is_empty i.format, "format is required")
    ∷ (not (is_supported_import_format i.format), "unsupported format")
    ∷ (no_entries i.entries, "entries are required")
    ∷ [])

unfoldable pub entry_problem : ImportedAnnotation → Option Error
unfolding is_below_zero is_at_most_zero
entry_problem e = first_error (
    (is_empty e.object_key || is_empty e.category_name, "object_key and category_name are required")
    ∷ (
      is_below_zero e.bbox_x
          || is_below_zero e.bbox_y
          || is_at_most_zero e.bbox_w
          || is_at_most_zero e.bbox_h,
      "bbox geometry is invalid",
    )
    ∷ [])

unfoldable pub seen_in : Text → List Text → Bool
seen_in key [] = false
seen_in key (k ∷ ks) = k == key || seen_in key ks

unfoldable pub same_texts : List Text → List Text → Bool
same_texts [] [] = true
same_texts (s ∷ ss) (t ∷ ts) = s == t && same_texts ss ts
same_texts _ _ = false

-- `snapshot.ID`, or the snapshot that it is based on.
abbrev pub from_snapshot : Snapshot → ℤ
from_snapshot x = elim x.based_on_snapshot [ none ↦ pos x.id | some id ↦ id ]

-- What is stored of an entry whose item and category are known.
unfoldable pub stored : Snapshot → Dataset → ImportedAnnotation → DatasetItem → ℕ → StoredAnnotation
stored x d e item category = record {
  snapshot_id = x.id;
  dataset_id = d.id;
  item_id = item.id;
  object_key = item.object_key;
  category_id = category;
  category_name = e.category_name;
  bbox_x = e.bbox_x;
  bbox_y = e.bbox_y;
  bbox_w = e.bbox_w;
  bbox_h = e.bbox_h;
}

unfoldable pub added : Snapshot → ImportedAnnotation → DatasetItem → ℕ → AnnotationChange
added x e item category = record {
  from_snapshot_id = from_snapshot x;
  to_snapshot_id = x.id;
  item_id = item.id;
  change_type = lit "added";
  before = none;
  after = some (record {
    object_key = item.object_key;
    category_id = category;
    category_name = e.category_name;
    bbox_x = e.bbox_x;
    bbox_y = e.bbox_y;
    bbox_w = e.bbox_w;
    bbox_h = e.bbox_h;
  });
}

-- The end of the loop's body.
unfoldable pub store_entry :
    Snapshot
    → Dataset
    → ImportedAnnotation
    → DatasetItem
    → ℕ
    → InMemoryRepository
    → InMemoryRepository
unfolding stored added create_annotation record_annotation_change
store_entry x d e item category r =
    record_annotation_change (added x e item category)
      (create_annotation (stored x d e item category) r)

module _ (format : ℕ → Text) where
  unfoldable pub imported_annotation_key : ImportedAnnotation → Text
  imported_annotation_key e =
      e.object_key
      ++ lit "|"
      ++ e.category_name
      ++ lit "|"
      ++ format e.bbox_x
      ++ lit "|"
      ++ format e.bbox_y
      ++ lit "|"
      ++ format e.bbox_w
      ++ lit "|"
      ++ format e.bbox_h

  abbrev pub as_imported : StoredAnnotation → ImportedAnnotation
  as_imported a = record {
    object_key = a.object_key;
    category_name = a.category_name;
    bbox_x = a.bbox_x;
    bbox_y = a.bbox_y;
    bbox_w = a.bbox_w;
    bbox_h = a.bbox_h;
  }

  unfoldable pub import_entries_match_snapshot :
      List StoredAnnotation → List ImportedAnnotation → Bool
  unfolding imported_annotation_key same_texts sort text_ltb
  import_entries_match_snapshot existing incoming =
      nat_beq (count existing) (count incoming)
      && same_texts (sort text_ltb (map (λ a. imported_annotation_key (as_imported a)) existing))
          (sort text_ltb (map imported_annotation_key incoming))

  -- The checks of the loop's body: the item and the category of an entry.
  unfoldable pub resolve :
      Dataset → List Text → ImportedAnnotation → InMemoryRepository → Try Error (DatasetItem × ℕ)
  unfolding entry_problem seen_in imported_annotation_key item_by_key category_of
  resolve d seen e r = elim (entry_problem e) [
    | some problem ↦ fault problem
    | none ↦
        if seen_in (imported_annotation_key e) seen
        then fault (validation "duplicate annotation")
        else elim (item_by_key e.object_key (all_of d.id r.items)) [
          | none ↦ fault not_found
          | some item ↦ elim (category_of d.project_id e.category_name r) [
            | none ↦ fault (validation "unknown category")
            | some category ↦ value (item, category)
          ]
        ]
  ]

  -- The loop, with what it has seen and the number of imported entries.
  unfoldable pub import_entries :
      Snapshot → Dataset → List ImportedAnnotation → List Text → ℕ → Action ℕ
  unfolding resolve store_entry
  import_entries x d [] seen imported r = ok imported r
  import_entries x d (e ∷ es) seen imported r = elim (resolve d seen e r) [
    | fault problem ↦ err problem r
    | value (item, category) ↦
        import_entries x d es (imported_annotation_key e ∷ seen) (suc imported)
          (store_entry x d e item category r)
  ]

  -- Where the snapshot has annotations already, and where it has none.
  unfoldable pub import_into :
      Snapshot
      → Dataset
      → List ImportedAnnotation
      → List StoredAnnotation
      → Action ImportSnapshotResult
  unfolding import_entries import_entries_match_snapshot
  import_into x d es [] r = elim (import_entries x d es [] 0 r) [
    | err problem r' ↦ err problem r'
    | ok n r' ↦ ok (record { dataset_id = d.id; snapshot_id = x.id; imported_annotations = n }) r'
  ]
  import_into x d es (a ∷ existing) r =
      if import_entries_match_snapshot (a ∷ existing) es
      then ok
          (record {
            dataset_id = d.id;
            snapshot_id = x.id;
            imported_annotations = count (a ∷ existing);
          })
          r
      else err (conflict "import already completed with different annotations") r

  unfoldable pub import_snapshot : ℕ → ImportSnapshotInput → Action ImportSnapshotResult
  unfolding import_problem find_snapshot find_dataset list_annotations import_into
  import_snapshot id i = do
    check (import_problem i)
    x ← find_snapshot id
    d ← find_dataset x.dataset_id
    λ r. import_into x d i.entries (list_annotations x.id r) r
