-- ===== src/Datahub/Tests.antt =====
-- The data hub theorems at concrete inputs, and runs of the data hub.
use yolo_ave_mujica.Base.{
  ℕ, pos, ◌≡◌, refl, lit, text_beq, Text, lookup, insert, keys, nat_key, List, [], ◌∷◌, none, some,
  ok, err, map, decimal, decimal_int,
}
use yolo_ave_mujica.Datahub.Model.{
  Dataset, Snapshot, DatasetItem, ImportedAnnotation, ImportSnapshotInput, ImportSnapshotResult,
  conflict, validation, is_below_zero, is_at_most_zero,
}
use yolo_ave_mujica.Datahub.Repository.{
  InMemoryRepository, new_in_memory_repository, all_of, snapshot_of, snapshot_in, create_dataset_in,
  create_snapshot_in,
}
use yolo_ave_mujica.Datahub.Items.{
  list_annotations, of_snapshot, has_key, new_item, upsert, upsert_scanned_items, insert_items,
  named_objects, item_by_key, category_key, category_of, ensure_category,
}
use yolo_ave_mujica.Datahub.Service.{create_dataset, create_snapshot, scan_dataset}
use yolo_ave_mujica.Datahub.Import.{
  import_snapshot, import_problem, is_supported_import_format, entry_problem, as_imported, seen_in,
}
use yolo_ave_mujica.Datahub.Imported.{
  IsImportable, Importable, none_left, one_more, stored_all, imported,
}
use yolo_ave_mujica.Datahub.Imported.Laws.{import_snapshot_lem, import_snapshot_partial}
use yolo_ave_mujica.Datahub.Invariant.{Inv}
use yolo_ave_mujica.Datahub.History.{Call, creates, takes_snapshot, scans, ensures, step, run}
use yolo_ave_mujica.Datahub.History.Laws.{run_stocked}

-- A stand-in for `%f`.
abbrev shown : ℕ → Text
shown = decimal

abbrev calls : List (ℕ × Call)
calls =
    (
      1,
      creates
          (record { project_id = pos 1; name = lit "roads"; bucket = lit "b"; prefix = lit "p" }),
    )
    ∷ (2, takes_snapshot 1 (record { based_on_snapshot_id = none; note = [] }))
    ∷ (3, scans 1 (lit "a.png" ∷ lit "a.png" ∷ []))
    ∷ (4, ensures (pos 1) (lit "car"))
    ∷ []

abbrev hub : InMemoryRepository
hub = run shown none calls new_in_memory_repository

run_stocked_example : Inv hub
run_stocked_example = run_stocked shown none calls

abbrev roads : Dataset
roads = record {
  id = 1;
  project_id = pos 1;
  name = lit "roads";
  bucket = lit "b";
  prefix = lit "p";
}

abbrev first : Snapshot
first = record { id = 1; dataset_id = 1; version = lit "v1"; based_on_snapshot = none; note = [] }

abbrev picture : DatasetItem
picture = record { id = 1; dataset_id = 1; object_key = lit "a.png"; etag = lit "etag-1" }

-- A box from 0 to 1 in both directions.
abbrev box : ImportedAnnotation
box = record {
  object_key = lit "a.png";
  category_name = lit "car";
  bbox_x = 0;
  bbox_y = 0;
  bbox_w = 0x3ff0000000000000;
  bbox_h = 0x3ff0000000000000;
}

abbrev flat : ImportedAnnotation
flat = record box { bbox_h = 0 }

abbrev one_box : ImportSnapshotInput
one_box = record { format = lit "yolo"; source_uri = []; entries = box ∷ [] }

abbrev two_boxes : ImportSnapshotInput
two_boxes = record one_box { entries = box ∷ flat ∷ [] }

fine : import_problem one_box ≡ none
unfolding import_problem is_supported_import_format lit text_beq
fine = refl

fine_too : import_problem two_boxes ≡ none
unfolding import_problem is_supported_import_format lit text_beq
fine_too = refl

has_first : snapshot_of 1 hub.snapshots (keys hub.datasets) ≡ some first
unfolding run step create_dataset create_dataset_in create_snapshot create_snapshot_in scan_dataset
    insert_items upsert_scanned_items ensure_category insert lookup new_in_memory_repository lit
    text_beq snapshot_of snapshot_in decimal
has_first = refl

has_roads : lookup 1 hub.datasets ≡ some roads
unfolding run step create_dataset create_dataset_in create_snapshot create_snapshot_in scan_dataset
    insert_items upsert_scanned_items ensure_category insert lookup new_in_memory_repository lit
    text_beq
has_roads = refl

no_annotations : list_annotations 1 hub ≡ []
unfolding run step create_dataset create_dataset_in create_snapshot create_snapshot_in scan_dataset
    insert_items upsert_scanned_items ensure_category insert lookup new_in_memory_repository lit
    text_beq list_annotations of_snapshot
no_annotations = refl

has_picture : item_by_key box.object_key (all_of 1 hub.items) ≡ some picture
unfolding run step create_dataset create_dataset_in create_snapshot create_snapshot_in scan_dataset
    insert_items named_objects upsert_scanned_items upsert new_item has_key ensure_category insert
    lookup new_in_memory_repository lit text_beq item_by_key decimal
has_picture = refl

has_car : category_of (pos 1) box.category_name hub ≡ some 1
unfolding run step create_dataset create_dataset_in create_snapshot create_snapshot_in scan_dataset
    insert_items named_objects upsert_scanned_items upsert new_item has_key ensure_category insert
    lookup new_in_memory_repository lit text_beq category_of category_key decimal decimal_int
has_car = refl

box-IsImportable : IsImportable shown roads hub [] box picture 1
unfolding lit is_below_zero is_at_most_zero seen_in
box-IsImportable = record {
  named = refl;
  labelled = refl;
  right_of_zero = refl;
  under_zero = refl;
  wide = refl;
  high = refl;
  fresh = refl;
  has_item = has_picture;
  has_category = has_car;
}

abbrev found : List (DatasetItem × ℕ)
found = (picture, 1) ∷ []

box_only : Importable shown roads hub [] (box ∷ []) found
box_only = one_more box-IsImportable none_left

import_snapshot_lem_example :
    let t = imported first roads (box ∷ []) found hub in
    let answer : ImportSnapshotResult = record {
      dataset_id = 1;
      snapshot_id = 1;
      imported_annotations = 1;
    } in
    (import_snapshot shown 1 one_box hub ≡ ok answer t)
    × (list_annotations 1 t ≡ stored_all first roads (box ∷ []) found)
    × (map (as_imported shown) (list_annotations 1 t) ≡ box ∷ [])
    × (import_snapshot shown 1 one_box t ≡ ok answer t)
import_snapshot_lem_example =
    import_snapshot_lem shown 1 one_box hub first roads found fine has_first has_roads
      no_annotations box_only

flat_problem : entry_problem flat ≡ some (validation "bbox geometry is invalid")
unfolding entry_problem lit is_below_zero is_at_most_zero
flat_problem = refl

-- The same import once the flat box is mended.
abbrev mended : ImportSnapshotInput
mended = record one_box { entries = box ∷ record box { bbox_x = 0x3ff0000000000000 } ∷ [] }

mended_fine : import_problem mended ≡ none
unfolding import_problem is_supported_import_format lit text_beq
mended_fine = refl

import_snapshot_partial_example :
    let t = imported first roads (box ∷ []) found hub in
    (import_snapshot shown 1 two_boxes hub ≡ err (validation "bbox geometry is invalid") t)
    × (list_annotations 1 t ≡ stored_all first roads (box ∷ []) found)
    × (import_snapshot shown 1 mended t
        ≡ err (conflict "import already completed with different annotations") t)
import_snapshot_partial_example =
    import_snapshot_partial shown 1 two_boxes mended hub first roads (box ∷ []) [] flat found
      (validation "bbox geometry is invalid") fine_too mended_fine has_first has_roads
      no_annotations refl refl box_only flat_problem refl
