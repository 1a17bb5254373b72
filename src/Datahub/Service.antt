-- ===== src/Datahub/Service.antt =====
-- The Service of internal/datahub/service.go over the in-memory repository, without ImportSnapshot. Stored
-- ids start at 1, so that an id that is not positive finds what 0 finds. The scanner and the presign
-- function are parameters.
use yolo_ave_mujica.Base.{
  ℕ, ℤ, pos, not_positive, to_nat, Bool, true, false, ◌||◌, if◌then◌else◌, Text, is_empty, List, [],
  ◌∷◌, Option, none, some, String, Try, fault, check, attempt, ◌>>=◌, ◌>>◌,
}
use yolo_ave_mujica.Datahub.Model.{
  Dataset, Snapshot, DatasetItem, CreateDatasetInput, CreateSnapshotInput, PresignInput,
  ScannedObject, DatasetSummary, SnapshotDetail, Error, plain,
}
use yolo_ave_mujica.Datahub.Repository.{
  Action, create_dataset_in, find_dataset, list_datasets_in, find_dataset_detail,
  create_snapshot_in, list_snapshots_in, find_snapshot, find_snapshot_detail,
}
use yolo_ave_mujica.Datahub.Items.{upsert_scanned_items, insert_items, list_items_in}

abbrev pub first_problem : List (Bool × String) → Option Error
first_problem [] = none
first_problem ((true, message) ∷ checks) = some (plain message)
first_problem ((false, message) ∷ checks) = first_problem checks

unfoldable pub dataset_problem : CreateDatasetInput → Option Error
dataset_problem i = first_problem (
    (not_positive i.project_id, "project_id must be > 0")
    ∷ (is_empty i.name || is_empty i.bucket, "name and bucket are required")
    ∷ [])

unfoldable pub create_dataset : CreateDatasetInput → Action Dataset
unfolding dataset_problem create_dataset_in
create_dataset i = check (dataset_problem i) >> create_dataset_in i

unfoldable pub create_snapshot : ℕ → CreateSnapshotInput → Action Snapshot
unfolding create_snapshot_in
create_snapshot id i = create_snapshot_in id i

unfoldable pub get_snapshot : ℕ → Action Snapshot
unfolding find_snapshot
get_snapshot id = find_snapshot id

unfoldable pub list_snapshots : ℕ → Action (List Snapshot)
unfolding list_snapshots_in
list_snapshots id = list_snapshots_in id

unfoldable pub list_datasets : ℤ → Action (List DatasetSummary)
unfolding list_datasets_in
list_datasets project =
    check (first_problem ((not_positive project, "project_id must be > 0") ∷ []))
    >> list_datasets_in project

unfoldable pub get_dataset_detail : ℤ → Action DatasetSummary
unfolding find_dataset_detail
get_dataset_detail id =
    check (first_problem ((not_positive id, "dataset_id must be > 0") ∷ []))
    >> find_dataset_detail (to_nat id)

unfoldable pub get_snapshot_detail : ℤ → Action SnapshotDetail
unfolding find_snapshot_detail
get_snapshot_detail id =
    check (first_problem ((not_positive id, "snapshot_id must be > 0") ∷ []))
    >> find_snapshot_detail (to_nat id)

-- ObjectScanner: the objects of a bucket under a prefix.
abbrev pub ObjectScanner : Type 0
ObjectScanner = Text → Text → Try Error (List ScannedObject)

-- ScanDataset; `now` is what the repository reads for the name of a sample.
unfoldable pub scan_dataset : Option ObjectScanner → ℕ → List Text → ℕ → Action ℕ
unfolding insert_items find_dataset upsert_scanned_items
scan_dataset scanner id (key ∷ rest) now = insert_items id (key ∷ rest) now
scan_dataset none id [] now = insert_items id [] now
scan_dataset (some scan) id [] now = do
  d ← find_dataset id
  objects ← attempt (scan d.bucket d.prefix)
  upsert_scanned_items id objects

unfoldable pub list_items : ℕ → Action (List DatasetItem)
unfolding list_items_in
list_items id = list_items_in id

-- PresignFunc.
abbrev pub PresignFunc : Type 0
PresignFunc = ℤ → Text → ℤ → Try Error Text

unfoldable pub presign_object : Option PresignFunc → PresignInput → Try Error Text
presign_object none i = fault (plain "presign function is not configured")
presign_object (some presign) i =
    if not_positive i.dataset_id || is_empty i.object_key
    then fault (plain "dataset_id and object_key are required")
    else presign i.dataset_id i.object_key
        (if not_positive i.ttl_seconds then pos 120 else i.ttl_seconds)
