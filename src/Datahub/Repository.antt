-- ===== src/Datahub/Repository.antt =====
-- InMemoryRepository of internal/datahub/repository.go; each method is one step under the lock.
use yolo_ave_mujica.Base.{
  ℕ, suc, ℤ, int_key, nat_beq, leb, ltb, ◌&&◌, if◌then◌else◌, ◌==◌, Text, text_key, nat_key, lit,
  decimal, Map, lookup, insert, keys, sort, List, [], ◌∷◌, ◌++◌, Option, none, some, Outcome, ok,
  err,
}
use yolo_ave_mujica.Datahub.Model.{
  Dataset, Snapshot, DatasetItem, CreateDatasetInput, CreateSnapshotInput, StoredAnnotation,
  AnnotationChange, DatasetSummary, SnapshotDetail, Error, not_found, plain,
}

pub record InMemoryRepository : Type 0 where
  pub next_dataset : ℕ
  pub next_snapshot : ℕ
  pub next_item : ℕ
  pub next_category : ℕ
  pub datasets : Map ℕ Dataset
  pub snapshots : Map ℕ (List Snapshot)
  pub items : Map ℕ (List DatasetItem)
  pub category_ids : Map Text ℕ
  pub category_names : Map ℕ Text
  pub annotations : List StoredAnnotation
  pub changes : List AnnotationChange

unfoldable pub new_in_memory_repository : InMemoryRepository
new_in_memory_repository = record {
  next_dataset = 1;
  next_snapshot = 1;
  next_item = 1;
  next_category = 1;
  datasets = [];
  snapshots = [];
  items = [];
  category_ids = [];
  category_names = [];
  annotations = [];
  changes = [];
}

abbrev pub Action : Type 0 → Type 0
Action A = InMemoryRepository → Outcome Error InMemoryRepository A

abbrev pub count {ℓ} : {A : Type ℓ} → List A → ℕ
count [] = 0
count (x ∷ xs) = suc (count xs)

-- `m[k]` where a missing key stands for an empty slice.
abbrev pub or_empty {ℓ} : {A : Type ℓ} → Option (List A) → List A
or_empty none = []
or_empty (some xs) = xs

abbrev pub all_of : {A : Type 0} → ℕ → Map ℕ (List A) → List A
all_of k m = or_empty (lookup k m)

unfoldable pub create_dataset_in : CreateDatasetInput → Action Dataset
create_dataset_in i r =
    let d : Dataset = record {
      id = r.next_dataset;
      project_id = i.project_id;
      name = i.name;
      bucket = i.bucket;
      prefix = i.prefix;
    } in
    ok d (record r {
      next_dataset = suc r.next_dataset;
      datasets = insert d.id d r.datasets;
      items = insert d.id [] r.items;
    })

unfoldable pub find_dataset : ℕ → Action Dataset
find_dataset id r = elim (lookup id r.datasets) [
  | none ↦ err (plain "dataset not found") r
  | some d ↦ ok d r
]

-- `r.snapshots[id][n-1]`, if n > 0.
unfoldable pub latest : List Snapshot → Option (ℕ × Text)
latest [] = none
latest (x ∷ []) = some (x.id, x.version)
latest (x ∷ y ∷ ys) = latest (y ∷ ys)

unfoldable pub summary : InMemoryRepository → Dataset → DatasetSummary
unfolding latest
summary r d = record {
  dataset = d;
  item_count = count (all_of d.id r.items);
  snapshot_count = count (all_of d.id r.snapshots);
  latest_snapshot = latest (all_of d.id r.snapshots);
}

unfoldable pub summaries : InMemoryRepository → ℤ → List ℕ → List DatasetSummary
unfolding summary
summaries r project [] = []
summaries r project (id ∷ ids) =
    let rest = summaries r project ids in
    elim (lookup id r.datasets) [
      | none ↦ rest
      | some d ↦ if d.project_id == project then summary r d ∷ rest else rest
    ]

unfoldable pub list_datasets_in : ℤ → Action (List DatasetSummary)
unfolding summaries sort
list_datasets_in project r = ok (summaries r project (sort ltb (keys r.datasets))) r

unfoldable pub find_dataset_detail : ℕ → Action DatasetSummary
unfolding summary
find_dataset_detail id r = elim (lookup id r.datasets) [
  | none ↦ err not_found r
  | some d ↦ ok (summary r d) r
]

unfoldable pub create_snapshot_in : ℕ → CreateSnapshotInput → Action Snapshot
unfolding decimal
create_snapshot_in id i r = elim (lookup id r.datasets) [
  | none ↦ err (plain "dataset not found") r
  | some d ↦
      let old = all_of id r.snapshots in
      let x : Snapshot = record {
        id = r.next_snapshot;
        dataset_id = id;
        version = lit "v" ++ decimal (suc (count old));
        based_on_snapshot = i.based_on_snapshot_id;
        note = i.note;
      } in
      ok x (record r {
        next_snapshot = suc r.next_snapshot;
        snapshots = insert id (old ++ (x ∷ [])) r.snapshots;
      })
]

unfoldable pub list_snapshots_in : ℕ → Action (List Snapshot)
list_snapshots_in id r = elim (lookup id r.datasets) [
  | none ↦ err (plain "dataset not found") r
  | some d ↦ ok (all_of id r.snapshots) r
]

unfoldable pub snapshot_in : ℕ → List Snapshot → Option Snapshot
snapshot_in id [] = none
snapshot_in id (x ∷ xs) = let rest = snapshot_in id xs in if nat_beq x.id id then some x else rest

abbrev pub or_else : {A : Type 0} → Option A → Option A → Option A
or_else none b = b
or_else (some a) b = some a

-- The two loops of GetSnapshot.
unfoldable pub snapshot_of : ℕ → Map ℕ (List Snapshot) → List ℕ → Option Snapshot
unfolding snapshot_in
snapshot_of id m [] = none
snapshot_of id m (k ∷ ks) = or_else (snapshot_in id (all_of k m)) (snapshot_of id m ks)

unfoldable pub find_snapshot : ℕ → Action Snapshot
unfolding snapshot_of
find_snapshot id r = elim (snapshot_of id r.snapshots (keys r.datasets)) [
  | none ↦ err (plain "snapshot not found") r
  | some x ↦ ok x r
]

-- The annotations of a dataset up to a snapshot.
unfoldable pub count_up_to : ℕ → ℕ → List StoredAnnotation → ℕ
count_up_to dataset snapshot [] = 0
count_up_to dataset snapshot (a ∷ annotations) =
    let rest = count_up_to dataset snapshot annotations in
    if nat_beq a.dataset_id dataset && leb a.snapshot_id snapshot then suc rest else rest

unfoldable pub find_snapshot_detail : ℕ → Action SnapshotDetail
unfolding snapshot_of count_up_to
find_snapshot_detail id r = elim (snapshot_of id r.snapshots (keys r.snapshots)) [
  | none ↦ err not_found r
  | some x ↦ elim (lookup x.dataset_id r.datasets) [
    | none ↦ err not_found r
    | some d ↦
        ok
          (record {
            snapshot = x;
            project_id = d.project_id;
            dataset_name = d.name;
            annotation_count = count_up_to x.dataset_id id r.annotations;
          })
          r
  ]
]
