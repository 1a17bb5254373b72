-- ===== src/Datahub/Items.antt =====
-- The items, categories, annotations and changes of the InMemoryRepository of
-- internal/datahub/repository.go.
use yolo_ave_mujica.Base.{
  ℕ, suc, ℤ, pos, nat_beq, Bool, true, false, ◌||◌, if◌then◌else◌, ◌==◌, Text, text_key, nat_key,
  is_empty, lit, decimal, decimal_int, lookup, insert, List, [], ◌∷◌, ◌++◌, Option, none, some, ok,
  err, ◌>>=◌,
}
use yolo_ave_mujica.Datahub.Model.{
  DatasetItem, ScannedObject, StoredAnnotation, AnnotationChange, plain,
}
use yolo_ave_mujica.Datahub.Repository.{InMemoryRepository, Action, all_of, find_dataset}

-- `existing[key]`.
unfoldable pub has_key : Text → List DatasetItem → Bool
has_key key [] = false
has_key key (x ∷ xs) = x.object_key == key || has_key key xs

unfoldable pub new_item : ℕ → ℕ → ScannedObject → DatasetItem
unfolding decimal
new_item id dataset o = record {
  id = id;
  dataset_id = dataset;
  object_key = o.key;
  etag = if is_empty o.etag then lit "etag-" ++ decimal id else o.etag;
}

-- The loop of UpsertScannedItems: the next id, the items and how many are new.
unfoldable pub upsert : ℕ → List ScannedObject → ℕ → List DatasetItem → ℕ → ℕ × List DatasetItem × ℕ
unfolding has_key new_item
upsert dataset [] next items added = (next, items, added)
upsert dataset (o ∷ os) next items added = elim (is_empty o.key || has_key o.key items) [
  | true ↦ upsert dataset os next items added
  | false ↦ upsert dataset os (suc next) (items ++ (new_item next dataset o ∷ [])) (suc added)
]

unfoldable pub upsert_scanned_items : ℕ → List ScannedObject → Action ℕ
unfolding upsert
upsert_scanned_items id objects r = elim (lookup id r.datasets) [
  | none ↦ err (plain "dataset not found") r
  | some d ↦
      let (next, items, added) = upsert id objects r.next_item (all_of id r.items) 0 in
      ok added (record r { next_item = next; items = insert id items r.items })
]

abbrev pub bare_object : Text → ScannedObject
bare_object key = record {
  key = key;
  etag = [];
  size = pos 0;
  mime = [];
  width = pos 0;
  height = pos 0;
}

unfoldable pub named_objects : List Text → List ScannedObject
named_objects [] = []
named_objects (key ∷ rest) =
    let more = named_objects rest in if is_empty key then more else bare_object key ∷ more

-- `if len(objectKeys) == 0 { objectKeys = []string{…} }`; `now` is UnixNano.
abbrev pub keys_or_sample : Text → ℕ → List Text → List Text
keys_or_sample prefix now [] = (prefix ++ lit "/sample-" ++ decimal now ++ lit ".jpg") ∷ []
keys_or_sample prefix now (key ∷ rest) = key ∷ rest

unfoldable pub insert_items : ℕ → List Text → ℕ → Action ℕ
unfolding find_dataset named_objects upsert_scanned_items decimal
insert_items id object_keys now = do
  d ← find_dataset id
  upsert_scanned_items id (named_objects (keys_or_sample d.prefix now object_keys))

unfoldable pub list_items_in : ℕ → Action (List DatasetItem)
list_items_in id r = elim (lookup id r.datasets) [
  | none ↦ err (plain "dataset not found") r
  | some d ↦ ok (all_of id r.items) r
]

unfoldable pub item_by_key : Text → List DatasetItem → Option DatasetItem
item_by_key key [] = none
item_by_key key (x ∷ xs) =
    let rest = item_by_key key xs in if x.object_key == key then some x else rest

-- `fmt.Sprintf("%d:%s", projectID, categoryName)`.
unfoldable pub category_key : ℤ → Text → Text
unfolding decimal_int
category_key project name = decimal_int project ++ lit ":" ++ name

unfoldable pub ensure_category : ℤ → Text → InMemoryRepository → ℕ × InMemoryRepository
unfolding category_key
ensure_category project name r = elim (lookup (category_key project name) r.category_ids) [
  | some id ↦ (id, r)
  | none ↦ (
    r.next_category,
    record r {
      next_category = suc r.next_category;
      category_ids = insert (category_key project name) r.next_category r.category_ids;
      category_names = insert r.next_category name r.category_names;
    },
  )
]

-- LookupCategory.
unfoldable pub category_of : ℤ → Text → InMemoryRepository → Option ℕ
unfolding category_key
category_of project name r = lookup (category_key project name) r.category_ids

unfoldable pub create_annotation : StoredAnnotation → InMemoryRepository → InMemoryRepository
create_annotation a r = record r { annotations = r.annotations ++ (a ∷ []) }

unfoldable pub record_annotation_change : AnnotationChange → InMemoryRepository → InMemoryRepository
record_annotation_change c r = record r { changes = r.changes ++ (c ∷ []) }

unfoldable pub of_snapshot : ℕ → List StoredAnnotation → List StoredAnnotation
of_snapshot id [] = []
of_snapshot id (a ∷ annotations) =
    let rest = of_snapshot id annotations in if nat_beq a.snapshot_id id then a ∷ rest else rest

-- ListAnnotationsForSnapshot and AnnotationsForSnapshot.
unfoldable pub list_annotations : ℕ → InMemoryRepository → List StoredAnnotation
unfolding of_snapshot
list_annotations id r = of_snapshot id r.annotations

unfoldable pub changes_to : ℕ → List AnnotationChange → List AnnotationChange
changes_to id [] = []
changes_to id (c ∷ changes) =
    let rest = changes_to id changes in if nat_beq c.to_snapshot_id id then c ∷ rest else rest

unfoldable pub annotation_changes : ℕ → InMemoryRepository → List AnnotationChange
unfolding changes_to
annotation_changes id r = changes_to id r.changes
