-- ===== src/Jobs/Normalize.antt =====
-- The normalising functions of internal/jobs/service.go: resource types, capabilities, worker
-- strings, result references.
use mathlib.Core.List.{reverse}
use yolo_ave_mujica.Base.{
  pos, not_positive, Bool, true, false, not, ◌||◌, if◌then◌else◌, ◌==◌, Text, text_beq, text_key,
  is_empty, lit, keyword, lookup, insert, List, [], ◌∷◌, none, some, Try, value, fault, text_ltb,
  sort,
}
use yolo_ave_mujica.Jobs.Value.{
  Value, int, text, list, Detail, index, string_value, int64_value, count_values,
}
use yolo_ave_mujica.Jobs.Model.{Error, plain, Event}

unfoldable pub contains : Text → List Text → Bool
contains a [] = false
contains a (x ∷ xs) = x == a || contains a xs

unfoldable pub default_required_resource_type : Text → Text
default_required_resource_type job_type =
    if job_type == lit "zero-shot" then lit "gpu" else lit "cpu"

-- `allowedResourceTypesByJobType[job_type]`, empty where the key is missing.
unfoldable pub allowed_resource_types : Text → List Text
allowed_resource_types job_type =
    if job_type == lit "artifact-package"
    then lit "cpu" ∷ []
    else if job_type == lit "cleaning"
    then lit "cpu" ∷ lit "mixed" ∷ []
    else if job_type == lit "snapshot-import"
    then lit "cpu" ∷ []
    else if job_type == lit "video-extract"
    then lit "cpu" ∷ lit "mixed" ∷ []
    else if job_type == lit "zero-shot"
    then lit "gpu" ∷ lit "mixed" ∷ []
    else []

-- `defaultRequiredCapabilities[job_type]`.
unfoldable pub default_required_capabilities : Text → List Text
default_required_capabilities job_type =
    if job_type == lit "artifact-package"
    then lit "artifact_packaging" ∷ []
    else if job_type == lit "cleaning"
    then lit "rules_engine" ∷ lit "image_stats" ∷ []
    else if job_type == lit "snapshot-import"
    then lit "snapshot_import" ∷ []
    else if job_type == lit "video-extract"
    then lit "video_decode" ∷ []
    else if job_type == lit "zero-shot"
    then lit "zero_shot_inference" ∷ []
    else []

-- The `switch` over the resource types.
unfoldable pub is_resource_type : Text → Bool
is_resource_type r = r == lit "cpu" || r == lit "gpu" || r == lit "mixed"

-- `len(allowed) > 0 && !allowed[resource_type]`.
unfoldable pub refuses : List Text → Text → Bool
unfolding contains
refuses [] r = false
refuses (a ∷ as') r = not (contains r (a ∷ as'))

-- normalizeRequiredResourceType behind the trimming and the default.
unfoldable pub check_resource_type : Text → Text → Try Error Text
unfolding text_beq is_resource_type refuses allowed_resource_types
check_resource_type job_type r =
    if is_resource_type r
    then (if refuses (allowed_resource_types job_type) r
        then fault (plain "job_type does not support required_resource_type")
        else value r)
    else fault (plain "unsupported required_resource_type")

unfoldable pub normalize_required_resource_type : Text → Text → Try Error Text
unfolding keyword check_resource_type default_required_resource_type
normalize_required_resource_type job_type raw =
    let r = keyword raw in
    check_resource_type job_type (if is_empty r then default_required_resource_type job_type else r)

-- The loop that both normalizers share, with the set `seen`: keywords that are not empty, each once.
unfoldable pub distinct_keywords : List Text → List Text → List Text
unfolding contains
distinct_keywords seen [] = []
distinct_keywords seen (raw ∷ rest) =
    let k = keyword raw in
    let skipped = distinct_keywords seen rest in
    let taken = k ∷ distinct_keywords (k ∷ seen) rest in
    if is_empty k then skipped else if contains k seen then skipped else taken

abbrev pub or_default : List Text → List Text → List Text
or_default [] d = d
or_default (x ∷ xs) d = x ∷ xs

abbrev pub required : List Text → Error → Try Error (List Text)
required [] e = fault e
required (x ∷ xs) e = value (x ∷ xs)

unfoldable pub normalize_required_capabilities : Text → List Text → Try Error (List Text)
unfolding distinct_keywords default_required_capabilities
normalize_required_capabilities job_type raw =
    required (or_default (distinct_keywords [] raw) (default_required_capabilities job_type))
      (plain "required_capabilities must not be empty")

unfoldable pub normalize_worker_strings : List Text → List Text
unfolding distinct_keywords
normalize_worker_strings raw = sort text_ltb (distinct_keywords [] raw)

-- `if items, ok := out[key].([]any); ok { out["result_count"] = len(items) }`.
unfoldable pub count_collection : Value → Detail → Detail
unfolding count_values
count_collection (list items) out = insert (lit "result_count") (int (pos (count_values items))) out
count_collection _ out = out

unfoldable pub normalize_result_detail : Detail → Text → Text → Detail
unfolding count_collection
normalize_result_detail detail default_type collection_key =
    let out =
      if is_empty (string_value (index (lit "result_type") detail))
      then insert (lit "result_type") (text default_type) detail
      else detail in
    if not_positive (int64_value (index (lit "result_count") out))
    then count_collection (index collection_key out) out
    else out

unfoldable pub normalize_result_ref : Detail → Detail
unfolding normalize_result_detail
normalize_result_ref [] = []
normalize_result_ref (e ∷ es) =
    normalize_result_detail (e ∷ es) (string_value (index (lit "result_type") (e ∷ es))) (lit "")

unfoldable pub should_skip_result_ref_key : Text → Bool
should_skip_result_ref_key key =
    key == lit "worker_id"
    || key == lit "status"
    || key == lit "total_items"
    || key == lit "succeeded_items"
    || key == lit "failed_items"
    || key == lit "lease_seconds"

abbrev has : Text → Detail → Bool
has key m = elim (lookup key m) [ none ↦ false | some v ↦ true ]

-- The inner loop of extractResultRef: keys that are neither reserved nor set already.
unfoldable pub copy_new : Detail → Detail → Detail
unfolding should_skip_result_ref_key
copy_new [] out = out
copy_new ((key, v) ∷ detail) out = copy_new detail (
    if key == lit "result_type"
      || key == lit "result_count"
      || should_skip_result_ref_key key
      || has key out
    then out
    else insert key v out)

unfoldable pub copy_count : Detail → Detail → Detail
copy_count detail out =
    if has (lit "result_count") out
      || not_positive (int64_value (index (lit "result_count") detail))
    then out
    else insert (lit "result_count") (int (int64_value (index (lit "result_count") detail))) out

-- The outer loop, over the events from the newest on, once `result_type` is known.
unfoldable pub collect : Text → List Event → Detail → Detail
unfolding copy_new copy_count
collect result_type [] out = out
collect result_type (ev ∷ older) out = collect result_type older (
    if string_value (index (lit "result_type") ev.detail) == result_type
    then copy_new ev.detail (copy_count ev.detail out)
    else out)

-- The outer loop up to the newest event that has a result type.
unfoldable pub extract_newest : List Event → Detail
unfolding collect
extract_newest [] = []
extract_newest (ev ∷ older) =
    let current = string_value (index (lit "result_type") ev.detail) in
    let later = extract_newest older in
    if is_empty current
    then later
    else collect current (ev ∷ older) ((lit "result_type", text current) ∷ [])

unfoldable pub extract_result_ref : List Event → Detail
unfolding extract_newest
extract_result_ref events = extract_newest (reverse events)
