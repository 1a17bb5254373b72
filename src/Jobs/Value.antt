-- ===== src/Jobs/Value.antt =====
-- The dynamic values (`any`, `map[string]any`) that job payloads and event details hold:
-- internal/jobs/service.go (stringValue, int64Value) and repository.go (mergeResultRefs,
-- extractInt64Slice).
use yolo_ave_mujica.Base.{
  ℕ, suc, ℤ, pos, not_positive, Bool, if◌then◌else◌, Text, text_key, Map, lookup, insert, List, [],
  ◌∷◌, Option, none, some,
}

-- `real` and `number` (a float64, a json.Number) are given by what the conversion to int64 reads.
mutual
  pub data Value : Type 0 where
    null : Value
    bool : Bool → Value
    int : ℤ → Value
    real : ℤ → Value
    number : ℤ → Value
    text : Text → Value
    time : Option ℕ → Value
    texts : List Text → Value
    int64s : List ℤ → Value
    list : Values → Value
    obj : Fields → Value

  pub data Values : Type 0 where
    nil : Values
    cons : Value → Values → Values

  pub data Fields : Type 0 where
    end : Fields
    field : Text → Value → Fields → Fields

abbrev pub Detail : Type 0
Detail = Map Text Value

-- The map behind a nested object.
unfoldable pub detail_of : Fields → Detail
detail_of end = []
detail_of (field k v fs) = (k, v) ∷ detail_of fs

-- `m[key]`: nil where the key is missing.
unfoldable pub index : Text → Detail → Value
index k m = elim (lookup k m) [ none ↦ null | some v ↦ v ]

unfoldable pub string_value : Value → Text
string_value (text t) = t
string_value _ = []

unfoldable pub int64_value : Value → ℤ
int64_value (int n) = n
int64_value (real n) = n
int64_value (number n) = n
int64_value _ = pos 0

unfoldable pub count_values : Values → ℕ
count_values nil = 0
count_values (cons v vs) = suc (count_values vs)

-- The loop of extractInt64Slice over `[]any`.
unfoldable pub positive_ids : Values → List ℤ
unfolding int64_value
positive_ids nil = []
positive_ids (cons v vs) =
    if not_positive (int64_value v) then positive_ids vs else int64_value v ∷ positive_ids vs

unfoldable pub extract_int64_slice : Value → List ℤ
unfolding positive_ids
extract_int64_slice (int64s ids) = ids
extract_int64_slice (list vs) = positive_ids vs
extract_int64_slice _ = []

-- `for key, value := range incoming { out[key] = value }`.
unfoldable pub insert_all : Detail → Detail → Detail
insert_all [] out = out
insert_all ((k, v) ∷ incoming) out = insert_all incoming (insert k v out)

unfoldable pub merge_result_refs : Detail → Detail → Detail
unfolding insert_all
merge_result_refs current incoming = insert_all incoming current
