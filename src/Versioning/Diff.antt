-- ===== src/Versioning/Diff.antt =====
-- DiffSnapshots, DiffBySnapshotIDs and compatibilityScore of internal/versioning/service.go. The order of
-- the groups' list stands for the order in which Go happens to range over their keys.
use yolo_ave_mujica.Base.{
  ℕ, suc, zero, ◌+◌, ℤ, pos, negsuc, int_key, ltb, Bool, true, false, if◌then◌else◌, Text, text_key,
  lit, decimal_int, Map, lookup, insert, keys, values, sort, List, [], ◌∷◌, ◌++◌, Option, none,
  some, Try, value, fault,
}
use yolo_ave_mujica.Versioning.Model.{
  Floats, float_zero, float_half, float_one, Annotation, Change, CategoryDelta, DiffResult,
  next_int, last_int, difference,
}
use yolo_ave_mujica.Versioning.Matching.{mark, unmarked, build_index, match_exactly, best_match}

abbrev pub count {ℓ} : {A : Type ℓ} → List A → ℕ
count [] = 0
count (x ∷ xs) = suc (count xs)

abbrev pub members {ℓ} : {A : Type ℓ} → Option (List A) → List A
members none = []
members (some xs) = xs

-- What DiffSnapshots builds up over the groups.
pub record Progress : Type 0 where
  pub adds : List Change
  pub removes : List Change
  pub updates : List Change
  pub iou_sum : ℕ
  pub deltas : Map ℤ CategoryDelta

abbrev pub or_new : ℤ → Option CategoryDelta → CategoryDelta
or_new id (some d) = d
or_new id none = record {
  category_id = id;
  added_count = 0;
  removed_count = 0;
  updated_count = 0;
  net_box_delta = pos 0;
}

-- recordCategoryDelta, and what its caller does to the counter.
unfoldable pub touch : (CategoryDelta → CategoryDelta) → ℤ → Progress → Progress
touch f id p = record p { deltas = insert id (f (or_new id (lookup id p.deltas))) p.deltas }

unfoldable pub note_update : Floats → Annotation → Annotation → ℕ → Progress → Progress
unfolding touch
note_update fl b a iou p =
    touch (λ d. record d { updated_count = suc d.updated_count }) a.category_id
      (record p {
        updates =
            p.updates
            ++ (record {
              item_id = a.item_id;
              category_id = a.category_id;
              before = some b;
              after = some a;
              iou = iou;
            }
                ∷ []);
        iou_sum = fl.add p.iou_sum iou;
      })

unfoldable pub note_remove : Annotation → Progress → Progress
unfolding touch last_int
note_remove b p =
    touch
      (λ d. record d {
        removed_count = suc d.removed_count;
        net_box_delta = last_int d.net_box_delta;
      })
      b.category_id
      (record p {
        removes =
            p.removes
            ++ (record {
              item_id = b.item_id;
              category_id = b.category_id;
              before = some b;
              after = none;
              iou = float_zero;
            }
                ∷ []);
      })

unfoldable pub note_add : Annotation → Progress → Progress
unfolding touch next_int
note_add a p =
    touch
      (λ d. record d { added_count = suc d.added_count; net_box_delta = next_int d.net_box_delta })
      a.category_id
      (record p {
        adds =
            p.adds
            ++ (record {
              item_id = a.item_id;
              category_id = a.category_id;
              before = none;
              after = some a;
              iou = float_zero;
            }
                ∷ []);
      })

module _ (fl : Floats) where
  -- The second loop over the annotations before, with the matched marks of both sides.
  unfoldable pub match_rest :
      ℕ
      → List Annotation
      → List Bool
      → List Annotation
      → List Bool
      → Progress
      → List Bool × Progress
  unfolding best_match note_update note_remove mark
  match_rest threshold (b ∷ bs) (false ∷ before) after matched p =
      let (best, iou) = best_match fl b 0 after matched (none, float_zero) in
      elim best [
        | none ↦ match_rest threshold bs before after matched (note_remove b p)
        | some (i, a) ↦ elim (fl.at_most threshold iou) [
          | true ↦ match_rest threshold bs before after (mark i matched) (note_update fl b a iou p)
          | false ↦ match_rest threshold bs before after matched (note_remove b p)
        ]
      ]
  match_rest threshold (b ∷ bs) (true ∷ before) after matched p =
      match_rest threshold bs before after matched p
  match_rest threshold _ _ after matched p = (matched, p)

-- The loop over what is left after.
unfoldable pub add_rest : List Annotation → List Bool → Progress → Progress
unfolding note_add
add_rest (a ∷ rest) (false ∷ matched) p = add_rest rest matched (note_add a p)
add_rest (a ∷ rest) (true ∷ matched) p = add_rest rest matched p
add_rest _ _ p = p

module _ (fl : Floats) where
  -- The body of the loop over the keys.
  unfoldable pub diff_group : ℕ → List Annotation → List Annotation → Progress → Progress
  unfolding unmarked build_index match_exactly match_rest add_rest
  diff_group threshold before after p =
      let (matched_before, matched_after) =
        match_exactly fl before (build_index fl 0 after []) (unmarked after) in
      let (matched, p') = match_rest fl threshold before matched_before after matched_after p in
      add_rest after matched p'

  unfoldable pub diff_groups :
      ℕ → List Text → Map Text (List Annotation) → Map Text (List Annotation) → Progress → Progress
  unfolding diff_group
  diff_groups threshold [] before after p = p
  diff_groups threshold (k ∷ ks) before after p =
      diff_groups threshold ks before after
        (diff_group threshold (members (lookup k before)) (members (lookup k after)) p)

-- `fmt.Sprintf("%d:%d", itemID, categoryID)`.
unfoldable pub group_key : Annotation → Text
unfolding decimal_int
group_key a = decimal_int a.item_id ++ lit ":" ++ decimal_int a.category_id

unfoldable pub group_all : List Annotation → Map Text (List Annotation) → Map Text (List Annotation)
unfolding group_key
group_all [] groups = groups
group_all (a ∷ rest) groups =
    group_all rest (insert (group_key a) (members (lookup (group_key a) groups) ++ (a ∷ [])) groups)

-- The keys of both maps, once each.
unfoldable pub add_keys : List Text → Map Text (Unit {0}) → Map Text (Unit {0})
add_keys [] all = all
add_keys (k ∷ ks) all = add_keys ks (insert k tt all)

-- `<` on integers.
abbrev pub is_less : ℤ → ℤ → Bool
is_less (pos m) (pos n) = ltb m n
is_less (pos m) (negsuc n) = false
is_less (negsuc m) (pos n) = true
is_less (negsuc m) (negsuc n) = ltb n m

abbrev pub less_category : CategoryDelta → CategoryDelta → Bool
less_category a b = is_less a.category_id b.category_id

unfoldable pub flatten_category_delta : Map ℤ CategoryDelta → List CategoryDelta
unfolding sort
flatten_category_delta items = sort less_category (values items)

abbrev pub larger : ℕ → ℕ → ℕ
larger m n = if ltb m n then n else m

module _ (fl : Floats) where
  unfoldable pub clamp01 : ℕ → ℕ
  clamp01 v =
      if fl.less v float_zero then float_zero else if fl.less float_one v then float_one else v

  abbrev pub add_ious : ℕ → List Change → ℕ
  add_ious sum [] = sum
  add_ious sum (c ∷ cs) = add_ious (fl.add sum c.iou) cs

  unfoldable pub compatibility_score : ℕ → ℕ → ℕ → ℕ → List Change → ℕ
  unfolding clamp01 difference
  compatibility_score before_count after_count added removed updates =
      let baseline = larger (larger before_count after_count) 1 in
      let exact = difference baseline (added + removed + count updates) in
      clamp01 (fl.div (add_ious (fl.of_int exact) updates) (fl.of_int (pos baseline)))

  abbrev pub average : ℕ → ℕ → ℕ
  average sum zero = float_zero
  average sum (suc n) = fl.div sum (fl.of_int (pos (suc n)))

  unfoldable pub diff_snapshots : List Annotation → List Annotation → ℕ → DiffResult
  unfolding group_all add_keys diff_groups difference flatten_category_delta compatibility_score
  diff_snapshots before after iou_threshold =
      let threshold = if fl.at_most iou_threshold float_zero then float_half else iou_threshold in
      let before_groups = group_all before [] in
      let after_groups = group_all after [] in
      let ks = keys (add_keys (keys after_groups) (add_keys (keys before_groups) [])) in
      let p =
        diff_groups fl threshold ks before_groups after_groups
          (record { adds = []; removes = []; updates = []; iou_sum = float_zero; deltas = [] }) in
      record {
        adds = p.adds;
        removes = p.removes;
        updates = p.updates;
        stats = record {
          added_count = count p.adds;
          removed_count = count p.removes;
          updated_count = count p.updates;
          total_box_delta = difference (count p.adds) (count p.removes);
          average_iou_drift = average p.iou_sum (count p.updates);
          per_category_delta = flatten_category_delta p.deltas;
        };
        compatibility_score =
            compatibility_score (count before) (count after) (count p.adds) (count p.removes)
              p.updates;
      }

  -- DiffBySnapshotIDs; the repository lists the effective annotations of a snapshot.
  unfoldable pub diff_by_snapshot_ids :
      {E : Type 0} → E → Option (ℤ → Try E (List Annotation)) → ℤ → ℤ → ℕ → Try E DiffResult
  unfolding diff_snapshots
  diff_by_snapshot_ids unconfigured none before_id after_id threshold = fault unconfigured
  diff_by_snapshot_ids unconfigured (some list) before_id after_id threshold =
      elim (list before_id) [
        | fault e ↦ fault e
        | value before ↦ elim (list after_id) [
          | fault e ↦ fault e
          | value after ↦ value (diff_snapshots before after threshold)
        ]
      ]
