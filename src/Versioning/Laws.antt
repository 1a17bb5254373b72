-- ===== src/Versioning/Laws.antt =====
-- DiffSnapshots of internal/versioning/service.go over whole snapshots.
use yolo_ave_mujica.Base.{
  ℕ, ◌+◌, ◌≡◌, Text, text_key, Map, lookup, keys, List, [], ◌∷◌, arith, if◌then◌else◌,
}
use yolo_ave_mujica.Versioning.Model.{Floats, float_zero, float_half, Annotation}
use yolo_ave_mujica.Versioning.Diff.{
  count, members, Progress, diff_group, diff_groups, group_all, add_keys, diff_snapshots,
}
use yolo_ave_mujica.Versioning.Conservation.{diff_group_lem}
use yolo_ave_mujica.Versioning.Groups.{total, total-group_all, total-empty, keys_cover}

diff_groups_lem :
    (fl : Floats) (threshold : ℕ) (ks : List Text) (before after : Map Text (List Annotation))
    (p : Progress)
    → let q = diff_groups fl threshold ks before after p in
      total ks before + count q.adds + count p.removes
      ≡ total ks after + count q.removes + count p.adds
unfolding diff_groups
diff_groups_lem fl threshold [] before after p = omega arith
diff_groups_lem fl threshold (k ∷ ks) before after p =
    let next = diff_group fl threshold (members (lookup k before)) (members (lookup k after)) p in
    let here =
      diff_group_lem fl threshold (members (lookup k before)) (members (lookup k after)) p in
    let later = diff_groups_lem fl threshold ks before after next in omega arith

-- Whatever the operations on float64 and the threshold, the annotations before with those added are as many
-- as the annotations after with those removed.
pub diff_snapshots_lem :
    (fl : Floats) (before after : List Annotation) (iou_threshold : ℕ)
    → let r = diff_snapshots fl before after iou_threshold in
      count before + count r.adds ≡ count after + count r.removes
unfolding diff_snapshots
diff_snapshots_lem fl before after iou_threshold =
    let threshold = if fl.at_most iou_threshold float_zero then float_half else iou_threshold in
    let bg = group_all before [] in
    let ag = group_all after [] in
    let ks = keys (add_keys (keys ag) (add_keys (keys bg) [])) in
    let start : Progress = record {
      adds = [];
      removes = [];
      updates = [];
      iou_sum = float_zero;
      deltas = [];
    } in
    let balance = diff_groups_lem fl threshold ks bg ag start in
    let (b, a) = keys_cover before after in
    let all_before = total-group_all ks before [] b in
    let all_after = total-group_all ks after [] a in let empty = total-empty ks in omega arith
