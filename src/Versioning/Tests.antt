-- ===== src/Versioning/Tests.antt =====
-- The theorems on snapshot differences at concrete inputs.
use yolo_ave_mujica.Base.{
  insert, text_beq, lit, lookup, ◌+◌, ◌-◌, ◌*◌, ◌/◌, ◌≡◌, refl, pos, to_nat, nat_beq, ltb, leb,
  if◌then◌else◌, List, [], ◌∷◌,
}
use yolo_ave_mujica.Versioning.Model.{Floats, Annotation}
use yolo_ave_mujica.Versioning.Diff.{count, diff_snapshots}
use yolo_ave_mujica.Versioning.Laws.{diff_snapshots_lem}
use yolo_ave_mujica.Versioning.Updates.{
  Each, IsUpdate, IsRemoval, IsAddition, diff_snapshots_changes,
}

-- Whole numbers in place of float64.
abbrev whole : Floats
whole = record {
  add = λ a b. a + b;
  sub = λ a b. a - b;
  mul = λ a b. a * b;
  div = λ a b. a / b;
  largest = λ a b. if ltb a b then b else a;
  smallest = λ a b. if ltb a b then a else b;
  less = ltb;
  at_most = leb;
  equal = nat_beq;
  of_int = to_nat;
}

abbrev car : Annotation
car = record {
  item_id = pos 1;
  category_id = pos 2;
  bbox_x = 0;
  bbox_y = 0;
  bbox_w = 4;
  bbox_h = 4;
}

abbrev sign : Annotation
sign = record {
  item_id = pos 1;
  category_id = pos 3;
  bbox_x = 9;
  bbox_y = 9;
  bbox_w = 1;
  bbox_h = 1;
}

abbrev two : List Annotation
two = car ∷ sign ∷ []

abbrev moved : List Annotation
moved = car ∷ record sign { bbox_x = 20 } ∷ car ∷ []

diff_snapshots_lem_example :
    let r = diff_snapshots whole two moved 1 in
    count two + count r.adds ≡ count moved + count r.removes
diff_snapshots_lem_example = diff_snapshots_lem whole two moved 1

-- The same in hundredths, in which an IOU is not cut to 0.
abbrev percent : Floats
percent = record whole { div = λ a b. 100 * a / b }

abbrev grown : List Annotation
grown = record car { bbox_h = 5 } ∷ record sign { bbox_x = 20 } ∷ []

grown_counts :
    let r = diff_snapshots percent two grown 70 in
    (count r.updates ≡ 1) × (count r.removes ≡ 1) × (count r.adds ≡ 1)
unfolding diff_snapshots insert text_beq lit lookup
grown_counts = (refl, refl, refl)

diff_snapshots_changes_example :
    let r = diff_snapshots percent two grown 70 in
    Each (IsUpdate percent 70) r.updates × Each IsRemoval r.removes × Each IsAddition r.adds
diff_snapshots_changes_example = diff_snapshots_changes percent two grown 70
