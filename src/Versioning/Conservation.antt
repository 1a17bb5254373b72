-- ===== src/Versioning/Conservation.antt =====
-- DiffSnapshots of internal/versioning/service.go loses no annotation: what is before and what is added make
-- up what is after and what is removed.
use yolo_ave_mujica.Base.{
  ℕ, suc, ◌+◌, ◌≡◌, refl, ◌∙◌, ap, inl, inr, Bool, true, false, List, [], ◌∷◌, Option, none, some,
  arith, Bool-cases, Option-cases,
}
use yolo_ave_mujica.Versioning.Model.{Floats, float_zero, Annotation}
use yolo_ave_mujica.Versioning.Matching.{
  mark, is_marked, unmarked, bbox_iou, match_exactly, best_match, build_index,
}
use yolo_ave_mujica.Versioning.Diff.{
  count, Progress, touch, note_update, note_remove, note_add, match_rest, add_rest, diff_group,
}
use yolo_ave_mujica.Versioning.Counts.{
  free, count-append, free-mark, count-mark, free-unmarked, match_exactly_lem,
}

-- An update adds to the updates only, and so on.
note_update_lem :
    (fl : Floats) (b a : Annotation) (iou : ℕ) (p : Progress)
    → ((note_update fl b a iou p).adds ≡ p.adds) × ((note_update fl b a iou p).removes ≡ p.removes)
unfolding note_update touch
note_update_lem fl b a iou p = (refl, refl)

note_remove_lem :
    (b : Annotation) (p : Progress)
    → ((note_remove b p).adds ≡ p.adds) × (count (note_remove b p).removes ≡ suc (count p.removes))
unfolding note_remove touch
note_remove_lem b p = (refl, count-append p.removes _)

note_add_lem :
    (a : Annotation) (p : Progress)
    → (count (note_add a p).adds ≡ suc (count p.adds)) × ((note_add a p).removes ≡ p.removes)
unfolding note_add touch
note_add_lem a p = (count-append p.adds _, refl)

-- The best match, if there is one, is not matched yet.
abbrev Untaken : List Bool → Option (ℕ × Annotation) → Type 0
Untaken matched best = (i : ℕ) (a : Annotation) → best ≡ some (i, a) → is_marked i matched ≡ false

module _ (fl : Floats) (b : Annotation) (all : List Bool) where
  best_match_lem :
      (i : ℕ) (after : List Annotation) (matched : List Bool) (best : Option (ℕ × Annotation))
      (iou : ℕ)
      → ((j : ℕ) → is_marked (i + j) all ≡ is_marked j matched)
      → Untaken all best
      → Untaken all (best_match fl b i after matched (best, iou)).0
  unfolding best_match is_marked
  best_match_lem i [] matched best iou tail h = h
  best_match_lem i (a ∷ after) [] best iou tail h = h
  best_match_lem i (a ∷ after) (true ∷ matched) best iou tail h =
      best_match_lem (suc i) after matched best iou
        (λ j. let e : suc i + j ≡ i + suc j = omega arith in rw e (tail (suc j))) h
  best_match_lem i (a ∷ after) (false ∷ matched) best iou tail h =
      let rest : (j : ℕ) → is_marked (suc i + j) all ≡ is_marked j matched =
        λ j. let e : suc i + j ≡ i + suc j = omega arith in rw e (tail (suc j)) in
      let here : is_marked i all ≡ false = (let e : i ≡ i + 0 = omega arith in rw e (tail 0)) in
      elim (Bool-cases (fl.less iou (bbox_iou fl b a))) [
        | inl e ↦
            rw (e, best_match)
              (best_match_lem (suc i) after matched (some (i, a)) (bbox_iou fl b a) rest
                (λ j c same. let f : i ≡ j = cc in rw (← f) here))
        | inr e ↦ rw (e, best_match) (best_match_lem (suc i) after matched best iou rest h)
      ]

-- After one removal.
remove_step :
    (b : Annotation) (p : Progress) (before matched : List Bool) (r : List Bool × Progress)
    → (count r.1.removes + free matched ≡ count (note_remove b p).removes + free before + free r.0)
      × (r.1.adds ≡ (note_remove b p).adds)
      × (count r.0 ≡ count matched)
    → (count r.1.removes + free matched ≡ count p.removes + suc (free before) + free r.0)
      × (r.1.adds ≡ p.adds)
      × (count r.0 ≡ count matched)
remove_step b p before matched r (x, y, z) =
    let (same_adds, one_more) = note_remove_lem b p in (omega arith, y ∙ same_adds, z)

-- An annotation that is left before is removed or takes one after.
module _ (fl : Floats) (threshold : ℕ) where
  match_rest_lem :
      (bs : List Annotation) (before : List Bool) (after : List Annotation) (matched : List Bool)
      (p : Progress)
      → count before ≡ count bs
      → let (m, p') = match_rest fl threshold bs before after matched p in
        (count p'.removes + free matched ≡ count p.removes + free before + free m)
        × (p'.adds ≡ p.adds)
        × (count m ≡ count matched)
  unfolding match_rest
  match_rest_lem [] [] after matched p len = (omega arith, refl, refl)
  match_rest_lem (b ∷ bs) [] after matched p len = absurd (omega arith)
  match_rest_lem [] (x ∷ before) after matched p len = absurd (omega arith)
  match_rest_lem (b ∷ bs) (true ∷ before) after matched p len =
      match_rest_lem bs before after matched p (omega arith)
  match_rest_lem (b ∷ bs) (false ∷ before) after matched p len =
      let best = best_match fl b 0 after matched (none, float_zero) in
      let untaken =
        best_match_lem fl b matched 0 after matched none float_zero
          (λ j. let e : 0 + j ≡ j = omega arith in rw e refl) (λ j a h. cc) in
      let removed =
        remove_step b p before matched
          (match_rest fl threshold bs before after matched (note_remove b p))
          (match_rest_lem bs before after matched (note_remove b p) (omega arith)) in
      elim (Option-cases best.0) [
        | inl e ↦ rw (e, match_rest) removed
        | inr ((i, a), e) ↦ elim (Bool-cases (fl.at_most threshold best.1)) [
          | inr f ↦ rw (e, f, match_rest) removed
          | inl f ↦
              let marked = free-mark i matched (untaken i a e) in
              let (same_adds, same_removes) = note_update_lem fl b a best.1 p in
              let (x, y, z) =
                match_rest_lem bs before after (mark i matched) (note_update fl b a best.1 p)
                  (omega arith) in
              let kept = ap count same_removes in
              rw (e, f, match_rest) (omega arith, y ∙ same_adds, z ∙ count-mark i matched)
        ]
      ]

add_rest_lem :
    (after : List Annotation) (matched : List Bool) (p : Progress)
    → count matched ≡ count after
    → (count (add_rest after matched p).adds ≡ count p.adds + free matched)
      × ((add_rest after matched p).removes ≡ p.removes)
unfolding add_rest
add_rest_lem [] [] p len = (omega arith, refl)
add_rest_lem (a ∷ after) [] p len = absurd (omega arith)
add_rest_lem [] (x ∷ matched) p len = absurd (omega arith)
add_rest_lem (a ∷ after) (true ∷ matched) p len = add_rest_lem after matched p (omega arith)
add_rest_lem (a ∷ after) (false ∷ matched) p len =
    let (one_more, same) = note_add_lem a p in
    let (x, y) = add_rest_lem after matched (note_add a p) (omega arith) in (omega arith, y ∙ same)

-- In a group, with what is added and removed over it, the annotations before and after balance.
pub diff_group_lem :
    (fl : Floats) (threshold : ℕ) (before after : List Annotation) (p : Progress)
    → let q = diff_group fl threshold before after p in
      count before + count q.adds + count p.removes ≡ count after + count q.removes + count p.adds
unfolding diff_group
diff_group_lem fl threshold before after p =
    let index = build_index fl 0 after [] in
    let (all_free, as_long) = free-unmarked after in
    let m = match_exactly fl before index (unmarked after) in
    let (pairs, long, wide) = match_exactly_lem fl before index (unmarked after) in
    let r = match_rest fl threshold before m.0 after m.1 p in
    let (removes, adds, still) = match_rest_lem fl threshold before m.0 after m.1 p long in
    let (more, same) = add_rest_lem after r.0 r.1 (still ∙ wide ∙ as_long) in
    let kept = ap count adds in let gone = ap count same in omega arith
