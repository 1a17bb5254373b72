-- ===== src/Versioning/Matching.antt =====
-- Matching the annotations of one group: bboxIOU, buildExactMatchIndex, claimExactMatch and the search for
-- the best match of internal/versioning/service.go.
use yolo_ave_mujica.Base.{
  ℕ, suc, zero, Bool, true, false, ◌&&◌, if◌then◌else◌, List, [], ◌∷◌, ◌++◌, Option, none, some,
}
use yolo_ave_mujica.Versioning.Model.{Floats, float_zero, Annotation}

-- `matched[i] = true`.
unfoldable pub mark : ℕ → List Bool → List Bool
mark i [] = []
mark zero (b ∷ bs) = true ∷ bs
mark (suc i) (b ∷ bs) = b ∷ mark i bs

-- `matched[i]`; no index is out of range, and one that were would not be free.
unfoldable pub is_marked : ℕ → List Bool → Bool
is_marked i [] = true
is_marked zero (b ∷ bs) = b
is_marked (suc i) (b ∷ bs) = is_marked i bs

-- `make([]bool, len(items))`.
unfoldable pub unmarked : List Annotation → List Bool
unmarked [] = []
unmarked (a ∷ rest) = false ∷ unmarked rest

-- `map[bboxKey][]int`: an annotation with the key of each entry, and its indices.
abbrev pub Index : Type 0
Index = List (Annotation × List ℕ)

-- The loop of claimExactMatch: the first index that is free, and the candidates that are left.
unfoldable pub first_free : List ℕ → List Bool → Option ℕ × List ℕ
unfolding is_marked
first_free [] matched = (none, [])
first_free (i ∷ is) matched = if is_marked i matched then first_free is matched else (some i, is)

module _ (fl : Floats) where
  unfoldable pub bbox_iou : Annotation → Annotation → ℕ
  bbox_iou a b =
      let ax2 = fl.add a.bbox_x a.bbox_w in
      let ay2 = fl.add a.bbox_y a.bbox_h in
      let bx2 = fl.add b.bbox_x b.bbox_w in
      let by2 = fl.add b.bbox_y b.bbox_h in
      let inter_w =
        fl.largest float_zero (fl.sub (fl.smallest ax2 bx2) (fl.largest a.bbox_x b.bbox_x)) in
      let inter_h =
        fl.largest float_zero (fl.sub (fl.smallest ay2 by2) (fl.largest a.bbox_y b.bbox_y)) in
      let inter = fl.mul inter_w inter_h in
      let a_area = fl.mul a.bbox_w a.bbox_h in
      let b_area = fl.mul b.bbox_w b.bbox_h in
      let denom = fl.sub (fl.add a_area b_area) inter in
      if fl.equal inter float_zero
      then float_zero
      else if fl.at_most denom float_zero
      then float_zero
      else fl.div inter denom

  -- sameBBox; the `==` of two bboxKeys is the same comparison.
  unfoldable pub same_bbox : Annotation → Annotation → Bool
  same_bbox a b =
      fl.equal a.bbox_x b.bbox_x
      && fl.equal a.bbox_y b.bbox_y
      && fl.equal a.bbox_w b.bbox_w
      && fl.equal a.bbox_h b.bbox_h

  unfoldable pub index_put : Annotation → ℕ → Index → Index
  unfolding same_bbox
  index_put a i [] = (a, i ∷ []) ∷ []
  index_put a i ((k, is) ∷ rest) =
      if same_bbox k a then (k, is ++ (i ∷ [])) ∷ rest else (k, is) ∷ index_put a i rest

  unfoldable pub build_index : ℕ → List Annotation → Index → Index
  unfolding index_put
  build_index i [] index = index
  build_index i (a ∷ rest) index = build_index (suc i) rest (index_put a i index)

  unfoldable pub candidates : Annotation → Index → List ℕ
  unfolding same_bbox
  candidates a [] = []
  candidates a ((k, is) ∷ rest) = if same_bbox k a then is else candidates a rest

  unfoldable pub set_candidates : Annotation → List ℕ → Index → Index
  unfolding same_bbox
  set_candidates a left [] = []
  set_candidates a left ((k, is) ∷ rest) =
      if same_bbox k a then (k, left) ∷ rest else (k, is) ∷ set_candidates a left rest

  unfoldable pub claim_exact_match : Index → Annotation → List Bool → Option ℕ × Index
  unfolding candidates first_free set_candidates
  claim_exact_match index a matched =
      let (found, left) = first_free (candidates a index) matched in
      (found, set_candidates a left index)

  -- The first loop over the annotations before: which of them are matched, and which after.
  unfoldable pub match_exactly : List Annotation → Index → List Bool → List Bool × List Bool
  unfolding claim_exact_match mark
  match_exactly [] index matched = ([], matched)
  match_exactly (b ∷ bs) index matched =
      let (found, index') = claim_exact_match index b matched in
      elim found [
        | none ↦ let (before, after) = match_exactly bs index' matched in (false ∷ before, after)
        | some i ↦
            let (before, after) = match_exactly bs index' (mark i matched) in (true ∷ before, after)
      ]

  -- The search for the best match from index `i` on, given the best so far.
  unfoldable pub best_match :
      Annotation
      → ℕ
      → List Annotation
      → List Bool
      → Option (ℕ × Annotation) × ℕ
      → Option (ℕ × Annotation) × ℕ
  unfolding bbox_iou
  best_match b i (a ∷ rest) (false ∷ matched) (best, iou) =
      best_match b (suc i) rest matched
        (if fl.less iou (bbox_iou b a) then (some (i, a), bbox_iou b a) else (best, iou))
  best_match b i (a ∷ rest) (true ∷ matched) best = best_match b (suc i) rest matched best
  best_match b i _ _ best = best
