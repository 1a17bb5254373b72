-- ===== src/Versioning/Updates.antt =====
-- What the changes are that DiffSnapshots of internal/versioning/service.go reports.
use yolo_ave_mujica.Base.{
  ℕ, suc, ◌≡◌, refl, inl, inr, Bool, true, false, List, [], ◌∷◌, ◌++◌, Option, none, some,
  Bool-cases, Option-cases, Text, text_key, Map, lookup, keys, if◌then◌else◌,
}
use yolo_ave_mujica.Versioning.Model.{Floats, float_zero, float_half, Annotation, Change}
use yolo_ave_mujica.Versioning.Matching.{
  mark, unmarked, bbox_iou, match_exactly, best_match, build_index,
}
use yolo_ave_mujica.Versioning.Diff.{
  members, Progress, touch, note_update, note_remove, note_add, match_rest, add_rest, diff_group,
  diff_groups, group_all, add_keys, diff_snapshots,
}

abbrev pub Each {ℓ} : {A : Type ℓ} → (A → Type 0) → List A → Type 0
Each P [] = Unit {0}
Each P (x ∷ xs) = P x × Each P xs

Each-append {ℓ} :
    {A : Type ℓ} (P : A → Type 0) (xs : List A) (x : A) → Each P xs → P x → Each P (xs ++ (x ∷ []))
Each-append P [] x h here = (here, tt)
Each-append P (y ∷ xs) x (first, rest) here = (first, Each-append P xs x rest here)

-- The ids of a change are those of an annotation.
abbrev Names : Change → Annotation → Type 0
Names c a = (c.item_id ≡ a.item_id) × (c.category_id ≡ a.category_id)

-- An update, with what it has before and after; its IOU reaches the threshold.
abbrev Paired : Floats → ℕ → Change → Option Annotation → Option Annotation → Type 0
Paired fl threshold c (some b) (some a) =
    Names c a × (c.iou ≡ bbox_iou fl b a) × (fl.at_most threshold c.iou ≡ true)
Paired fl threshold c _ _ = ⊥

abbrev pub IsUpdate : Floats → ℕ → Change → Type 0
IsUpdate fl threshold c = Paired fl threshold c c.before c.after

-- A change with an annotation on one side only.
abbrev Single : Change → Option Annotation → Option Annotation → Type 0
Single c (some a) none = Names c a
Single c _ _ = ⊥

abbrev pub IsRemoval : Change → Type 0
IsRemoval c = Single c c.before c.after

abbrev pub IsAddition : Change → Type 0
IsAddition c = Single c c.after c.before

abbrev Shaped : Floats → ℕ → Progress → Type 0
Shaped fl threshold p =
    Each (IsUpdate fl threshold) p.updates × Each IsRemoval p.removes × Each IsAddition p.adds

module _ (fl : Floats) (threshold : ℕ) where
  note_update-Shaped :
      (b a : Annotation) (iou : ℕ) (p : Progress)
      → iou ≡ bbox_iou fl b a
      → fl.at_most threshold iou ≡ true
      → Shaped fl threshold p
      → Shaped fl threshold (note_update fl b a iou p)
  unfolding note_update touch
  note_update-Shaped b a iou p same high (u, r, d) =
      (Each-append (IsUpdate fl threshold) p.updates _ u ((refl, refl), same, high), r, d)

  note_remove-Shaped :
      (b : Annotation) (p : Progress)
      → Shaped fl threshold p
      → Shaped fl threshold (note_remove b p)
  unfolding note_remove touch
  note_remove-Shaped b p (u, r, d) = (u, Each-append IsRemoval p.removes _ r (refl, refl), d)

  note_add-Shaped :
      (a : Annotation) (p : Progress) → Shaped fl threshold p → Shaped fl threshold (note_add a p)
  unfolding note_add touch
  note_add-Shaped a p (u, r, d) = (u, r, Each-append IsAddition p.adds _ d (refl, refl))

-- The IOU beside the best match is its own.
abbrev Measured : Floats → Annotation → Option (ℕ × Annotation) × ℕ → Type 0
Measured fl b best = (i : ℕ) (a : Annotation) → best.0 ≡ some (i, a) → best.1 ≡ bbox_iou fl b a

best_match-Measured :
    (fl : Floats) (b : Annotation) (i : ℕ) (after : List Annotation) (matched : List Bool)
    (best : Option (ℕ × Annotation)) (iou : ℕ)
    → Measured fl b (best, iou)
    → Measured fl b (best_match fl b i after matched (best, iou))
unfolding best_match
best_match-Measured fl b i [] matched best iou h = h
best_match-Measured fl b i (a ∷ after) [] best iou h = h
best_match-Measured fl b i (a ∷ after) (true ∷ matched) best iou h =
    best_match-Measured fl b (suc i) after matched best iou h
best_match-Measured fl b i (a ∷ after) (false ∷ matched) best iou h =
    elim (Bool-cases (fl.less iou (bbox_iou fl b a))) [
      | inl e ↦
          rw (e, best_match)
            (best_match-Measured fl b (suc i) after matched (some (i, a)) (bbox_iou fl b a)
              (λ j c same. let f : a ≡ c = cc in rw (← f) refl))
      | inr e ↦ rw (e, best_match) (best_match-Measured fl b (suc i) after matched best iou h)
    ]

module _ (fl : Floats) (threshold : ℕ) where
  match_rest-Shaped :
      (bs : List Annotation) (before : List Bool) (after : List Annotation) (matched : List Bool)
      (p : Progress)
      → Shaped fl threshold p
      → Shaped fl threshold (match_rest fl threshold bs before after matched p).1
  unfolding match_rest
  match_rest-Shaped [] before after matched p h = h
  match_rest-Shaped (b ∷ bs) [] after matched p h = h
  match_rest-Shaped (b ∷ bs) (true ∷ before) after matched p h =
      match_rest-Shaped bs before after matched p h
  match_rest-Shaped (b ∷ bs) (false ∷ before) after matched p h =
      let best = best_match fl b 0 after matched (none, float_zero) in
      let measured = best_match-Measured fl b 0 after matched none float_zero (λ i a none_is. cc) in
      let removed =
        match_rest-Shaped bs before after matched (note_remove b p)
          (note_remove-Shaped fl threshold b p h) in
      elim (Option-cases best.0) [
        | inl e ↦ rw (e, match_rest) removed
        | inr ((i, a), e) ↦ elim (Bool-cases (fl.at_most threshold best.1)) [
          | inr f ↦ rw (e, f, match_rest) removed
          | inl f ↦
              rw (e, f, match_rest)
                (match_rest-Shaped bs before after (mark i matched) (note_update fl b a best.1 p)
                  (note_update-Shaped fl threshold b a best.1 p (measured i a e) f h))
        ]
      ]

  add_rest-Shaped :
      (after : List Annotation) (matched : List Bool) (p : Progress)
      → Shaped fl threshold p
      → Shaped fl threshold (add_rest after matched p)
  unfolding add_rest
  add_rest-Shaped [] matched p h = h
  add_rest-Shaped (a ∷ after) [] p h = h
  add_rest-Shaped (a ∷ after) (true ∷ matched) p h = add_rest-Shaped after matched p h
  add_rest-Shaped (a ∷ after) (false ∷ matched) p h =
      add_rest-Shaped after matched (note_add a p) (note_add-Shaped fl threshold a p h)

  diff_groups-Shaped :
      (ks : List Text) (before after : Map Text (List Annotation)) (p : Progress)
      → Shaped fl threshold p
      → Shaped fl threshold (diff_groups fl threshold ks before after p)
  unfolding diff_groups diff_group
  diff_groups-Shaped [] before after p h = h
  diff_groups-Shaped (k ∷ ks) before after p h =
      let b = members (lookup k before) in
      let a = members (lookup k after) in
      let m = match_exactly fl b (build_index fl 0 a []) (unmarked a) in
      let r = match_rest fl threshold b m.0 a m.1 p in
      diff_groups-Shaped ks before after (diff_group fl threshold b a p)
        (add_rest-Shaped a r.0 r.1 (match_rest-Shaped b m.0 a m.1 p h))

-- Every update has an annotation before and one after and names the one after, and its IOU is that of the
-- two and reaches the threshold, which is 0.5 where the call gives one of at most 0; every removal has and
-- names an annotation before only, and every addition one after only.
pub diff_snapshots_changes :
    (fl : Floats) (before after : List Annotation) (iou_threshold : ℕ)
    → let r = diff_snapshots fl before after iou_threshold in
      let threshold = if fl.at_most iou_threshold float_zero then float_half else iou_threshold in
      Each (IsUpdate fl threshold) r.updates × Each IsRemoval r.removes × Each IsAddition r.adds
unfolding diff_snapshots
diff_snapshots_changes fl before after iou_threshold =
    let threshold = if fl.at_most iou_threshold float_zero then float_half else iou_threshold in
    let bg = group_all before [] in
    let ag = group_all after [] in
    diff_groups-Shaped fl threshold (keys (add_keys (keys ag) (add_keys (keys bg) []))) bg ag
      (record { adds = []; removes = []; updates = []; iou_sum = float_zero; deltas = [] })
      (tt, tt, tt)
