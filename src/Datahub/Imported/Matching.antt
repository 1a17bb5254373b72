-- ===== src/Datahub/Imported/Matching.antt =====
-- importEntriesMatchSnapshot of internal/datahub/service.go on annotations that an import stored.
use yolo_ave_mujica.Base.{
  ℕ, ◌≡◌, refl, ◌≤◌, ◌⊎◌, ◌∙◌, sym, ap, inl, inr, true, false, Text, text_key, text_beq_iff, sort,
  text_ltb, nat_key, List, [], ◌∷◌, map, none, arith, nat_beq, nat_beq_iff,
}
use yolo_ave_mujica.Datahub.Model.{ImportedAnnotation, ImportSnapshotInput, StoredAnnotation}
use yolo_ave_mujica.Datahub.Repository.{count}
use yolo_ave_mujica.Datahub.Import.{
  import_problem, same_texts, imported_annotation_key, as_imported, import_entries_match_snapshot,
  no_entries,
}

same_texts_refl : (ss : List Text) → same_texts ss ss ≡ true
unfolding same_texts
same_texts_refl [] = refl
same_texts_refl (s ∷ ss) = rw ((text_beq_iff s s).1 refl, same_texts_refl ss) refl

pub count-map : {A B : Type 0} (f : A → B) (xs : List A) → count (map f xs) ≡ count xs
count-map f [] = refl
count-map f (x ∷ xs) = let h = count-map f xs in omega arith

map-map :
    {A B C : Type 0} (g : B → C) (f : A → B) (xs : List A)
    → map (λ x. g (f x)) xs ≡ map g (map f xs)
map-map g f [] = refl
map-map g f (x ∷ xs) = rw (map-map g f xs) refl

pub list_cases :
    {A : Type 0} (xs : List A) → (xs ≡ []) ⊎ ((a : A) × (rest : List A) × (xs ≡ a ∷ rest))
list_cases [] = inl refl
list_cases (a ∷ rest) = inr (a, rest, refl)

pub no_entries-cons : (es : List ImportedAnnotation) → no_entries es ≡ false → 1 ≤ count es
no_entries-cons [] h = cc
no_entries-cons (e ∷ es) h = omega arith

pub import_problem-entries :
    (i : ImportSnapshotInput) → import_problem i ≡ none → no_entries i.entries ≡ false
unfolding import_problem
import_problem-entries i h = ground arith

module _ (format : ℕ → Text) where
  -- Stored annotations match the entries that they are read back as.
  pub matches :
      (old : List StoredAnnotation) (es : List ImportedAnnotation)
      → map (as_imported format) old ≡ es
      → import_entries_match_snapshot format old es ≡ true
  unfolding import_entries_match_snapshot
  matches old es h =
      let n : nat_beq (count old) (count es) ≡ true =
        (nat_beq_iff (count old) (count es)).1
          (sym (count-map (as_imported format) old) ∙ ap count h) in
      let keys_same : map (λ a. imported_annotation_key format (as_imported format a)) old
          ≡ map (imported_annotation_key format) es =
        map-map (imported_annotation_key format) (as_imported format) old
        ∙ ap (map (imported_annotation_key format)) h in
      rw (n, keys_same) (same_texts_refl (sort text_ltb (map (imported_annotation_key format) es)))

  pub mismatches :
      (old : List StoredAnnotation) (es : List ImportedAnnotation)
      → nat_beq (count old) (count es) ≡ false
      → import_entries_match_snapshot format old es ≡ false
  unfolding import_entries_match_snapshot
  mismatches old es h = rw h refl
