-- ===== src/Datahub/Imported.antt =====
-- What ImportSnapshot of internal/datahub/service.go stores, described without its steps.
pub mod Stored
pub mod Matching
pub mod Laws
use yolo_ave_mujica.Base.{
  ℕ, suc, ◌≡◌, refl, ◌∙◌, Bool, true, false, ◌||◌, Text, is_empty, text_key, ◌==◌, lookup, insert,
  nat_key, List, [], ◌∷◌, ◌++◌, map, Option, none, some, arith, if◌then◌else◌, nat_beq, nat_beq_iff,
  ok, err, fault, value, Bool-cases, ap, Map, ◌+◌,
}
use mathlib.Core.List.{append_assoc, append-nil}
use yolo_ave_mujica.Datahub.Model.{
  Dataset, Snapshot, DatasetItem, ImportedAnnotation, StoredAnnotation, is_below_zero,
  is_at_most_zero, Error,
}
use yolo_ave_mujica.Datahub.Repository.{InMemoryRepository, count, all_of}
use yolo_ave_mujica.Datahub.Items.{
  item_by_key, category_of, list_annotations, of_snapshot, create_annotation,
  record_annotation_change,
}
use yolo_ave_mujica.Datahub.Import.{
  entry_problem, seen_in, stored, store_entry, imported_annotation_key, resolve, import_entries,
}

module _ (format : ℕ → Text) (d : Dataset) (r : InMemoryRepository) where
  -- An entry that can be imported: named, with a box, not seen before, of a known item and category.
  pub record IsImportable (seen : List Text) (e : ImportedAnnotation) (item : DatasetItem)
      (category : ℕ) : Type 0 where
    pub named : is_empty e.object_key ≡ false
    pub labelled : is_empty e.category_name ≡ false
    pub right_of_zero : is_below_zero e.bbox_x ≡ false
    pub under_zero : is_below_zero e.bbox_y ≡ false
    pub wide : is_at_most_zero e.bbox_w ≡ false
    pub high : is_at_most_zero e.bbox_h ≡ false
    pub fresh : seen_in (imported_annotation_key format e) seen ≡ false
    pub has_item : item_by_key e.object_key (all_of d.id r.items) ≡ some item
    pub has_category : category_of d.project_id e.category_name r ≡ some category

  -- All entries can be imported one after the other, with these items and categories.
  pub data Importable : List Text → List ImportedAnnotation → List (DatasetItem × ℕ) → Type 0 where
    none_left : {seen : List Text} → Importable seen [] []
    one_more :
        {seen : List Text} {e : ImportedAnnotation} {es : List ImportedAnnotation}
        {item : DatasetItem} {category : ℕ} {found : List (DatasetItem × ℕ)}
        → IsImportable seen e item category
        → Importable (imported_annotation_key format e ∷ seen) es found
        → Importable seen (e ∷ es) ((item, category) ∷ found)

-- The annotations of the entries.
abbrev pub stored_all :
    Snapshot → Dataset → List ImportedAnnotation → List (DatasetItem × ℕ) → List StoredAnnotation
stored_all x d (e ∷ es) ((item, category) ∷ found) =
    stored x d e item category ∷ stored_all x d es found
stored_all x d _ _ = []

-- The repository with them.
abbrev pub imported :
    Snapshot
    → Dataset
    → List ImportedAnnotation
    → List (DatasetItem × ℕ)
    → InMemoryRepository
    → InMemoryRepository
imported x d (e ∷ es) ((item, category) ∷ found) r =
    imported x d es found (store_entry x d e item category r)
imported x d _ _ r = r

module _ (format : ℕ → Text) (x : Snapshot) (d : Dataset) where
  Importable-resolve :
      (r : InMemoryRepository) (seen : List Text) (e : ImportedAnnotation) (item : DatasetItem)
      (category : ℕ)
      → IsImportable format d r seen e item category
      → resolve format d seen e r ≡ value (item, category)
  unfolding resolve entry_problem
  Importable-resolve r seen e item category h =
      rw
        (
          h.named, h.labelled, h.right_of_zero, h.under_zero, h.wide, h.high, h.fresh, resolve,
          h.has_item, h.has_category,
        )
        refl

  IsImportable-store :
      (r : InMemoryRepository) (seen : List Text) (e f : ImportedAnnotation) (item i : DatasetItem)
      (category c : ℕ)
      → IsImportable format d r seen e item category
      → IsImportable format d (store_entry x d f i c r) seen e item category
  unfolding store_entry create_annotation record_annotation_change category_of
  IsImportable-store r seen e f item i category c h = record {
    named = h.named;
    labelled = h.labelled;
    right_of_zero = h.right_of_zero;
    under_zero = h.under_zero;
    wide = h.wide;
    high = h.high;
    fresh = h.fresh;
    has_item = h.has_item;
    has_category = h.has_category;
  }

  Importable-store :
      (r : InMemoryRepository) (seen : List Text) (es : List ImportedAnnotation)
      (found : List (DatasetItem × ℕ)) (f : ImportedAnnotation) (i : DatasetItem) (c : ℕ)
      → Importable format d r seen es found
      → Importable format d (store_entry x d f i c r) seen es found
  Importable-store r seen [] [] f i c none_left = none_left
  Importable-store r seen [] (p ∷ found) f i c h = elim h [ ]
  Importable-store r seen (e ∷ es) [] f i c h = elim h [ ]
  Importable-store r seen (e ∷ es) ((item, category) ∷ found) f i c (one_more h more) =
      one_more (IsImportable-store r seen e f item i category c h)
        (Importable-store r (imported_annotation_key format e ∷ seen) es found f i c more)

  -- The loop imports them all, and goes on with what follows.
  pub import_entries_lem :
      (r : InMemoryRepository) (seen : List Text) (es : List ImportedAnnotation)
      (found : List (DatasetItem × ℕ)) (n : ℕ)
      → Importable format d r seen es found
      → import_entries format x d es seen n r ≡ ok (n + count es) (imported x d es found r)
  unfolding import_entries
  import_entries_lem r seen [] [] n none_left = ap (λ m. ok m r) (omega arith)
  import_entries_lem r seen [] (p ∷ found) n h = elim h [ ]
  import_entries_lem r seen (e ∷ es) [] n h = elim h [ ]
  import_entries_lem r seen (e ∷ es) ((item, category) ∷ found) n (one_more h more) =
      let next = store_entry x d e item category r in
      let later =
        import_entries_lem next (imported_annotation_key format e ∷ seen) es found (suc n) (
          Importable-store r (imported_annotation_key format e ∷ seen) es found e item category
            more) in
      let same : suc n + count es ≡ n + suc (count es) = omega arith in
      rw (Importable-resolve r seen e item category h, import_entries)
        (later ∙ ap (λ m. ok m (imported x d es found next)) same)

  resolve-bad :
      (r : InMemoryRepository) (seen : List Text) (bad : ImportedAnnotation) (problem : Error)
      → entry_problem bad ≡ some problem
      → resolve format d seen bad r ≡ fault problem
  unfolding resolve
  resolve-bad r seen bad problem h = rw (h, resolve) refl

  -- The loop imports what comes before an entry that is not named or has no box, and stops there.
  pub import_entries-stops :
      (r : InMemoryRepository) (seen : List Text) (es : List ImportedAnnotation)
      (found : List (DatasetItem × ℕ)) (n : ℕ) (bad : ImportedAnnotation)
      (rest : List ImportedAnnotation) (problem : Error)
      → Importable format d r seen es found
      → entry_problem bad ≡ some problem
      → import_entries format x d (es ++ (bad ∷ rest)) seen n r
        ≡ err problem (imported x d es found r)
  unfolding import_entries
  import_entries-stops r seen [] [] n bad rest problem none_left h =
      rw (resolve-bad r seen bad problem h, import_entries) refl
  import_entries-stops r seen [] (p ∷ found) n bad rest problem m h = elim m [ ]
  import_entries-stops r seen (e ∷ es) [] n bad rest problem m h = elim m [ ]
  import_entries-stops r seen (e ∷ es) ((item, category) ∷ found) n bad rest problem
        (one_more i more) h =
      rw (Importable-resolve r seen e item category i, import_entries)
        (import_entries-stops (store_entry x d e item category r)
          (imported_annotation_key format e ∷ seen) es found (suc n) bad rest problem
          (Importable-store r (imported_annotation_key format e ∷ seen) es found e item category
            more)
          h)
