-- ===== src/Datahub/Imported/Laws.antt =====
-- ImportSnapshot of internal/datahub/service.go: the round trip of an import that succeeds, and what is left
-- by one that fails on its way.
use yolo_ave_mujica.Base.{
  ℕ, ◌≡◌, refl, ◌≤◌, ◌∙◌, sym, ap, inl, inr, true, false, Text, text_key, keys, lookup, nat_key,
  List, [], ◌∷◌, ◌++◌, map, none, some, ok, err, and_then, arith, nat_beq, ◌+◌,
}
use yolo_ave_mujica.Datahub.Model.{
  Dataset, Snapshot, DatasetItem, ImportedAnnotation, ImportSnapshotInput, ImportSnapshotResult,
  StoredAnnotation, Error, conflict,
}
use yolo_ave_mujica.Datahub.Repository.{
  InMemoryRepository, count, find_dataset, find_snapshot, snapshot_of,
}
use yolo_ave_mujica.Datahub.Items.{list_annotations}
use yolo_ave_mujica.Datahub.Import.{
  import_problem, entry_problem, as_imported, import_entries_match_snapshot, import_into,
  import_snapshot, no_entries,
}
use yolo_ave_mujica.Datahub.Imported.{
  Importable, stored_all, imported, import_entries_lem, import_entries-stops,
}
use yolo_ave_mujica.Datahub.Imported.Stored.{
  list_annotations-imported, imported_snapshots, as_imported-stored_all,
}
use yolo_ave_mujica.Datahub.Imported.Matching.{
  count-map, list_cases, no_entries-cons, import_problem-entries, matches, mismatches,
}

module _ (format : ℕ → Text) where
  module _ (id : ℕ) (r : InMemoryRepository) (x : Snapshot) (d : Dataset)
      (at : snapshot_of id r.snapshots (keys r.datasets) ≡ some x)
      (within : lookup x.dataset_id r.datasets ≡ some d) where
    -- The call up to the annotations that the snapshot has.
    import_snapshot-into :
        (i : ImportSnapshotInput)
        → import_problem i ≡ none
        → import_snapshot format id i r
          ≡ import_into format x d i.entries (list_annotations x.id r) r
    unfolding import_snapshot find_snapshot find_dataset
    import_snapshot-into i fine = rw (fine, and_then, at, within) refl

  -- The snapshot and its dataset after an import.
  still_at :
      (id : ℕ) (r : InMemoryRepository) (x : Snapshot) (d : Dataset) (es : List ImportedAnnotation)
      (found : List (DatasetItem × ℕ))
      → snapshot_of id r.snapshots (keys r.datasets) ≡ some x
      → snapshot_of id (imported x d es found r).snapshots (keys (imported x d es found r).datasets)
        ≡ some x
  still_at id r x d es found at = let (s, t) = imported_snapshots x d es found r in rw (s, t) at

  still_within :
      (r : InMemoryRepository) (x : Snapshot) (d : Dataset) (es : List ImportedAnnotation)
      (found : List (DatasetItem × ℕ))
      → lookup x.dataset_id r.datasets ≡ some d
      → lookup x.dataset_id (imported x d es found r).datasets ≡ some d
  still_within r x d es found within = let (s, t) = imported_snapshots x d es found r in rw t within

  -- What a later import makes of a snapshot that has annotations.
  import_into-again :
      (x : Snapshot) (d : Dataset) (es : List ImportedAnnotation) (a : StoredAnnotation)
      (old : List StoredAnnotation) (r : InMemoryRepository)
      → import_entries_match_snapshot format (a ∷ old) es ≡ true
      → import_into format x d es (a ∷ old) r
        ≡ ok
            (record {
              dataset_id = d.id;
              snapshot_id = x.id;
              imported_annotations = count (a ∷ old);
            })
            r
  unfolding import_into
  import_into-again x d es a old r h = rw h refl

  import_into-other :
      (x : Snapshot) (d : Dataset) (es : List ImportedAnnotation) (a : StoredAnnotation)
      (old : List StoredAnnotation) (r : InMemoryRepository)
      → import_entries_match_snapshot format (a ∷ old) es ≡ false
      → import_into format x d es (a ∷ old) r
        ≡ err (conflict "import already completed with different annotations") r
  unfolding import_into
  import_into-other x d es a old r h = rw h refl

  count-stored_all :
      (r : InMemoryRepository) (x : Snapshot) (d : Dataset) (seen : List Text)
      (es : List ImportedAnnotation) (found : List (DatasetItem × ℕ))
      → Importable format d r seen es found
      → count (stored_all x d es found) ≡ count es
  count-stored_all r x d seen es found h =
      sym (count-map (as_imported format) (stored_all x d es found))
      ∙ ap count (as_imported-stored_all format x d r seen es found h)

  imports_all :
      (i : ImportSnapshotInput) (r : InMemoryRepository) (x : Snapshot) (d : Dataset)
      (found : List (DatasetItem × ℕ))
      → Importable format d r [] i.entries found
      → import_into format x d i.entries [] r
        ≡ ok
            (record {
              dataset_id = d.id;
              snapshot_id = x.id;
              imported_annotations = count i.entries;
            })
            (imported x d i.entries found r)
  unfolding import_into
  imports_all i r x d found importable =
      let t = imported x d i.entries found r in
      let none_before : 0 + count i.entries ≡ count i.entries = omega arith in
      rw (import_entries_lem format x d r [] i.entries found 0 importable, import_into)
        (ap (λ n. ok (record { dataset_id = d.id; snapshot_id = x.id; imported_annotations = n }) t)
          none_before)

  imports_again :
      (i : ImportSnapshotInput) (r : InMemoryRepository) (x : Snapshot) (d : Dataset)
      (found : List (DatasetItem × ℕ))
      → import_problem i ≡ none
      → Importable format d r [] i.entries found
      → import_into format x d i.entries
          (stored_all x d i.entries found)
          (imported x d i.entries found r)
        ≡ ok
            (record {
              dataset_id = d.id;
              snapshot_id = x.id;
              imported_annotations = count i.entries;
            })
            (imported x d i.entries found r)
  imports_again i r x d found fine importable =
      let t = imported x d i.entries found r in
      let matched =
        matches format (stored_all x d i.entries found) i.entries
          (as_imported-stored_all format x d r [] i.entries found importable) in
      let counted = count-stored_all r x d [] i.entries found importable in
      elim (list_cases (stored_all x d i.entries found)) [
        | inl e ↦
            let zero : count i.entries ≡ 0 = sym counted ∙ ap count e in
            let one : 1 ≤ count i.entries =
              no_entries-cons i.entries (import_problem-entries i fine) in
            absurd (omega arith)
        | inr (a, old, e) ↦ rw e (
            import_into-again x d i.entries a old t (rw e at matched)
            ∙ ap
                (λ n.
                  ok (record { dataset_id = d.id; snapshot_id = x.id; imported_annotations = n }) t)
                (rw e at counted))
      ]

  -- Importing entries that can all be imported, into a snapshot of a dataset that has no annotations yet,
  -- succeeds with their number; the snapshot then has exactly the entries' annotations, in their order,
  -- which read back as the entries; and importing them again returns the same and changes nothing.
  pub import_snapshot_lem :
      (id : ℕ) (i : ImportSnapshotInput) (r : InMemoryRepository) (x : Snapshot) (d : Dataset)
      (found : List (DatasetItem × ℕ))
      → import_problem i ≡ none
      → snapshot_of id r.snapshots (keys r.datasets) ≡ some x
      → lookup x.dataset_id r.datasets ≡ some d
      → list_annotations x.id r ≡ []
      → Importable format d r [] i.entries found
      → let t = imported x d i.entries found r in
        let answer : ImportSnapshotResult = record {
          dataset_id = d.id;
          snapshot_id = x.id;
          imported_annotations = count i.entries;
        } in
        (import_snapshot format id i r ≡ ok answer t)
        × (list_annotations x.id t ≡ stored_all x d i.entries found)
        × (map (as_imported format) (list_annotations x.id t) ≡ i.entries)
        × (import_snapshot format id i t ≡ ok answer t)
  import_snapshot_lem id i r x d found fine at within fresh importable =
      let t = imported x d i.entries found r in
      let listed : list_annotations x.id t ≡ stored_all x d i.entries found =
        list_annotations-imported x d i.entries found r ∙ rw fresh refl in
      (
        import_snapshot-into id r x d at within i fine
            ∙ rw fresh (imports_all i r x d found importable),
        listed,
        rw listed (as_imported-stored_all format x d r [] i.entries found importable),
        import_snapshot-into id t x d (still_at id r x d i.entries found at)
              (still_within r x d i.entries found within) i fine
            ∙ rw listed (imports_again i r x d found fine importable),
      )

  stops_into :
      (r : InMemoryRepository) (x : Snapshot) (d : Dataset) (es : List ImportedAnnotation)
      (found : List (DatasetItem × ℕ)) (bad : ImportedAnnotation) (rest : List ImportedAnnotation)
      (problem : Error)
      → Importable format d r [] es found
      → entry_problem bad ≡ some problem
      → import_into format x d (es ++ (bad ∷ rest)) [] r ≡ err problem (imported x d es found r)
  unfolding import_into
  stops_into r x d es found bad rest problem importable h =
      rw
        (import_entries-stops format x d r [] es found 0 bad rest problem importable h, import_into)
        refl

  refuses :
      (r : InMemoryRepository) (x : Snapshot) (d : Dataset) (es : List ImportedAnnotation)
      (found : List (DatasetItem × ℕ)) (j : ImportSnapshotInput)
      → Importable format d r [] es found
      → no_entries es ≡ false
      → nat_beq (count es) (count j.entries) ≡ false
      → import_into format x d j.entries (stored_all x d es found) (imported x d es found r)
        ≡ err
            (conflict "import already completed with different annotations")
            (imported x d es found r)
  refuses r x d es found j importable some_es other =
      let counted = count-stored_all r x d [] es found importable in
      let unlike = mismatches format (stored_all x d es found) j.entries (rw counted other) in
      elim (list_cases (stored_all x d es found)) [
        | inl e ↦
            let zero : count es ≡ 0 = sym counted ∙ ap count e in
            let one : 1 ≤ count es = no_entries-cons es some_es in absurd (omega arith)
        | inr (a, old, e) ↦
            rw e (import_into-other x d j.entries a old (imported x d es found r) (rw e at unlike))
      ]

  -- An import into a snapshot of a dataset that has no annotations yet, where an entry that is not named or
  -- has no box follows some that can be imported, fails but leaves the annotations of those before it, and
  -- an import of another number of entries into the snapshot that comes next is refused and changes nothing.
  pub import_snapshot_partial :
      (id : ℕ) (i j : ImportSnapshotInput) (r : InMemoryRepository) (x : Snapshot) (d : Dataset)
      (es rest : List ImportedAnnotation) (bad : ImportedAnnotation)
      (found : List (DatasetItem × ℕ)) (problem : Error)
      → import_problem i ≡ none
      → import_problem j ≡ none
      → snapshot_of id r.snapshots (keys r.datasets) ≡ some x
      → lookup x.dataset_id r.datasets ≡ some d
      → list_annotations x.id r ≡ []
      → i.entries ≡ es ++ (bad ∷ rest)
      → no_entries es ≡ false
      → Importable format d r [] es found
      → entry_problem bad ≡ some problem
      → nat_beq (count es) (count j.entries) ≡ false
      → let t = imported x d es found r in
        (import_snapshot format id i r ≡ err problem t)
        × (list_annotations x.id t ≡ stored_all x d es found)
        × (import_snapshot format id j t
            ≡ err (conflict "import already completed with different annotations") t)
  import_snapshot_partial id i j r x d es rest bad found problem fine fine' at within fresh all
        some_es importable h other =
      let t = imported x d es found r in
      let listed : list_annotations x.id t ≡ stored_all x d es found =
        list_annotations-imported x d es found r ∙ rw fresh refl in
      (
        import_snapshot-into id r x d at within i fine
            ∙ rw (fresh, all) (stops_into r x d es found bad rest problem importable h),
        listed,
        import_snapshot-into id t x d (still_at id r x d es found at)
              (still_within r x d es found within) j fine'
            ∙ rw listed (refuses r x d es found j importable some_es other),
      )
