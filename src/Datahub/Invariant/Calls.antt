-- ===== src/Datahub/Invariant/Calls.antt =====
-- Each call of the data hub keeps what holds of its repository.
use mathlib.Core.Path.{subst}
use yolo_ave_mujica.Base.{
  ℕ, suc, ◌+◌, ◌≡◌, ◌≤◌, refl, ap, inl, inr, not_positive, false, Text, is_empty, lit, decimal,
  nat_key, nat_beq, nat_beq_iff, lookup, insert, lookup-insert, List, [], ◌∷◌, ◌++◌, Option, none,
  some, arith, if◌then◌else◌, Bool-cases, Option-cases, Try, value, fault, attempt, and_then,
  state_of,
}
use yolo_ave_mujica.Datahub.Model.{
  Dataset, Snapshot, CreateDatasetInput, CreateSnapshotInput, ScannedObject, Error,
}
use yolo_ave_mujica.Datahub.Repository.{
  InMemoryRepository, Action, all_of, count, create_dataset_in, create_snapshot_in, find_dataset,
}
use yolo_ave_mujica.Datahub.Items.{
  upsert, upsert_scanned_items, insert_items, named_objects, keys_or_sample,
}
use yolo_ave_mujica.Datahub.Service.{
  ObjectScanner, dataset_problem, create_dataset, create_snapshot, scan_dataset,
}
use yolo_ave_mujica.Datahub.Invariant.{Versioned, Stock, IsNamed, Inv}
use yolo_ave_mujica.Datahub.Invariant.Lists.{
  Versioned-append, Versioned-mono, Stock-mono, upsert-Stock,
}

abbrev pub Keeps : {A : Type 0} → Action A → Type 0
Keeps m = (r : InMemoryRepository) → Inv r → Inv (state_of (m r))

module _ {A : Type 0} where
  -- A write of the list under one key.
  all_of-insert :
      (j k : ℕ) (xs : List A) (m : List (ℕ × List A))
      → all_of j (insert k xs m) ≡ (if nat_beq k j then xs else all_of j m)
  all_of-insert j k xs m = elim (Bool-cases (nat_beq k j)) [
    | inl e ↦ rw (lookup-insert j k xs m, e) refl
    | inr e ↦ rw (lookup-insert j k xs m, e) refl
  ]

  -- What holds of every list holds after such a write.
  all_of-write :
      (P : ℕ → List A → Type 0) (k : ℕ) (xs : List A) (m : List (ℕ × List A))
      → ((j : ℕ) → P j (all_of j m))
      → P k xs
      → (j : ℕ) → P j (all_of j (insert k xs m))
  all_of-write P k xs m old new j = elim (Bool-cases (nat_beq k j)) [
    | inl e ↦ rw (all_of-insert j k xs m, e) (subst (λ n. P n xs) ((nat_beq_iff k j).0 e) new)
    | inr e ↦ rw (all_of-insert j k xs m, e) (old j)
  ]

dataset_problem-none :
    (i : CreateDatasetInput)
    → dataset_problem i ≡ none
    → (not_positive i.project_id ≡ false) × (is_empty i.name ≡ false) × (is_empty i.bucket ≡ false)
unfolding dataset_problem
dataset_problem-none i h = (ground arith, ground arith, ground arith)

IsNamed-write :
    (r : InMemoryRepository) (d : Dataset) (next : ℕ)
    → Inv r
    → r.next_dataset ≤ next
    → IsNamed next d.id d
    → (k : ℕ) (c : Dataset) → lookup k (insert d.id d r.datasets) ≡ some c
    → IsNamed next k c
IsNamed-write r d next inv le new k c h = elim (Bool-cases (nat_beq d.id k)) [
  | inl e ↦
      let f : some d ≡ some c = rw (lookup-insert k d.id d r.datasets, e) at h in
      let g : d ≡ c = cc in
      subst (λ n. IsNamed next n c) ((nat_beq_iff d.id k).0 e)
        (subst (λ x. IsNamed next d.id x) g new)
  | inr e ↦
      let old = inv.named k c (rw (lookup-insert k d.id d r.datasets, e) at h) in
      record {
        own_id = old.own_id;
        below = let lt = old.below in omega arith;
        in_project = old.in_project;
        named = old.named;
        placed = old.placed;
      }
]

pub create_dataset-Keeps : (i : CreateDatasetInput) → Keeps (create_dataset i)
unfolding create_dataset create_dataset_in
create_dataset-Keeps i r inv = elim (Option-cases (dataset_problem i)) [
  | inr (e, bad) ↦ rw (bad, and_then, state_of) inv
  | inl fine ↦
      let (p, n, b) = dataset_problem-none i fine in
      let d : Dataset = record {
        id = r.next_dataset;
        project_id = i.project_id;
        name = i.name;
        bucket = i.bucket;
        prefix = i.prefix;
      } in
      rw (fine, and_then, state_of)
        (record {
          named = IsNamed-write r d (suc r.next_dataset) inv (omega arith) (record {
            own_id = refl;
            below = omega arith;
            in_project = p;
            named = n;
            placed = b;
          });
          versioned = inv.versioned;
          stocked =
              all_of-write (λ k xs. Stock k 0 r.next_item xs) r.next_dataset [] r.items inv.stocked
                (omega arith);
        })
]

pub create_snapshot-Keeps : (id : ℕ) (i : CreateSnapshotInput) → Keeps (create_snapshot id i)
unfolding create_snapshot create_snapshot_in
create_snapshot-Keeps id i r inv = elim (Option-cases (lookup id r.datasets)) [
  | inl e ↦ rw (e, create_snapshot_in, state_of) inv
  | inr (d, e) ↦
      let old = all_of id r.snapshots in
      let x : Snapshot = record {
        id = r.next_snapshot;
        dataset_id = id;
        version = lit "v" ++ decimal (suc (count old));
        based_on_snapshot = i.based_on_snapshot_id;
        note = i.note;
      } in
      let all : count old ≡ 0 + count old = omega arith in
      rw (e, create_snapshot_in, state_of)
        (record {
          named = inv.named;
          versioned =
              all_of-write (λ k xs. Versioned k 0 0 (suc r.next_snapshot) xs) id (old ++ (x ∷ []))
                r.snapshots
                (λ k.
                  Versioned-mono k 0 0 r.next_snapshot (suc r.next_snapshot) (all_of k r.snapshots)
                    (omega arith) (inv.versioned k))
                (Versioned-append id 0 0 r.next_snapshot old x refl
                  (ap (λ n. lit "v" ++ decimal (suc n)) all) refl (inv.versioned id));
          stocked = inv.stocked;
        })
]

upsert_scanned_items-Keeps : (id : ℕ) (os : List ScannedObject) → Keeps (upsert_scanned_items id os)
unfolding upsert_scanned_items
upsert_scanned_items-Keeps id os r inv = elim (Option-cases (lookup id r.datasets)) [
  | inl e ↦ rw (e, upsert_scanned_items, state_of) inv
  | inr (d, e) ↦
      let (next, items, added) = upsert id os r.next_item (all_of id r.items) 0 in
      let (stock, grown) = upsert-Stock id os r.next_item (all_of id r.items) 0 (inv.stocked id) in
      rw (e, upsert_scanned_items, state_of)
        (record {
          named = inv.named;
          versioned = inv.versioned;
          stocked =
              all_of-write (λ k xs. Stock k 0 next xs) id items r.items
                (λ k. Stock-mono k 0 r.next_item next (all_of k r.items) grown (inv.stocked k))
                stock;
        })
]

insert_items-Keeps : (id : ℕ) (keys : List Text) (now : ℕ) → Keeps (insert_items id keys now)
unfolding insert_items find_dataset
insert_items-Keeps id keys now r inv = elim (Option-cases (lookup id r.datasets)) [
  | inl e ↦ rw (e, and_then, state_of) inv
  | inr (d, e) ↦
      rw (e, and_then)
        (upsert_scanned_items-Keeps id (named_objects (keys_or_sample d.prefix now keys)) r inv)
]

scanned-Keeps :
    (id : ℕ) (answer : Try Error (List ScannedObject)) (r : InMemoryRepository)
    → Inv r
    → Inv (state_of (and_then (attempt answer r) (λ os. upsert_scanned_items id os)))
scanned-Keeps id (value os) r inv = upsert_scanned_items-Keeps id os r inv
scanned-Keeps id (fault e) r inv = inv

pub scan_dataset-Keeps :
    (scanner : Option ObjectScanner) (id : ℕ) (keys : List Text) (now : ℕ)
    → Keeps (scan_dataset scanner id keys now)
unfolding scan_dataset find_dataset
scan_dataset-Keeps scanner id (key ∷ rest) now r inv = insert_items-Keeps id (key ∷ rest) now r inv
scan_dataset-Keeps none id [] now r inv = insert_items-Keeps id [] now r inv
scan_dataset-Keeps (some scan) id [] now r inv = elim (Option-cases (lookup id r.datasets)) [
  | inl e ↦ rw (e, and_then, state_of) inv
  | inr (d, e) ↦ rw (e, and_then) (scanned-Keeps id (scan d.bucket d.prefix) r inv)
]

-- Nothing but categories, annotations and changes differs.
abbrev pub Rest : InMemoryRepository → InMemoryRepository → Type 0
Rest r s =
    (s.datasets ≡ r.datasets)
    × (s.snapshots ≡ r.snapshots)
    × (s.items ≡ r.items)
    × (s.next_dataset ≡ r.next_dataset)
    × (s.next_snapshot ≡ r.next_snapshot)
    × (s.next_item ≡ r.next_item)

pub Inv-same : (r s : InMemoryRepository) → Rest r s → Inv r → Inv s
Inv-same r s (d, x, i, nd, nx, ni) inv = record {
  named = λ k c h. rw nd (inv.named k c (rw d at h));
  versioned = λ k. rw (x, nx) (inv.versioned k);
  stocked = λ k. rw (i, ni) (inv.stocked k);
}
