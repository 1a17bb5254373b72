-- ===== src/Publish/Invariant/Writes.antt =====
-- Writing one batch (`r.batches[batchID] = cloneBatch(batch)`) keeps what holds of the repository.
use yolo_ave_mujica.Base.{
  ℕ, ◌+◌, ◌≤◌, ◌<◌, ◌≡◌, refl, ◌∙◌, ◌⊎◌, inl, inr, false, nat_beq, nat_beq_iff, lookup, insert,
  lookup-insert, nat_key, [], ◌∷◌, none, some, arith, Bool-cases, Option-cases, if◌then◌else◌, Map,
}
use yolo_ave_mujica.Jobs.Value.{Detail}
use yolo_ave_mujica.Publish.Model.{Batch, Record}
use yolo_ave_mujica.Publish.Repository.{InMemoryRepository, clone_batch}
use yolo_ave_mujica.Publish.Invariant.{
  Good, one_if, records_of, is_published, due, Inv, Kept, Advances, Evolves, Preserves, After,
}
use yolo_ave_mujica.Publish.Invariant.Parts.{Numbered-mono, Numbered-map, Rising-mono}

Kept-refl : (b : Batch) → Kept b b
Kept-refl b = record {
  same_id = refl;
  same_project = refl;
  same_snapshot = refl;
  same_source = refl;
  same_creation = refl;
  edited = omega arith;
  sealed = λ h. (refl, refl, refl);
}

Kept-trans : (b c d : Batch) → Kept b c → Kept c d → Kept b d
Kept-trans b c d p q = record {
  same_id = q.same_id ∙ p.same_id;
  same_project = q.same_project ∙ p.same_project;
  same_snapshot = q.same_snapshot ∙ p.same_snapshot;
  same_source = q.same_source ∙ p.same_source;
  same_creation = q.same_creation ∙ p.same_creation;
  edited = omega arith;
  sealed = λ h.
      let (e, f, g) = p.sealed h in
      let (e', f', g') = q.sealed (rw e h) in (e' ∙ e, f' ∙ f, g' ∙ g);
}

Advances-refl : (b : Batch) → Advances b b
Advances-refl b = record { kept = Kept-refl b; moved = inl refl }

pub Evolves-refl : (r : InMemoryRepository) → Evolves r r
Evolves-refl r k b h = (b, h, Advances-refl b)

pub Preserves-refl : (r : InMemoryRepository) → Preserves r r
Preserves-refl r k b h = (b, h, Kept-refl b)

-- One call, and then others.
pub Preserves-cons : (r s t : InMemoryRepository) → Evolves r s → Preserves s t → Preserves r t
Preserves-cons r s t p q k b h =
    let (c, g, a) = p k b h in let (d, f, a') = q k c g in (d, f, Kept-trans b c d a.kept a')

Good-mono : (i i' f f' k : ℕ) (b : Batch) → i ≤ i' → f ≤ f' → Good i f k b → Good i' f' k b
Good-mono i i' f f' k b p q g = record {
  own_id = g.own_id;
  sound = g.sound;
  numbered = Numbered-mono k b.snapshot_id 0 0 i i' b.items p g.numbered;
  fed = Rising-mono k 0 f f' b.feedback q g.fed;
}

Good-clone :
    (clone : Detail → Detail) (i f k : ℕ) (b : Batch)
    → Good i f k b
    → Good i f k (clone_batch clone b)
unfolding clone_batch
Good-clone clone i f k b g = record {
  own_id = g.own_id;
  sound = record {
    in_project = g.sound.in_project;
    of_snapshot = g.sound.of_snapshot;
    written = g.sound.written;
    reviewed = g.sound.reviewed;
    published_reviewed = g.sound.published_reviewed;
    published_owned = g.sound.published_owned;
  };
  numbered = Numbered-map clone k b.snapshot_id 0 0 i b.items g.numbered;
  fed = g.fed;
}

Advances-clone :
    (clone : Detail → Detail) (b c : Batch) → Advances b c → Advances b (clone_batch clone c)
unfolding clone_batch
Advances-clone clone b c a = record {
  kept = record {
    same_id = a.kept.same_id;
    same_project = a.kept.same_project;
    same_snapshot = a.kept.same_snapshot;
    same_source = a.kept.same_source;
    same_creation = a.kept.same_creation;
    edited = a.kept.edited;
    sealed = a.kept.sealed;
  };
  moved = a.moved;
}

module _ (clone : Detail → Detail) (r s : InMemoryRepository) (k : ℕ) (c : Batch)
    (writes : s.batches ≡ insert k (clone_batch clone c) r.batches)
    (batches_grow : r.next_batch ≤ s.next_batch) (within : k < s.next_batch)
    (items_grow : r.next_item ≤ s.next_item) (feeds_grow : r.next_feed ≤ s.next_feed)
    (good : Good s.next_item s.next_feed k c)
    (counts : (j : ℕ)
      → records_of j s.records
        ≡ (if nat_beq k j then one_if (is_published c.status) else records_of j r.records))
    (kept : (n : ℕ) (x : Record) → lookup n s.records ≡ some x → n < s.next_record)
    (advances : (b : Batch) → lookup k r.batches ≡ some b → Advances b c) where
  written_cases :
      (j : ℕ) (d : Batch)
      → lookup j s.batches ≡ some d
      → ((j ≡ k) × (d ≡ clone_batch clone c)) ⊎ (lookup j r.batches ≡ some d)
  written_cases j d h =
      let g : lookup j (insert k (clone_batch clone c) r.batches) ≡ some d = rw (← writes) h in
      ground (arith, lookup-insert j k (clone_batch clone c) r.batches)

  clone_status : (clone_batch clone c).status ≡ c.status
  unfolding clone_batch
  clone_status = refl

  written_recorded : Inv r → (j : ℕ) → records_of j s.records ≡ due (lookup j s.batches)
  written_recorded inv j = elim (Bool-cases (nat_beq k j)) [
    | inl e ↦
        rw (counts j, writes, lookup-insert j k (clone_batch clone c) r.batches, e, clone_status)
          refl
    | inr e ↦
        rw (counts j, writes, lookup-insert j k (clone_batch clone c) r.batches, e) (inv.recorded j)
  ]

  pub written-After : Inv r → After r s
  written-After inv = (
    record {
      good = λ j d h. elim (written_cases j d h) [
        | inl (e, f) ↦ rw (f, e) (Good-clone clone s.next_item s.next_feed k c good)
        | inr old ↦
            Good-mono r.next_item s.next_item r.next_feed s.next_feed j d items_grow feeds_grow
              (inv.good j d old)
      ];
      below = λ j d h. elim (written_cases j d h) [
        | inl (e, f) ↦ rw e within
        | inr old ↦ let b = inv.below j d old in omega arith
      ];
      recorded = written_recorded inv;
      record_below = kept;
    },
    λ j b h. elim (Bool-cases (nat_beq k j)) [
      | inl e ↦
          let f : k ≡ j = (nat_beq_iff k j).0 e in
          (
            clone_batch clone c,
            rw (writes, lookup-insert j k (clone_batch clone c) r.batches, e) refl,
            Advances-clone clone b c (advances b (rw f h)),
          )
      | inr e ↦
          (b, rw (writes, lookup-insert j k (clone_batch clone c) r.batches, e) h, Advances-refl b)
    ],
  )

-- A write that makes no record.
pub records_same :
    (r : InMemoryRepository) (inv : Inv r) (k : ℕ) (b : Batch)
    → lookup k r.batches ≡ some b
    → (j : ℕ)
    → records_of j r.records
      ≡ (if nat_beq k j then one_if (is_published b.status) else records_of j r.records)
records_same r inv k b at j = elim (Bool-cases (nat_beq k j)) [
  | inl e ↦ let f : k ≡ j = (nat_beq_iff k j).0 e in rw e (inv.recorded j ∙ rw (← f, at, due) refl)
  | inr e ↦ rw e refl
]

pub records_of-insert :
    (j n : ℕ) (x : Record) (m : Map ℕ Record)
    → lookup n m ≡ none
    → records_of j (insert n x m) ≡ one_if (nat_beq x.publish_batch_id j) + records_of j m
unfolding records_of insert lookup
records_of-insert j n x [] h = refl
records_of-insert j n x ((i, y) ∷ m) h = elim (Bool-cases (nat_beq i n)) [
  | inl e ↦ let g : some y ≡ none = rw e at h in cc
  | inr e ↦ let later = records_of-insert j n x m (rw e at h) in rw e (omega arith)
]

pub fresh_record : (r : InMemoryRepository) → Inv r → lookup r.next_record r.records ≡ none
fresh_record r inv = elim (Option-cases (lookup r.next_record r.records)) [
  | inl e ↦ e
  | inr (y, e) ↦ let lt = inv.record_below r.next_record y e in ground arith
]

-- A write of a batch that had no record, with its record.
pub records_more :
    (r : InMemoryRepository) (inv : Inv r) (k : ℕ) (b : Batch) (x : Record)
    → lookup k r.batches ≡ some b
    → is_published b.status ≡ false
    → x.publish_batch_id ≡ k
    → (j : ℕ)
    → records_of j (insert r.next_record x r.records)
      ≡ (if nat_beq k j then 1 else records_of j r.records)
records_more r inv k b x at unpublished from j =
    let fresh = fresh_record r inv in
    elim (Bool-cases (nat_beq k j)) [
      | inl e ↦
          let f : k ≡ j = (nat_beq_iff k j).0 e in
          let zero : records_of j r.records ≡ 0 =
            inv.recorded j ∙ rw (← f, at, due, unpublished) refl in
          rw (records_of-insert j r.next_record x r.records fresh, from, e, zero) (omega arith)
      | inr e ↦ rw (records_of-insert j r.next_record x r.records fresh, from, e) (omega arith)
    ]
