-- ===== src/Annotations/Invariant/Writes.antt =====
-- Writing one annotation (`r.byTaskID[taskID] = cloneAnnotation(a)`) keeps what holds of them.
use yolo_ave_mujica.Base.{
  ℕ, ◌≤◌, ◌≡◌, refl, sym, ◌∙◌, ◌⊎◌, inl, inr, nat_beq, nat_beq_iff, nat_key, lookup, insert,
  lookup-insert, some, Option, arith, Bool-cases,
}
use yolo_ave_mujica.Jobs.Value.{Detail}
use yolo_ave_mujica.Annotations.Model.{Annotation}
use yolo_ave_mujica.Annotations.Repository.{InMemoryRepository, clone_annotation}
use yolo_ave_mujica.Annotations.Invariant.{IsSound, Inv, Advances, Evolves, After}

Advances-refl : (a : Annotation) → Advances a a
Advances-refl a = record {
  same_id = refl;
  same_task = refl;
  same_snapshot = refl;
  same_asset = refl;
  same_frame = refl;
  same_ontology = refl;
  same_creation = refl;
  revised = inl refl;
}

Advances-trans : (a b c : Annotation) → Advances a b → Advances b c → Advances a c
Advances-trans a b c p q = record {
  same_id = q.same_id ∙ p.same_id;
  same_task = q.same_task ∙ p.same_task;
  same_snapshot = q.same_snapshot ∙ p.same_snapshot;
  same_asset = q.same_asset ∙ p.same_asset;
  same_frame = q.same_frame ∙ p.same_frame;
  same_ontology = q.same_ontology ∙ p.same_ontology;
  same_creation = q.same_creation ∙ p.same_creation;
  revised = elim p.revised [
    | inl e ↦ elim q.revised [ inl f ↦ inl (f ∙ e) | inr (o, f) ↦ inr (rw e at o, rw e at f) ]
    | inr (o, e) ↦ elim q.revised [ inl f ↦ inr (o, rw f e) | inr (o', f) ↦ inr (o, omega arith) ]
  ];
}

pub Evolves-refl : (r : InMemoryRepository) → Evolves r r
Evolves-refl r k a h = (a, h, Advances-refl a)

pub Evolves-trans : (r s t : InMemoryRepository) → Evolves r s → Evolves s t → Evolves r t
Evolves-trans r s t p q k a h =
    let (b, g, x) = p k a h in let (c, f, y) = q k b g in (c, f, Advances-trans a b c x y)

IsSound-mono : (n m k : ℕ) (a : Annotation) → n ≤ m → IsSound n k a → IsSound m k a
IsSound-mono n m k a le s = record {
  own_task = s.own_task;
  below = let lt = s.below in omega arith;
  revised = s.revised;
  signed = s.signed;
  unsigned = s.unsigned;
}

module _ (encode : Detail → Option Detail) where
  IsSound-clone :
      (n k : ℕ) (a : Annotation) → IsSound n k a → IsSound n k (clone_annotation encode a)
  unfolding clone_annotation
  IsSound-clone n k a s = record {
    own_task = s.own_task;
    below = s.below;
    revised = s.revised;
    signed = s.signed;
    unsigned = s.unsigned;
  }

  pub clone_id : (a : Annotation) → (clone_annotation encode a).id ≡ a.id
  unfolding clone_annotation
  clone_id a = refl

  module _ (r s : InMemoryRepository) (k : ℕ) (c : Annotation)
      (writes : s.by_task ≡ insert k (clone_annotation encode c) r.by_task)
      (grows : r.next_id ≤ s.next_id) (sound : IsSound s.next_id k c)
      (alone : (j : ℕ) (a : Annotation) → lookup j r.by_task ≡ some a → a.id ≡ c.id → j ≡ k)
      (advances : (a : Annotation)
        → lookup k r.by_task ≡ some a
        → Advances a (clone_annotation encode c)) where
    written_cases :
        (j : ℕ) (a : Annotation)
        → lookup j s.by_task ≡ some a
        → ((j ≡ k) × (a ≡ clone_annotation encode c)) ⊎ (lookup j r.by_task ≡ some a)
    written_cases j a h =
        let g : lookup j (insert k (clone_annotation encode c) r.by_task) ≡ some a =
          rw (← writes) h in
        ground (arith, lookup-insert j k (clone_annotation encode c) r.by_task)

    written_unique :
        Inv r
        → (i j : ℕ) (a b : Annotation) → lookup i s.by_task ≡ some a
        → lookup j s.by_task ≡ some b
        → a.id ≡ b.id
        → i ≡ j
    written_unique inv i j a b p q e = elim (written_cases i a p) [
      | inl (i_k, x) ↦ elim (written_cases j b q) [
        | inl (j_k, y) ↦ i_k ∙ sym j_k
        | inr old ↦ i_k ∙ sym (alone j b old (sym e ∙ rw x (clone_id c)))
      ]
      | inr old ↦ elim (written_cases j b q) [
        | inl (j_k, y) ↦ alone i a old (e ∙ rw y (clone_id c)) ∙ sym j_k
        | inr older ↦ inv.unique i j a b old older e
      ]
    ]

    pub written-After : Inv r → After r s
    written-After inv = (
      record {
        sound = λ j a h. elim (written_cases j a h) [
          | inl (e, f) ↦ rw (f, e) (IsSound-clone s.next_id k c sound)
          | inr old ↦ IsSound-mono r.next_id s.next_id j a grows (inv.sound j a old)
        ];
        unique = written_unique inv;
      },
      λ j a h. elim (Bool-cases (nat_beq k j)) [
        | inl e ↦
            let f : k ≡ j = (nat_beq_iff k j).0 e in
            (
              clone_annotation encode c,
              rw (writes, lookup-insert j k (clone_annotation encode c) r.by_task, e) refl,
              advances a (rw f h),
            )
        | inr e ↦ (
          a,
          rw (writes, lookup-insert j k (clone_annotation encode c) r.by_task, e) h,
          Advances-refl a,
        )
      ],
    )
