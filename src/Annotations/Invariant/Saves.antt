-- ===== src/Annotations/Invariant/Saves.antt =====
-- SaveDraft and Submit of internal/annotations/in_memory_repository.go keep what holds of the annotations.
use yolo_ave_mujica.Base.{
  ℕ, suc, to_nat, ◌≡◌, refl, ◌∙◌, inl, inr, false, not, ◌||◌, Text, is_empty, nat_key, lookup,
  insert, none, some, Option, arith, Bool-cases, Option-cases, state_of,
}
use yolo_ave_mujica.Jobs.Value.{Detail}
use yolo_ave_mujica.Annotations.Model.{Annotation, SaveDraftInput}
use yolo_ave_mujica.Annotations.Repository.{
  TaskContext, InMemoryRepository, clone_annotation, is_submitted, is_stale, same_context,
  same_task_context, new_draft, redrafted, handed_in, save_first, save_next, write_draft, hand_in,
}
use yolo_ave_mujica.Annotations.Invariant.{IsSound, Inv, Advances, After}
use yolo_ave_mujica.Annotations.Invariant.Writes.{Evolves-refl, written-After}

module _ (encode : Detail → Option Detail) (r : InMemoryRepository) (inv : Inv r) where
  -- A draft or a submission of an annotation that is a draft.
  revision-Advances :
      (a c : Annotation)
      → is_submitted a.state ≡ false
      → c.revision ≡ suc a.revision
      → (c.id ≡ a.id)
        × (c.task_id ≡ a.task_id)
        × (c.snapshot_id ≡ a.snapshot_id)
        × (c.asset_object_key ≡ a.asset_object_key)
        × (c.frame_index ≡ a.frame_index)
        × (c.ontology_version ≡ a.ontology_version)
        × (c.created_at ≡ a.created_at)
      → Advances a (clone_annotation encode c)
  unfolding clone_annotation
  revision-Advances a c open_state next (i, t, s, k, f, o, w) = record {
    same_id = i;
    same_task = t;
    same_snapshot = s;
    same_asset = k;
    same_frame = f;
    same_ontology = o;
    same_creation = w;
    revised = inr (open_state, omega arith);
  }

  revise-After :
      (k : ℕ) (a c : Annotation)
      → lookup k r.by_task ≡ some a
      → is_submitted a.state ≡ false
      → c.revision ≡ suc a.revision
      → (c.id ≡ a.id)
        × (c.task_id ≡ a.task_id)
        × (c.snapshot_id ≡ a.snapshot_id)
        × (c.asset_object_key ≡ a.asset_object_key)
        × (c.frame_index ≡ a.frame_index)
        × (c.ontology_version ≡ a.ontology_version)
        × (c.created_at ≡ a.created_at)
      → IsSound r.next_id k c
      → After r (record r { by_task = insert k (clone_annotation encode c) r.by_task })
  revise-After k a c at open_state next same sound =
      written-After encode r (record r { by_task = insert k (clone_annotation encode c) r.by_task })
        k c refl (omega arith) sound (λ j b h e. inv.unique j k b a h at (e ∙ same.0))
        (λ b h.
          let f : some b ≡ some a = rw h at at in
          let g : b ≡ a = cc in rw g (revision-Advances a c open_state next same))
        inv

  save_first-After :
      (c : TaskContext) (body : Detail) (i : SaveDraftInput) (now : ℕ)
      → lookup (to_nat i.task_id) r.by_task ≡ none
      → After r (state_of (save_first encode c body i now r))
  unfolding save_first new_draft is_submitted
  save_first-After c body i now free = elim (Bool-cases (same_task_context c i)) [
    | inr e ↦ rw (e, save_first, state_of) (inv, Evolves-refl r)
    | inl e ↦
        let a = new_draft r.next_id i body now in
        rw (e, save_first, state_of)
          (written-After encode r
            (record r {
              next_id = suc r.next_id;
              by_task = insert (to_nat i.task_id) (clone_annotation encode a) r.by_task;
            })
            (to_nat i.task_id) a refl (omega arith)
            (record {
              own_task = refl;
              below = omega arith;
              revised = omega arith;
              signed = λ h. cc;
              unsigned = λ h. (refl, refl);
            })
            (λ j b h same.
              let lt = (inv.sound j b h).below in
              let same' : b.id ≡ r.next_id = same in absurd (omega arith))
            (λ b h. let f : none ≡ some b = rw free at h in cc) inv)
  ]

  save_next-After :
      (a : Annotation) (c : TaskContext) (body : Detail) (i : SaveDraftInput) (now : ℕ)
      → lookup (to_nat i.task_id) r.by_task ≡ some a
      → After r (state_of (save_next encode a c body i now r))
  unfolding save_next redrafted is_submitted
  save_next-After a c body i now at = elim (Bool-cases (is_stale i.base_revision a)) [
    | inl stale ↦ rw (stale, save_next, state_of) (inv, Evolves-refl r)
    | inr fresh ↦ elim (Bool-cases (is_submitted a.state)) [
      | inl done ↦ rw (fresh, done, save_next, state_of) (inv, Evolves-refl r)
      | inr open_state ↦ elim (Bool-cases (not (same_context a i) || not (same_task_context c i))) [
        | inl other ↦ rw (fresh, open_state, other, save_next, state_of) (inv, Evolves-refl r)
        | inr same ↦
            let old = inv.sound (to_nat i.task_id) a at in
            rw (fresh, open_state, same, save_next, state_of)
              (revise-After (to_nat i.task_id) a (redrafted body now a) at open_state refl
                (refl, refl, refl, refl, refl, refl, refl)
                (record {
                  own_task = old.own_task;
                  below = old.below;
                  revised = omega arith;
                  signed = λ h. cc;
                  unsigned = λ h. (refl, refl);
                }))
      ]
    ]
  ]

  pub write_draft-After :
      (i : SaveDraftInput) (now : ℕ) → After r (state_of (write_draft encode i now r))
  unfolding write_draft
  write_draft-After i now = elim (Option-cases (lookup (to_nat i.task_id) r.contexts)) [
    | inl e ↦ rw (e, write_draft, state_of) (inv, Evolves-refl r)
    | inr (c, e) ↦ elim (Option-cases (encode i.body)) [
      | inl f ↦ rw (e, f, write_draft, state_of) (inv, Evolves-refl r)
      | inr (body, f) ↦ elim (Option-cases (lookup (to_nat i.task_id) r.by_task)) [
        | inl g ↦ rw (e, f, g, write_draft) (save_first-After c body i now g)
        | inr (a, g) ↦ rw (e, f, g, write_draft) (save_next-After a c body i now g)
      ]
    ]
  ]

  pub hand_in-After :
      (k : ℕ) (actor : Text) (now : ℕ)
      → is_empty actor ≡ false
      → After r (state_of (hand_in encode k actor now r))
  unfolding hand_in handed_in is_submitted
  hand_in-After k actor now named = elim (Option-cases (lookup k r.by_task)) [
    | inl e ↦ rw (e, hand_in, state_of) (inv, Evolves-refl r)
    | inr (a, e) ↦ elim (Bool-cases (is_submitted a.state)) [
      | inl done ↦ rw (e, done, hand_in, state_of) (inv, Evolves-refl r)
      | inr open_state ↦
          let old = inv.sound k a e in
          rw (e, open_state, hand_in, state_of)
            (revise-After k a (handed_in actor now a) e open_state refl
              (refl, refl, refl, refl, refl, refl, refl)
              (record {
                own_task = old.own_task;
                below = old.below;
                revised = omega arith;
                signed = λ h. (named, refl);
                unsigned = λ h. cc;
              }))
    ]
  ]
