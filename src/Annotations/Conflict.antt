-- ===== src/Annotations/Conflict.antt =====
-- The revisions of SaveDraft (internal/annotations/service.go and in_memory_repository.go) keep one
-- annotator from overwriting the work of another.
use yolo_ave_mujica.Base.{
  ℕ, ℤ, pos, to_nat, nat_beq, nat_beq_iff, ◌≡◌, ◌≢◌, refl, inl, inr, true, false, nat_key, lookup,
  List, Option, some, arith, Option-cases, err, and_then, ◌<◌, ◌≤◌,
}
use yolo_ave_mujica.Jobs.Value.{Detail}
use yolo_ave_mujica.Annotations.Model.{
  Annotation, SaveDraftInput, Error, not_found, conflict, plain,
}
use yolo_ave_mujica.Annotations.Repository.{InMemoryRepository, is_stale, save_next, write_draft}
use yolo_ave_mujica.Annotations.Service.{
  TaskService, ServiceState, normalize_draft, draft_problem, save_draft,
}
use yolo_ave_mujica.Annotations.Invariant.{Inv}
use yolo_ave_mujica.Annotations.History.{Call, run}
use yolo_ave_mujica.Annotations.History.Laws.{run-After}

stale :
    (base : ℤ) (a : Annotation) (n : ℕ)
    → base ≡ pos n
    → 1 ≤ n
    → n < a.revision
    → is_stale base a ≡ true
unfolding is_stale
stale base a n e low high =
    let f : nat_beq a.revision n ≡ false = ground (arith, nat_beq_iff a.revision n) in
    let g : nat_beq n 0 ≡ false = ground (arith, nat_beq_iff n 0) in rw (e, f, g) refl

module _ (encode : Detail → Option Detail) where
  write_draft-stale :
      (i : SaveDraftInput) (now : ℕ) (r : InMemoryRepository) (a : Annotation)
      → lookup (to_nat i.task_id) r.by_task ≡ some a
      → is_stale i.base_revision a ≡ true
      → (e : Error) × (write_draft encode i now r ≡ err e r)
  unfolding write_draft save_next
  write_draft-stale i now r a at old = elim (Option-cases (lookup (to_nat i.task_id) r.contexts)) [
    | inl e ↦ (not_found, rw (e, write_draft) refl)
    | inr (c, e) ↦ elim (Option-cases (encode i.body)) [
      | inl f ↦ (plain "encode body_json", rw (e, f, write_draft) refl)
      | inr (body, f) ↦ (conflict "revision mismatch", rw (e, f, at, write_draft, old) refl)
    ]
  ]

  -- If an annotation is no longer what it was at some point of a history, any SaveDraft that builds on its
  -- revision at that point fails and changes nothing.
  pub no_lost_update :
      (tasks : Option TaskService) (cs : List (ℕ × Call)) (s : ServiceState) (k : ℕ)
      (a b : Annotation)
      → Inv s.repo
      → lookup k s.repo.by_task ≡ some a
      → lookup k (run encode tasks cs s).repo.by_task ≡ some b
      → b ≢ a
      → (i : SaveDraftInput) (now : ℕ) → to_nat i.task_id ≡ k
      → i.base_revision ≡ pos a.revision
      → let t = run encode tasks cs s in (e : Error) × (save_draft encode i now t ≡ err e t)
  unfolding save_draft normalize_draft
  no_lost_update tasks cs s k a b inv at found changed i now mine base =
      let t = run encode tasks cs s in
      let (c, found', later) = (run-After encode tasks cs s inv).1 k a at in
      let same : c ≡ b = cc in
      let higher : a.revision < b.revision = elim later.revised [
        | inl e ↦ absurd (changed (rw same at e))
        | inr (o, lt) ↦ rw same at lt
      ] in
      let old : is_stale i.base_revision b ≡ true =
        stale i.base_revision b a.revision base (inv.sound k a at).revised higher in
      elim (Option-cases (draft_problem i)) [
        | inr (e, bad) ↦ (e, rw (bad, and_then) refl)
        | inl fine ↦
            let (e, refused) =
              write_draft-stale (normalize_draft i) now t.repo b (rw mine found) old in
            (e, rw (fine, and_then, refused) refl)
      ]
