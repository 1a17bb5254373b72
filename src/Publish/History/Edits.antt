-- ===== src/Publish/History/Edits.antt =====
-- Creating a batch, replacing its items and adding feedback keep what holds of the repository.
use yolo_ave_mujica.Base.{
  ℕ, ℤ, not_positive, to_nat, ◌≡◌, refl, inl, inr, true, false, lit, lookup, nat_key, List, [], ◌∷◌,
  none, some, Option, arith, Bool-cases, Option-cases, and_then, state_of,
}
use yolo_ave_mujica.Jobs.Value.{Detail}
use yolo_ave_mujica.Publish.Model.{
  Status, Batch, CreateBatchInput, ReplaceBatchItemsInput, CreateFeedbackInput,
  CreateBatchItemInput,
}
use yolo_ave_mujica.Publish.Feedback.{normalize_actor, text_or, new_feedback}
use yolo_ave_mujica.Publish.Repository.{
  InMemoryRepository, clone_batch, insert_batch, replace_items,
}
use yolo_ave_mujica.Publish.Decisions.{
  with_feedback, insert_batch_feedback, insert_item_feedback, has_item,
}
use yolo_ave_mujica.Publish.Service.{
  ServiceState, with_repo, create_batch_problem, validate_items, validate_all, normalize_source,
  is_valid_source, is_editable_status, is_closed_status, create_batch, replace_batch_items,
  add_batch_feedback, add_item_feedback,
}
use yolo_ave_mujica.Publish.Invariant.{Inv, After}
use yolo_ave_mujica.Publish.Invariant.Parts.{new_feedback-IsComplete}
use yolo_ave_mujica.Publish.Invariant.Writes.{Evolves-refl}
use yolo_ave_mujica.Publish.Invariant.Bodies.{insert_batch-After, replace_items-After}
use yolo_ave_mujica.Publish.Invariant.Decided.{add_feedback-After}
use yolo_ave_mujica.Publish.History.Calls.{Keeps, with_repo-Keeps, get_batch-cases}

-- What an accepted input promises.
create_batch_problem-none :
    (i : CreateBatchInput)
    → create_batch_problem i ≡ none
    → (not_positive i.project_id ≡ false)
      × (not_positive i.snapshot_id ≡ false)
      × (validate_items i.snapshot_id i.items ≡ none)
unfolding create_batch_problem
create_batch_problem-none i h = elim (Bool-cases (not_positive i.project_id)) [
  | inl p ↦ let e = rw p at h in cc
  | inr p ↦ elim (Bool-cases (not_positive i.snapshot_id)) [
    | inl q ↦ let e = rw (p, q) at h in cc
    | inr q ↦ elim (Bool-cases (is_valid_source (normalize_source i.source))) [
      | inl v ↦ (p, q, rw (p, q, v) at h)
      | inr v ↦ let e = rw (p, q, v) at h in cc
    ]
  ]
]

validate_items-all :
    (snapshot : ℤ) (is : List CreateBatchItemInput)
    → validate_items snapshot is ≡ none
    → validate_all snapshot is ≡ none
unfolding validate_items
validate_items-all snapshot [] h = cc
validate_items-all snapshot (i ∷ is) h = h

editable_open : (s : Status) → is_editable_status s ≡ true → is_closed_status s ≡ false
unfolding is_editable_status is_closed_status
editable_open s h = ground arith

module _ (clone : Detail → Detail) where
  pub create_batch-Keeps :
      (i : CreateBatchInput) (now : ℕ) (s : ServiceState)
      → Inv s.repo
      → Keeps s (create_batch clone i now s)
  unfolding create_batch
  create_batch-Keeps i now s inv = elim (Option-cases (create_batch_problem i)) [
    | inl fine ↦
        let (p, q, v) = create_batch_problem-none i fine in
        let j : CreateBatchInput = record i { source = normalize_source i.source } in
        rw (fine, and_then)
          (with_repo-Keeps s (insert_batch clone j now s.repo) (
            insert_batch-After clone j now s.repo inv p q
              (validate_items-all i.snapshot_id i.items v)))
    | inr (e, bad) ↦ rw (bad, and_then, state_of) (inv, Evolves-refl s.repo)
  ]

  pub replace_batch_items-Keeps :
      (id : ℤ) (i : ReplaceBatchItemsInput) (now : ℕ) (s : ServiceState)
      → Inv s.repo
      → Keeps s (replace_batch_items clone id i now s)
  unfolding replace_batch_items clone_batch
  replace_batch_items-Keeps id i now s inv = elim (get_batch-cases clone id s) [
    | inl (e, h) ↦ rw (h, and_then, state_of) (inv, Evolves-refl s.repo)
    | inr (b, at, h) ↦ elim (Bool-cases (is_editable_status b.status)) [
      | inr closed ↦ rw (h, and_then, closed, state_of) (inv, Evolves-refl s.repo)
      | inl opened ↦ elim (Option-cases (validate_items b.snapshot_id i.items)) [
        | inr (e, bad) ↦ rw (h, and_then, opened, bad, state_of) (inv, Evolves-refl s.repo)
        | inl fine ↦
            let j : ReplaceBatchItemsInput = record i { actor = normalize_actor i.actor } in
            rw (h, and_then, opened, fine)
              (with_repo-Keeps s (replace_items clone (to_nat id) j now s.repo) (
                replace_items-After clone s.repo inv (to_nat id) b at j now
                  (editable_open b.status opened) (validate_items-all b.snapshot_id i.items fine)))
      ]
    ]
  ]

  with_feedback-After :
      (r : InMemoryRepository) (k : ℕ) (b : Batch) (item : Option ℕ) (i : CreateFeedbackInput)
      (now : ℕ)
      → Inv r
      → lookup k r.batches ≡ some b
      → After r (state_of (with_feedback clone k b item i now r))
  unfolding new_feedback
  with_feedback-After r k b item i now inv at =
      add_feedback-After clone r inv k b at (new_feedback r.next_feed k item i now)
        (refl, new_feedback-IsComplete r.next_feed k item i now, omega arith, omega arith)

  pub add_batch_feedback-Keeps :
      (id : ℤ) (i : CreateFeedbackInput) (now : ℕ) (s : ServiceState)
      → Inv s.repo
      → Keeps s (add_batch_feedback clone id i now s)
  unfolding add_batch_feedback insert_batch_feedback
  add_batch_feedback-Keeps id i now s inv = elim (Bool-cases (not_positive id)) [
    | inl e ↦ rw (e, and_then, state_of) (inv, Evolves-refl s.repo)
    | inr e ↦ elim (Option-cases (lookup (to_nat id) s.repo.batches)) [
      | inl f ↦ rw (e, and_then, f, with_repo, state_of) (inv, Evolves-refl s.repo)
      | inr (b, f) ↦
          rw (e, and_then, f, with_repo, state_of)
            (with_feedback-After s.repo (to_nat id) b none
              (record i { actor = normalize_actor i.actor }) now inv f)
    ]
  ]

  pub add_item_feedback-Keeps :
      (id item : ℤ) (i : CreateFeedbackInput) (now : ℕ) (s : ServiceState)
      → Inv s.repo
      → Keeps s (add_item_feedback clone id item i now s)
  unfolding add_item_feedback insert_item_feedback
  add_item_feedback-Keeps id item i now s inv = elim (Bool-cases (not_positive id)) [
    | inl e ↦ rw (e, and_then, state_of) (inv, Evolves-refl s.repo)
    | inr e ↦ elim (Bool-cases (not_positive item)) [
      | inl p ↦ rw (e, p, and_then, state_of) (inv, Evolves-refl s.repo)
      | inr p ↦ elim (Option-cases (lookup (to_nat id) s.repo.batches)) [
        | inl f ↦ rw (e, p, and_then, f, with_repo, state_of) (inv, Evolves-refl s.repo)
        | inr (b, f) ↦ elim (Bool-cases (has_item (to_nat item) b.items)) [
          | inr q ↦ rw (e, p, and_then, f, q, with_repo, state_of) (inv, Evolves-refl s.repo)
          | inl q ↦
              rw (e, p, and_then, f, q, with_repo, state_of)
                (with_feedback-After s.repo (to_nat id) b (some (to_nat item))
                  (record i {
                    actor = normalize_actor i.actor;
                    scope = text_or (lit "item") i.scope;
                  })
                  now inv f)
        ]
      ]
    ]
  ]
