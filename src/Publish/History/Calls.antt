-- ===== src/Publish/History/Calls.antt =====
-- Each call of the publish service keeps what holds of its repository.
use yolo_ave_mujica.Base.{
  ℕ, ℤ, not_positive, to_nat, ◌≡◌, refl, ◌⊎◌, inl, inr, true, false, Text, is_empty, lit,
  trim_space, lookup, nat_key, some, Bool-cases, Option-cases, Outcome, ok, err, and_then, state_of,
}
use yolo_ave_mujica.Jobs.Value.{Detail}
use yolo_ave_mujica.Publish.Model.{Decision, Batch, ApprovalInput, Error, plain, not_found}
use yolo_ave_mujica.Publish.Feedback.{normalize_actor, normalize_decision_feedback}
use yolo_ave_mujica.Publish.Repository.{InMemoryRepository, clone_batch, find_batch}
use yolo_ave_mujica.Publish.Decisions.{apply_review_decision}
use yolo_ave_mujica.Publish.Service.{
  ServiceState, with_repo, is_closed_status, get_batch, check_review, apply_review, review_decision,
}
use yolo_ave_mujica.Publish.Invariant.{Inv, After}
use yolo_ave_mujica.Publish.Invariant.Parts.{text_or-cons}
use yolo_ave_mujica.Publish.Invariant.Writes.{Evolves-refl}
use yolo_ave_mujica.Publish.Invariant.Decided.{is_known, apply_review_decision-After}

abbrev pub Keeps : {A : Type 0} → ServiceState → Outcome Error ServiceState A → Type 0
Keeps s o = After s.repo (state_of o).repo

pub with_repo-Keeps :
    {A : Type 0} (s : ServiceState) (o : Outcome Error InMemoryRepository A)
    → After s.repo (state_of o)
    → Keeps s (with_repo s o)
with_repo-Keeps s (ok a r) h = h
with_repo-Keeps s (err e r) h = h

pub normalize_actor-cons : (t : Text) → is_empty (normalize_actor t) ≡ false
unfolding normalize_actor
normalize_actor-cons t = text_or-cons (lit "system") (trim_space t) (unfold lit in refl)

module _ (clone : Detail → Detail) where
  -- A read finds the batch, or fails and changes nothing.
  pub get_batch-cases :
      (id : ℤ) (s : ServiceState)
      → ((e : Error) × (get_batch clone id s ≡ err e s))
        ⊎ ((b : Batch) × (lookup (to_nat id) s.repo.batches ≡ some b)
            × (get_batch clone id s ≡ ok (clone_batch clone b) s))
  unfolding get_batch find_batch
  get_batch-cases id s = elim (Bool-cases (not_positive id)) [
    | inl e ↦ inl (plain "batch_id must be > 0", rw e refl)
    | inr e ↦ elim (Option-cases (lookup (to_nat id) s.repo.batches)) [
      | inl f ↦ inl (not_found, rw (e, f, with_repo, and_then) refl)
      | inr (b, f) ↦ inr (b, f, rw (e, f, with_repo, and_then) refl)
    ]
  ]

  pub clone_status : (b : Batch) → (clone_batch clone b).status ≡ b.status
  unfolding clone_batch
  clone_status b = refl

  pub review_decision-Keeps :
      (id : ℤ) (d : Decision) (i : ApprovalInput) (now : ℕ) (s : ServiceState)
      → is_known d ≡ true
      → Inv s.repo
      → Keeps s (review_decision clone id d i now s)
  unfolding review_decision check_review apply_review
  review_decision-Keeps id d i now s known inv = elim (get_batch-cases id s) [
    | inl (e, h) ↦ rw (h, and_then, state_of) (inv, Evolves-refl s.repo)
    | inr (b, at, h) ↦ elim (Bool-cases (is_closed_status b.status)) [
      | inl closed ↦ rw (h, and_then, clone_status b, closed, state_of) (inv, Evolves-refl s.repo)
      | inr opened ↦
          let actor = normalize_actor i.actor in
          let feedback = normalize_decision_feedback i.feedback actor (lit "review") in
          rw (h, and_then, clone_status b, opened)
            (with_repo-Keeps s (apply_review_decision clone (to_nat id) d actor feedback now s.repo)
              (apply_review_decision-After clone s.repo inv (to_nat id) b at d actor feedback now
                known (normalize_actor-cons i.actor) opened))
    ]
  ]
