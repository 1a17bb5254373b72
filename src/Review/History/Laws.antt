-- ===== src/Review/History/Laws.antt =====
-- What holds of the reviews after any history of calls.
use yolo_ave_mujica.Base.{
  ℕ, ℤ, not_positive, ◌≡◌, refl, inl, inr, false, nat_key, Text, is_empty, trim_space, List, [],
  ◌∷◌, some, lookup, state_of, and_then, attempt, arith, Bool-cases, Option-cases, Try-cases,
}
use yolo_ave_mujica.Review.Model.{Candidate, PersistCandidateInput}
use yolo_ave_mujica.Review.Repository.{
  InMemoryRepository, new_in_memory_repository, is_open, accept, reject,
}
use yolo_ave_mujica.Review.Service.{
  accept_candidate, reject_candidate, persist_candidates, normalize_items, no_items,
}
use yolo_ave_mujica.Review.History.{
  Call, accepts, rejects, persists, step, run, annotations_of, due, Inv, After,
}
use yolo_ave_mujica.Review.History.Steps.{
  Evolves-refl, Evolves-trans, persist_all-After, accept_open, reject_open,
}

accept-After :
    (id : ℕ) (reviewer : Text) (now : ℕ) (r : InMemoryRepository)
    → Inv r
    → After r (state_of (accept id reviewer now r))
unfolding accept
accept-After id reviewer now r inv = elim (Option-cases (lookup id r.candidates)) [
  | inl e ↦ rw (e, accept, state_of) (inv, Evolves-refl r)
  | inr (c, e) ↦ elim (Bool-cases (is_open c)) [
    | inr o ↦ rw (e, accept, o, state_of) (inv, Evolves-refl r)
    | inl o ↦ accept_open id c r inv e o reviewer now
  ]
]

reject-After :
    (id : ℕ) (reviewer reason : Text) (now : ℕ) (r : InMemoryRepository)
    → Inv r
    → After r (state_of (reject id reviewer reason now r))
unfolding reject
reject-After id reviewer reason now r inv = elim (Option-cases (lookup id r.candidates)) [
  | inl e ↦ rw (e, reject, state_of) (inv, Evolves-refl r)
  | inr (c, e) ↦ elim (Bool-cases (is_open c)) [
    | inr o ↦ rw (e, reject, o, state_of) (inv, Evolves-refl r)
    | inl o ↦ reject_open id c r inv e o reviewer reason now
  ]
]

reject_candidate-After :
    (id : ℕ) (reviewer reason : Text) (now : ℕ) (r : InMemoryRepository)
    → Inv r
    → After r (state_of (reject_candidate id reviewer reason now r))
unfolding reject_candidate
reject_candidate-After id reviewer reason now r inv =
    elim (Bool-cases (is_empty (trim_space reason))) [
      | inl e ↦ rw (e, state_of) (inv, Evolves-refl r)
      | inr e ↦ rw e (reject-After id reviewer (trim_space reason) now r inv)
    ]

persist_candidates-After :
    (job : ℤ) (items : List PersistCandidateInput) (now : ℕ) (r : InMemoryRepository)
    → Inv r
    → After r (state_of (persist_candidates job items now r))
unfolding persist_candidates
persist_candidates-After job items now r inv = elim (Bool-cases (not_positive job)) [
  | inl e ↦ rw (e, state_of) (inv, Evolves-refl r)
  | inr e ↦ elim (Bool-cases (no_items items)) [
    | inl f ↦ rw (e, f, state_of) (inv, Evolves-refl r)
    | inr f ↦ elim (Try-cases (normalize_items items)) [
      | inl (x, g) ↦ rw (e, f, g, attempt, and_then, state_of) (inv, Evolves-refl r)
      | inr (is, g) ↦ rw (e, f, g, attempt, and_then, state_of) (persist_all-After job now is r inv)
    ]
  ]
]

step-After : (c : ℕ × Call) (r : InMemoryRepository) → Inv r → After r (step c r)
unfolding step accept_candidate
step-After (now, accepts id reviewer) r inv = accept-After id reviewer now r inv
step-After (now, rejects id reviewer reason) r inv =
    reject_candidate-After id reviewer reason now r inv
step-After (now, persists job items) r inv = persist_candidates-After job items now r inv

pub run-After : (cs : List (ℕ × Call)) (r : InMemoryRepository) → Inv r → After r (run cs r)
unfolding run
run-After [] r inv = (inv, Evolves-refl r)
run-After (c ∷ cs) r inv =
    let (inv', ev) = step-After c r inv in
    let (inv'', ev') = run-After cs (step c r) inv' in
    (inv'', Evolves-trans r (step c r) (run cs (step c r)) ev ev')

pub new_in_memory_repository-Inv : Inv new_in_memory_repository
unfolding new_in_memory_repository lookup annotations_of
new_in_memory_repository-Inv = record {
  ids = λ k c h. cc;
  agrees = λ k c h. cc;
  annotated = λ k. refl;
}

-- After any history of calls on a new repository exactly one annotation was made from each candidate
-- that is accepted, and none from any other.
pub run_annotated :
    (cs : List (ℕ × Call)) (k : ℕ)
    → let r = run cs new_in_memory_repository in
      annotations_of k r.annotations ≡ due (lookup k r.candidates)
run_annotated cs k =
    (run-After cs new_in_memory_repository new_in_memory_repository-Inv).0.annotated k

-- No history of calls, from a repository in which what holds between calls holds, changes a candidate
-- that is decided.
pub run_decided :
    (cs : List (ℕ × Call)) (r : InMemoryRepository) (k : ℕ) (c : Candidate)
    → Inv r
    → lookup k r.candidates ≡ some c
    → is_open c ≡ false
    → lookup k (run cs r).candidates ≡ some c
run_decided cs r k c inv h o =
    let (d, g, same) = (run-After cs r inv).1 k c h in ground (arith, same o, g)
