-- ===== src/Review/Service.antt =====
-- The Service of internal/review/service.go over the in-memory repository.
use yolo_ave_mujica.Base.{
  ℕ, ℤ, not_positive, Bool, true, false, ◌&&◌, ◌||◌, if◌then◌else◌, Text, is_empty, trim_space,
  nat_key, lookup, List, [], ◌∷◌, map, Option, none, some, ok, err, Try, value, fault, attempt,
  ◌>>=◌,
}
use yolo_ave_mujica.Review.Model.{
  PersistCandidateInput, Candidate, Error, plain, float_not_positive, normalize_candidate,
}
use yolo_ave_mujica.Review.Repository.{
  InMemoryRepository, Action, list_pending_in, accept, reject, persist_all,
}

unfoldable pub list_candidates : InMemoryRepository → List Candidate
unfolding list_pending_in normalize_candidate
list_candidates r = map normalize_candidate (list_pending_in r.candidates)

unfoldable pub accept_candidate : ℕ → Text → ℕ → Action (Unit {0})
accept_candidate id reviewer now = accept id reviewer now

unfoldable pub reject_candidate : ℕ → Text → Text → ℕ → Action (Unit {0})
unfolding trim_space
reject_candidate id reviewer reason now =
    if is_empty (trim_space reason)
    then err (plain "reason_code is required")
    else reject id reviewer (trim_space reason) now

-- The body of the loop over the items.
unfoldable pub normalize_item : PersistCandidateInput → Try Error PersistCandidateInput
unfolding trim_space float_not_positive
normalize_item i =
    if not_positive i.dataset_id || not_positive i.snapshot_id || not_positive i.item_id
    then fault (plain "dataset_id, snapshot_id, and item_id are required")
    else if not_positive i.category_id && is_empty (trim_space i.category_name)
    then fault (plain "category_id or category_name is required")
    else if float_not_positive i.bbox.w || float_not_positive i.bbox.h
    then fault (plain "bbox.w and bbox.h must be > 0")
    else value (record i {
      category_name = trim_space i.category_name;
      model_name = trim_space i.model_name;
      is_pseudo = true;
    })

unfoldable pub normalize_items : List PersistCandidateInput → Try Error (List PersistCandidateInput)
unfolding normalize_item
normalize_items [] = value []
normalize_items (i ∷ is) =
    let rest = normalize_items is in
    elim (normalize_item i) [
      | fault e ↦ fault e
      | value i' ↦ elim rest [ fault e ↦ fault e | value is' ↦ value (i' ∷ is') ]
    ]

abbrev pub no_items : List PersistCandidateInput → Bool
no_items [] = true
no_items (i ∷ is) = false

abbrev pub persist_items : ℤ → ℕ → List PersistCandidateInput → Action (List Candidate)
persist_items job now items r = let (out, r') = persist_all job now items r in ok out r'

unfoldable pub persist_candidates : ℤ → List PersistCandidateInput → ℕ → Action (List Candidate)
unfolding normalize_items
persist_candidates job items now =
    if not_positive job
    then err (plain "job_id is required")
    else if no_items items
    then err (plain "at least one candidate is required")
    else attempt (normalize_items items) >>= persist_items job now

unfoldable pub get_candidate : ℕ → InMemoryRepository → Option Candidate
unfolding normalize_candidate
get_candidate id r = elim (lookup id r.candidates) [
  | none ↦ none
  | some c ↦ some (normalize_candidate (normalize_candidate c))
]
