-- ===== src/Review/Tests.antt =====
-- The review theorems at concrete inputs, and runs of the review service.
use yolo_ave_mujica.Base.{
  ℕ, pos, ◌≡◌, refl, true, false, lit, text_beq, is_space, lookup, insert, nat_key, List, [], ◌∷◌,
  none, some,
}
use yolo_ave_mujica.Review.Model.{Candidate, PersistCandidateInput}
use yolo_ave_mujica.Review.Repository.{
  InMemoryRepository, new_in_memory_repository, is_open, accept, decided, persist_all,
  new_candidate,
}
use yolo_ave_mujica.Review.Service.{accept_candidate, persist_candidates, normalize_items}
use yolo_ave_mujica.Review.History.{
  Call, accepts, rejects, persists, step, run, annotations_of, due,
}
use yolo_ave_mujica.Review.History.Laws.{
  run-After, new_in_memory_repository-Inv, run_annotated, run_decided,
}

-- The bits of the float64 1.0.
abbrev one : ℕ
one = 0x3ff0000000000000

abbrev car : PersistCandidateInput
car = record {
  dataset_id = pos 1;
  snapshot_id = pos 2;
  item_id = pos 3;
  object_key = lit "a.png";
  category_id = pos 4;
  category_name = [];
  bbox = record { x = 0; y = 0; w = one; h = one };
  confidence = none;
  model_name = lit "m";
  is_pseudo = false;
}

abbrev reviews : List (ℕ × Call)
reviews = (5, persists (pos 9) (car ∷ car ∷ [])) ∷ (6, accepts 1 (lit "kim")) ∷ []

abbrev more : List (ℕ × Call)
more = (7, rejects 1 (lit "lee") (lit "blurred")) ∷ (8, rejects 2 (lit "lee") (lit "blurred")) ∷ []

abbrev reviewed : InMemoryRepository
reviewed = run reviews new_in_memory_repository

abbrev accepted : Candidate
accepted =
    decided (lit "accepted") (lit "kim") 6
      (new_candidate 1 (pos 9) (record car { is_pseudo = true }) 5)

accepted_stored : lookup 1 reviewed.candidates ≡ some accepted
unfolding run step persist_candidates normalize_items persist_all accept_candidate accept lookup
    insert new_in_memory_repository lit text_beq is_space
accepted_stored = refl

accepted_closed : is_open accepted ≡ false
unfolding is_open decided lit text_beq
accepted_closed = refl

run_annotated_example : annotations_of 1 reviewed.annotations ≡ due (lookup 1 reviewed.candidates)
run_annotated_example = run_annotated reviews 1

run_decided_example : lookup 1 (run more reviewed).candidates ≡ some accepted
run_decided_example =
    run_decided more reviewed 1 accepted
      (run-After reviews new_in_memory_repository new_in_memory_repository-Inv).0 accepted_stored
      accepted_closed
