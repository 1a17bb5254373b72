-- ===== src/Datahub/History/Laws.antt =====
-- Any history of calls keeps what holds of the data hub's repository.
use yolo_ave_mujica.Base.{ℕ, Text, nat_key, lookup, List, [], ◌∷◌, Option, arith}
use yolo_ave_mujica.Datahub.Repository.{InMemoryRepository, new_in_memory_repository}
use yolo_ave_mujica.Datahub.Service.{ObjectScanner}
use yolo_ave_mujica.Datahub.Invariant.{Inv}
use yolo_ave_mujica.Datahub.Invariant.Calls.{
  create_dataset-Keeps, create_snapshot-Keeps, scan_dataset-Keeps,
}
use yolo_ave_mujica.Datahub.Invariant.Imports.{ensure_category-Keeps, import_snapshot-Keeps}
use yolo_ave_mujica.Datahub.History.{
  Call, creates, takes_snapshot, scans, ensures, imports, step, run,
}

new_in_memory_repository-Inv : Inv new_in_memory_repository
unfolding new_in_memory_repository lookup
new_in_memory_repository-Inv = record {
  named = λ k d h. cc;
  versioned = λ k. omega arith;
  stocked = λ k. omega arith;
}

module _ (format : ℕ → Text) (scanner : Option ObjectScanner) where
  step-Inv : (c : ℕ × Call) (r : InMemoryRepository) → Inv r → Inv (step format scanner c r)
  unfolding step
  step-Inv (now, creates i) r inv = create_dataset-Keeps i r inv
  step-Inv (now, takes_snapshot id i) r inv = create_snapshot-Keeps id i r inv
  step-Inv (now, scans id object_keys) r inv = scan_dataset-Keeps scanner id object_keys now r inv
  step-Inv (now, ensures project name) r inv = ensure_category-Keeps project name r inv
  step-Inv (now, imports id i) r inv = import_snapshot-Keeps format id i r inv

  kept : (cs : List (ℕ × Call)) (r : InMemoryRepository) → Inv r → Inv (run format scanner cs r)
  unfolding run
  kept [] r inv = inv
  kept (c ∷ cs) r inv = kept cs (step format scanner c r) (step-Inv c r inv)

  -- After any history of calls on a new repository every dataset is stored under its own id with a project,
  -- a name and a bucket; the snapshots of a dataset belong to it, have the versions v1, v2 and so on in
  -- their order and ids that rise; and its items belong to it, with ids that rise, no key empty or twice and
  -- no etag empty.
  pub run_stocked : (cs : List (ℕ × Call)) → Inv (run format scanner cs new_in_memory_repository)
  run_stocked cs = kept cs new_in_memory_repository new_in_memory_repository-Inv
