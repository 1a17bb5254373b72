-- ===== src/Publish/History/Laws.antt =====
-- Any history of calls of the publish service keeps what holds of its repository.
use yolo_ave_mujica.Base.{ℕ, ◌≡◌, refl, List, [], ◌∷◌, Option, lookup, nat_key, some}
use yolo_ave_mujica.Jobs.Value.{Detail}
use yolo_ave_mujica.Tasks.Repository
use yolo_ave_mujica.Publish.Model.{Batch, approve, reject, rework}
use yolo_ave_mujica.Publish.Repository.{new_in_memory_repository}
use yolo_ave_mujica.Publish.Service.{
  ServiceState, TaskCreator, review_approve, review_reject, review_rework, owner_reject,
  owner_rework,
}
use yolo_ave_mujica.Publish.Invariant.{records_of, due, Good, Kept, Advances, Inv, Preserves, After}
use yolo_ave_mujica.Publish.Invariant.Writes.{Preserves-refl, Preserves-cons}
use yolo_ave_mujica.Publish.History.{
  Call, creates, replaces, review_approves, review_rejects, review_reworks, owner_approves,
  owner_rejects, owner_reworks, comments, comments_item, step, run,
}
use yolo_ave_mujica.Publish.History.Calls.{review_decision-Keeps}
use yolo_ave_mujica.Publish.History.Edits.{
  create_batch-Keeps, replace_batch_items-Keeps, add_batch_feedback-Keeps, add_item_feedback-Keeps,
}
use yolo_ave_mujica.Publish.History.Owners.{owner_decision-Keeps, owner_approve-Keeps}

pub new_in_memory_repository-Inv : Inv new_in_memory_repository
unfolding new_in_memory_repository lookup records_of
new_in_memory_repository-Inv = record {
  good = λ k b h. cc;
  below = λ k b h. cc;
  recorded = λ k. refl;
  record_below = λ n x h. cc;
}

module _ (clone : Detail → Detail) (creator : Option TaskCreator) where
  step-After :
      (c : ℕ × Call) (s : ServiceState) → Inv s.repo → After s.repo (step clone creator c s).repo
  unfolding step review_approve review_reject review_rework owner_reject owner_rework
  step-After (now, creates i) s = create_batch-Keeps clone i now s
  step-After (now, replaces id i) s = replace_batch_items-Keeps clone id i now s
  step-After (now, review_approves id i) s = review_decision-Keeps clone id approve i now s refl
  step-After (now, review_rejects id i) s = review_decision-Keeps clone id reject i now s refl
  step-After (now, review_reworks id i) s = review_decision-Keeps clone id rework i now s refl
  step-After (now, owner_approves id i) s = owner_approve-Keeps clone creator id i now s
  step-After (now, owner_rejects id i) s = owner_decision-Keeps clone id reject i now s refl
  step-After (now, owner_reworks id i) s = owner_decision-Keeps clone id rework i now s refl
  step-After (now, comments id i) s = add_batch_feedback-Keeps clone id i now s
  step-After (now, comments_item id item i) s = add_item_feedback-Keeps clone id item i now s

  pub run-After :
      (cs : List (ℕ × Call)) (s : ServiceState)
      → Inv s.repo
      → Inv (run clone creator cs s).repo × Preserves s.repo (run clone creator cs s).repo
  unfolding run
  run-After [] s inv = (inv, Preserves-refl s.repo)
  run-After (c ∷ cs) s inv =
      let now = step-After c s inv in
      let later = run-After cs (step clone creator c s) now.0 in
      (
        later.0,
        Preserves-cons s.repo (step clone creator c s).repo (run clone creator (c ∷ cs) s).repo
            now.1 later.1,
      )

  -- After any history of calls on a new repository, with or without a task service, there is exactly one
  -- record of each published batch and none of any other.
  pub run_records :
      (cs : List (ℕ × Call)) (tasks : Repository.InMemoryRepository) (k : ℕ)
      → let r =
          (run clone creator cs (record { repo = new_in_memory_repository; tasks = tasks })).repo in
        records_of k r.records ≡ due (lookup k r.batches)
  run_records cs tasks k =
      let s : ServiceState = record { repo = new_in_memory_repository; tasks = tasks } in
      (run-After cs s new_in_memory_repository-Inv).0.recorded k

  -- After any history of calls on a new repository every batch is stored under its own id with a project
  -- and a snapshot, an approved or published batch names its reviewer, a published batch its owner, its
  -- items belong to it and its snapshot and are numbered from 0 with rising ids, and its feedback belongs
  -- to it, is complete and has rising ids.
  pub run-Good :
      (cs : List (ℕ × Call)) (tasks : Repository.InMemoryRepository) (k : ℕ) (b : Batch)
      → let r =
          (run clone creator cs (record { repo = new_in_memory_repository; tasks = tasks })).repo in
        lookup k r.batches ≡ some b → Good r.next_item r.next_feed k b
  run-Good cs tasks k b at =
      let s : ServiceState = record { repo = new_in_memory_repository; tasks = tasks } in
      (run-After cs s new_in_memory_repository-Inv).0.good k b at

  -- Over any history of calls from a repository as calls leave it, a batch stays under its id and keeps it,
  -- its project, snapshot, source and time of creation; its owner's edits are only counted up; and once it is
  -- published, rejected or superseded it keeps its status, its reviewer and its owner. Each further call keeps
  -- all that too, and leaves its status, or moves it along one decision: from a status that is not closed to
  -- approved by review, returned or rejected, and to published only from one in which the owner may decide.
  pub run_follows :
      (cs : List (ℕ × Call)) (call : ℕ × Call) (s : ServiceState) (k : ℕ) (b : Batch)
      → Inv s.repo
      → lookup k s.repo.batches ≡ some b
      → let t = run clone creator cs s in
        (c : Batch) × (lookup k t.repo.batches ≡ some c)
        × Kept b c
        × ((d : Batch) × (lookup k (step clone creator call t).repo.batches ≡ some d)
            × Advances c d)
  run_follows cs call s k b inv at =
      let t = run clone creator cs s in
      let (inv', kept) = run-After cs s inv in
      let (c, found, same) = kept k b at in (c, found, same, (step-After call t inv').1 k c found)
