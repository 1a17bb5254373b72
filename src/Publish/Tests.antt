-- ===== src/Publish/Tests.antt =====
-- The publish theorems at concrete inputs, and runs of the publish service.
use yolo_ave_mujica.Base.{
  ℕ, pos, ◌≡◌, refl, true, lit, text_beq, trim_space, lookup, insert, nat_key, text_key, List, [],
  ◌∷◌, none, some, ok, err,
}
use yolo_ave_mujica.Jobs.Value.{Detail}
use yolo_ave_mujica.Tasks.Model
use yolo_ave_mujica.Tasks.Repository
use yolo_ave_mujica.Tasks.Service
use yolo_ave_mujica.Tasks.Validity.{IsValid}
use yolo_ave_mujica.Publish.Model.{
  Batch, Record, review_approved, CreateBatchInput, CreateBatchItemInput, ApprovalInput, plain,
  task,
}
use yolo_ave_mujica.Publish.Feedback.{normalize_actor, normalize_feedback}
use yolo_ave_mujica.Publish.Repository.{new_in_memory_repository, clone_batch, insert_batch}
use yolo_ave_mujica.Publish.Decisions.{apply_review_decision}
use yolo_ave_mujica.Publish.Service.{
  ServiceState, TaskCreator, is_ready_for_owner, evaluation_task, owner_approve, create_batch,
  review_approve,
}
use yolo_ave_mujica.Publish.Invariant.{Inv, Good, records_of, due, Kept, Advances}
use yolo_ave_mujica.Publish.Approval.{
  approved_batch, approved_record, approved_state, started_task, started_state,
}
use yolo_ave_mujica.Publish.Published.{owner_approve_lem, owner_approve_fails}
use yolo_ave_mujica.Publish.Overlap.{overlapping, overlapping_lem}
use yolo_ave_mujica.Publish.History.{Call, creates, review_approves, owner_approves, step, run}
use yolo_ave_mujica.Publish.History.Laws.{
  run-After, run_records, run-Good, run_follows, new_in_memory_repository-Inv,
}

-- A payload that JSON keeps as it is.
abbrev kept : Detail → Detail
kept d = d

abbrev candidate : CreateBatchItemInput
candidate = record {
  candidate_id = pos 5;
  task_id = pos 6;
  dataset_id = pos 7;
  snapshot_id = pos 3;
  item_payload = [];
}

abbrev batch_of_one : CreateBatchInput
batch_of_one = record {
  project_id = pos 1;
  snapshot_id = pos 3;
  source = lit "Suggested";
  rule_summary = [];
  items = candidate ∷ [];
}

abbrev by_kim : ApprovalInput
by_kim = record {
  actor = lit "kim";
  feedback =
      record {
        scope = [];
        stage = [];
        action = [];
        reason_code = [];
        severity = [];
        influence_weight = 0;
        comment = lit "fine";
        actor = [];
      }
      ∷ [];
}

abbrev service : TaskCreator
service = Service.create_task

abbrev no_tasks : Repository.InMemoryRepository
no_tasks = Repository.new_in_memory_repository

abbrev start : ServiceState
start = record { repo = new_in_memory_repository; tasks = no_tasks }

abbrev reviewing : List (ℕ × Call)
reviewing = (4, creates batch_of_one) ∷ (5, review_approves (pos 1) by_kim) ∷ []

abbrev publishing : List (ℕ × Call)
publishing =
    (4, creates batch_of_one)
    ∷ (5, review_approves (pos 1) by_kim)
    ∷ (6, owner_approves (pos 1) by_kim)
    ∷ []

-- The service with a batch that waits for its owner.
abbrev waiting : ServiceState
waiting = run kept (some service) reviewing start

waiting-Inv : Inv waiting.repo
waiting-Inv = (run-After kept (some service) reviewing start new_in_memory_repository-Inv).0

abbrev waiting_batch : Batch
waiting_batch = record {
  id = 1;
  project_id = pos 1;
  snapshot_id = pos 3;
  source = lit "suggested";
  status = review_approved;
  rule_summary = [];
  owner_edit_version = 0;
  review_approved_at = some 5;
  review_approved_by = lit "kim";
  owner_decided_at = none;
  owner_decided_by = [];
  items =
      record {
        id = 1;
        publish_batch_id = 1;
        candidate_id = pos 5;
        task_id = pos 6;
        dataset_id = pos 7;
        snapshot_id = pos 3;
        item_payload = [];
        position = 0;
        created_at = 4;
        updated_at = 4;
      }
      ∷ [];
  feedback =
      record {
        id = 1;
        publish_batch_id = 1;
        publish_batch_item_id = 0;
        scope = lit "batch";
        stage = lit "review";
        action = lit "comment";
        reason_code = lit "unspecified";
        severity = lit "medium";
        influence_weight = 0x3ff0000000000000;
        comment = lit "fine";
        created_by = lit "kim";
        created_at = 5;
      }
      ∷ [];
  created_at = 4;
  updated_at = 5;
}

waits : lookup 1 waiting.repo.batches ≡ some waiting_batch
unfolding run step create_batch review_approve new_in_memory_repository lookup insert lit text_beq
    insert_batch apply_review_decision normalize_actor normalize_feedback clone_batch trim_space
waits = refl

ready : is_ready_for_owner waiting_batch.status ≡ true
unfolding is_ready_for_owner
ready = refl

run_records_example :
    let r = (run kept (some service) publishing start).repo in
    records_of 1 r.records ≡ due (lookup 1 r.batches)
run_records_example = run_records kept (some service) publishing no_tasks 1

run-Good_example : Good waiting.repo.next_item waiting.repo.next_feed 1 waiting_batch
run-Good_example = run-Good kept (some service) reviewing no_tasks 1 waiting_batch waits

abbrev approving : List (ℕ × Call)
approving = (6, owner_approves (pos 1) by_kim) ∷ (7, review_approves (pos 1) by_kim) ∷ []

abbrev reviewing_again : List (ℕ × Call)
reviewing_again = (6, review_approves (pos 1) by_kim) ∷ []

run_follows_example :
    let t = run kept (some service) reviewing_again waiting in
    (c : Batch) × (lookup 1 t.repo.batches ≡ some c)
    × Kept waiting_batch c
    × ((d : Batch) × (lookup 1
            (step kept (some service) (7, owner_approves (pos 1) by_kim) t).repo.batches
          ≡ some d)
        × Advances c d)
run_follows_example =
    run_follows kept (some service) reviewing_again (7, owner_approves (pos 1) by_kim) waiting 1
      waiting_batch waiting-Inv waits

owner_approve_lem_example :
    let x = approved_record kept (pos 1) by_kim 6 waiting.repo waiting_batch in
    let new_task = started_task kept (pos 1) by_kim 6 waiting waiting_batch in
    let t = started_state kept (pos 1) by_kim 6 waiting waiting_batch in
    (owner_approve kept (some Service.create_task) (pos 1) by_kim 6 waiting ≡ ok (some x) t)
    × (lookup 1 t.repo.batches
        ≡ some (clone_batch kept (approved_batch kept (pos 1) by_kim 6 waiting.repo waiting_batch)))
    × (records_of 1 t.repo.records ≡ 1)
    × IsValid (Service.normalize_task (evaluation_task (clone_batch kept waiting_batch) x) 6)
    × (new_task.kind ≡ Model.training_candidate)
    × (new_task.status ≡ Model.queued)
    × (new_task.snapshot_id ≡ some (pos 3))
owner_approve_lem_example =
    owner_approve_lem kept (pos 1) refl waiting waiting-Inv waiting_batch waits ready by_kim 6

-- A task service that is out of order.
abbrev broken : TaskCreator
broken i now ts = err Model.not_found ts

owner_approve_fails_example :
    let t : ServiceState = record {
      repo = approved_state kept (pos 1) by_kim 6 waiting.repo waiting_batch;
      tasks = waiting.tasks;
    } in
    (owner_approve kept (some broken) (pos 1) by_kim 6 waiting ≡ err (task Model.not_found) t)
    × (lookup 1 t.repo.batches
        ≡ some (clone_batch kept (approved_batch kept (pos 1) by_kim 6 waiting.repo waiting_batch)))
    × (records_of 1 t.repo.records ≡ 1)
    × (records_of 1 (run kept (some service) approving t).repo.records ≡ 1)
    × (owner_approve kept (some service) (pos 1) by_kim 7 (run kept (some service) approving t)
        ≡ err (plain "batch is not ready for owner approval") (run kept (some service) approving t))
owner_approve_fails_example =
    owner_approve_fails kept (pos 1) refl waiting waiting-Inv waiting_batch waits ready by_kim 6
      broken Model.not_found waiting.tasks refl (some service) approving by_kim 7

overlapping_lem_example :
    (x y : Record) × (t : ServiceState) × (overlapping kept (pos 1) by_kim 6 by_kim 7 waiting
      ≡ ok (some x, some y) t)
    × (records_of 1 t.repo.records ≡ 2)
overlapping_lem_example =
    overlapping_lem kept (pos 1) by_kim 6 by_kim 7 waiting waiting_batch refl waiting-Inv waits
      ready
