-- ===== src/Publish/Approval.antt =====
-- OwnerApprove of internal/publish/service.go: what an approval leaves, and what is left when the
-- task service fails.
use yolo_ave_mujica.Base.{
  ℕ, suc, ◌+◌, ℤ, not_positive, to_nat, ◌≡◌, refl, ◌∙◌, true, false, lit, nat_beq, nat_beq_iff,
  lookup, lookup-insert, insert, nat_key, List, Option, String, some, arith, ok, err, and_then,
  int_key,
}
use yolo_ave_mujica.Jobs.Value.{Detail}
use yolo_ave_mujica.Tasks.Model
use yolo_ave_mujica.Tasks.Repository
use yolo_ave_mujica.Tasks.Service
use yolo_ave_mujica.Publish.Model.{
  Status, approve, Batch, Record, Feedback, ApprovalInput, plain, published,
}
use yolo_ave_mujica.Publish.Feedback.{normalize_actor, normalize_decision_feedback, new_feedbacks}
use yolo_ave_mujica.Publish.Repository.{
  InMemoryRepository, count, clone_batch, clone_record, find_batch,
}
use yolo_ave_mujica.Publish.Decisions.{
  add_feedback, new_record, owner_decided, apply_owner_decision,
}
use yolo_ave_mujica.Publish.Service.{
  ServiceState, TaskCreator, with_repo, is_ready_for_owner, evaluation_task, get_batch, check_owner,
  apply_owner, owner_approve,
}
use yolo_ave_mujica.Publish.Invariant.{Inv, records_of, is_published}
use yolo_ave_mujica.Publish.Invariant.Writes.{records_more}
use yolo_ave_mujica.Publish.History.Calls.{clone_status}

ready_unpublished : (s : Status) → is_ready_for_owner s ≡ true → is_published s ≡ false
unfolding is_ready_for_owner
ready_unpublished s h = ground arith

published_busy : (s : Status) → s ≡ published → is_ready_for_owner s ≡ false
unfolding is_ready_for_owner
published_busy s h = ground arith

module _ (clone : Detail → Detail) (id : ℤ) where
  pub check_owner-ready :
      (positive : not_positive id ≡ false) (message : String) (s : ServiceState) (b : Batch)
      → lookup (to_nat id) s.repo.batches ≡ some b
      → is_ready_for_owner b.status ≡ true
      → check_owner clone id message s ≡ ok (clone_batch clone b) s
  unfolding check_owner get_batch find_batch
  check_owner-ready positive message s b at ready =
      rw (positive, at, with_repo, and_then, clone_status clone b, ready) refl

  check_owner-busy :
      (positive : not_positive id ≡ false) (message : String) (s : ServiceState) (b : Batch)
      → lookup (to_nat id) s.repo.batches ≡ some b
      → is_ready_for_owner b.status ≡ false
      → check_owner clone id message s ≡ err (plain message) s
  unfolding check_owner get_batch find_batch
  check_owner-busy positive message s b at busy =
      rw (positive, at, with_repo, and_then, clone_status clone b, busy) refl

  -- The new feedback of an approval, and the batch that it leaves.
  abbrev pub feedback_of : ApprovalInput → ℕ → InMemoryRepository → List Feedback
  feedback_of i now r =
      new_feedbacks r.next_feed (to_nat id)
        (normalize_decision_feedback i.feedback (normalize_actor i.actor) (lit "owner")) now

  abbrev pub approved_batch : ApprovalInput → ℕ → InMemoryRepository → Batch → Batch
  approved_batch i now r b =
      owner_decided published (normalize_actor i.actor) now (add_feedback (feedback_of i now r) b)

  abbrev pub approved_record : ApprovalInput → ℕ → InMemoryRepository → Batch → Record
  approved_record i now r b = clone_record clone (
      new_record r.next_record (normalize_actor i.actor) now (add_feedback (feedback_of i now r) b))

  abbrev pub approved_state : ApprovalInput → ℕ → InMemoryRepository → Batch → InMemoryRepository
  approved_state i now r b = record r {
    next_feed =
        r.next_feed
        + count (normalize_decision_feedback i.feedback (normalize_actor i.actor) (lit "owner"));
    next_record = suc r.next_record;
    records = insert r.next_record (approved_record i now r b) r.records;
    batches = insert (to_nat id) (clone_batch clone (approved_batch i now r b)) r.batches;
  }

  -- The task that an approval starts, and the state once the task service has it.
  abbrev pub started_task : ApprovalInput → ℕ → ServiceState → Batch → Model.Task
  started_task i now s b =
      Repository.new_task s.tasks.next_id
        (Service.normalize_task
          (evaluation_task (clone_batch clone b) (approved_record i now s.repo b)) now)
        now

  abbrev pub started_state : ApprovalInput → ℕ → ServiceState → Batch → ServiceState
  started_state i now s b = record {
    repo = approved_state i now s.repo b;
    tasks = record s.tasks {
      next_id = suc s.tasks.next_id;
      by_id = insert s.tasks.next_id (started_task i now s b) s.tasks.by_id;
    };
  }

  -- The repository approves any batch that it has, whatever its status.
  pub apply_owner-approves :
      (s : ServiceState) (b : Batch) (i : ApprovalInput) (now : ℕ)
      → lookup (to_nat id) s.repo.batches ≡ some b
      → apply_owner clone id approve i now s
        ≡ ok
            (some (approved_record i now s.repo b))
            (record s { repo = approved_state i now s.repo b })
  unfolding apply_owner apply_owner_decision
  apply_owner-approves s b i now at = rw (at, with_repo) refl

  pub approved_status :
      (i : ApprovalInput) (now : ℕ) (r : InMemoryRepository) (b : Batch)
      → (clone_batch clone (approved_batch i now r b)).status ≡ published
  unfolding clone_batch owner_decided
  approved_status i now r b = refl

  pub approved_stored :
      (i : ApprovalInput) (now : ℕ) (r : InMemoryRepository) (b : Batch)
      → lookup (to_nat id) (approved_state i now r b).batches
        ≡ some (clone_batch clone (approved_batch i now r b))
  approved_stored i now r b =
      let same : nat_beq (to_nat id) (to_nat id) ≡ true =
        (nat_beq_iff (to_nat id) (to_nat id)).1 refl in
      rw
        (
          lookup-insert (to_nat id) (to_nat id) (clone_batch clone (approved_batch i now r b))
              r.batches,
          same,
        )
        refl

  pub record_of :
      (i : ApprovalInput) (now : ℕ) (r : InMemoryRepository) (b : Batch)
      → (approved_record i now r b).publish_batch_id ≡ b.id
  unfolding clone_record new_record
  record_of i now r b = refl

  -- The approval of a batch that waits for its owner leaves one record of it.
  pub approved_records :
      (i : ApprovalInput) (now : ℕ) (r : InMemoryRepository) (b : Batch)
      → Inv r
      → lookup (to_nat id) r.batches ≡ some b
      → is_ready_for_owner b.status ≡ true
      → records_of (to_nat id) (approved_state i now r b).records ≡ 1
  approved_records i now r b inv at ready =
      let same : nat_beq (to_nat id) (to_nat id) ≡ true =
        (nat_beq_iff (to_nat id) (to_nat id)).1 refl in
      rw
        (
          records_more r inv (to_nat id) b (approved_record i now r b) at
              (ready_unpublished b.status ready)
              (record_of i now r b ∙ (inv.good (to_nat id) b at).own_id) (to_nat id),
          same,
        )
        refl

  -- A published batch cannot be approved again.
  pub owner_approve_published :
      (creator : Option TaskCreator) (positive : not_positive id ≡ false) (s : ServiceState)
      (b : Batch) (i : ApprovalInput) (now : ℕ)
      → lookup (to_nat id) s.repo.batches ≡ some b
      → b.status ≡ published
      → owner_approve clone creator id i now s
        ≡ err (plain "batch is not ready for owner approval") s
  unfolding owner_approve
  owner_approve_published creator positive s b i now at status =
      rw
        (
          check_owner-busy positive "batch is not ready for owner approval" s b at
              (published_busy b.status status),
          and_then,
        )
        refl
