-- ===== src/Publish/Published.antt =====
-- What OwnerApprove of internal/publish/service.go promises, with the task service behind it
-- (internal/tasks/service.go) and with one that fails, and what two overlapping calls do.
use yolo_ave_mujica.Base.{
  ℕ, ℤ, not_positive, to_nat, ◌≡◌, refl, inl, inr, true, false, lookup, nat_key, List, ◌∙◌, Option,
  some, ok, err, and_then,
}
use yolo_ave_mujica.Jobs.Value.{Detail}
use yolo_ave_mujica.Tasks.Model
use yolo_ave_mujica.Tasks.Repository
use yolo_ave_mujica.Tasks.Service
use yolo_ave_mujica.Tasks.Validity.{IsValid, create_task_lem}
use yolo_ave_mujica.Publish.Model.{Batch, Record, ApprovalInput, published, plain, task}
use yolo_ave_mujica.Publish.Repository.{clone_batch}
use yolo_ave_mujica.Publish.Service.{
  ServiceState, TaskCreator, is_ready_for_owner, is_closed_status, evaluation_task,
  start_evaluation, owner_approve,
}
use yolo_ave_mujica.Publish.Invariant.{Inv, due, records_of}
use yolo_ave_mujica.Publish.Approval.{
  check_owner-ready, approved_batch, approved_record, approved_state, apply_owner-approves,
  approved_stored, approved_records, owner_approve_published, approved_status, started_task,
  started_state,
}
use yolo_ave_mujica.Publish.History.{Call, run}
use yolo_ave_mujica.Publish.History.Laws.{run-After}
use yolo_ave_mujica.Publish.History.Owners.{owner_approve-Keeps}
use yolo_ave_mujica.Publish.Evaluation.{evaluation_task-IsValid}

module _ (clone : Detail → Detail) (id : ℤ) (positive : not_positive id ≡ false) (s : ServiceState)
    (inv : Inv s.repo) (b : Batch) (at : lookup (to_nat id) s.repo.batches ≡ some b)
    (ready : is_ready_for_owner b.status ≡ true) (i : ApprovalInput) (now : ℕ) where
  -- The first two steps of the call.
  owner_approve-evaluates :
      (creator : Option TaskCreator)
      → owner_approve clone creator id i now s
        ≡ start_evaluation creator
            (clone_batch clone b)
            now
            (some (approved_record clone id i now s.repo b))
            (record s { repo = approved_state clone id i now s.repo b })
  unfolding owner_approve
  owner_approve-evaluates creator =
      rw
        (
          check_owner-ready clone id positive "batch is not ready for owner approval" s b at ready,
          and_then,
          apply_owner-approves clone id s b i now at,
        )
        refl

  clone_task :
      (x : Record)
      → let t = Service.normalize_task (evaluation_task (clone_batch clone b) x) now in
        IsValid t
        × (t.kind ≡ Model.training_candidate)
        × (t.status ≡ Model.queued)
        × (t.snapshot_id ≡ some b.snapshot_id)
  unfolding clone_batch
  clone_task x =
      let good = inv.good (to_nat id) b at in
      evaluation_task-IsValid (clone_batch clone b) x now good.sound.in_project
        good.sound.of_snapshot

  -- Approving a batch that its owner may decide on, with the task service as the task creator: the call
  -- returns the record, the batch is published and has exactly that record, and the task service has a
  -- new valid task, queued, for the candidate of the batch's snapshot.
  pub owner_approve_lem :
      let x = approved_record clone id i now s.repo b in
      let new_task = started_task clone id i now s b in
      let t = started_state clone id i now s b in
      (owner_approve clone (some Service.create_task) id i now s ≡ ok (some x) t)
      × (lookup (to_nat id) t.repo.batches
          ≡ some (clone_batch clone (approved_batch clone id i now s.repo b)))
      × (records_of (to_nat id) t.repo.records ≡ 1)
      × IsValid (Service.normalize_task (evaluation_task (clone_batch clone b) x) now)
      × (new_task.kind ≡ Model.training_candidate)
      × (new_task.status ≡ Model.queued)
      × (new_task.snapshot_id ≡ some b.snapshot_id)
  unfolding start_evaluation Repository.new_task
  owner_approve_lem =
      let x = approved_record clone id i now s.repo b in
      let (valid, kind, status, snapshot) = clone_task x in
      let stored : owner_approve clone (some Service.create_task) id i now s
          ≡ ok (some x) (started_state clone id i now s b) =
        elim (create_task_lem (evaluation_task (clone_batch clone b) x) now s.tasks) [
          | inl (v, e) ↦ rw (owner_approve-evaluates (some Service.create_task), e) refl
          | inr (n, x, e) ↦ absurd (n valid)
        ] in
      (
        stored,
        approved_stored clone id i now s.repo b,
        approved_records clone id i now s.repo b inv at ready,
        valid,
        kind,
        status,
        snapshot,
      )

  -- The status and the records of a batch that is published last over any history.
  stays_published :
      (creator : Option TaskCreator) (cs : List (ℕ × Call)) (t : ServiceState) (c : Batch)
      → Inv t.repo
      → lookup (to_nat id) t.repo.batches ≡ some c
      → c.status ≡ published
      → let u = run clone creator cs t in
        (d : Batch) × (lookup (to_nat id) u.repo.batches ≡ some d)
        × (d.status ≡ published)
        × (records_of (to_nat id) u.repo.records ≡ 1)
  unfolding is_closed_status
  stays_published creator cs t c good found status =
      let u = run clone creator cs t in
      let (later, kept) = run-After clone creator cs t good in
      let (d, there, same) = kept (to_nat id) c found in
      let (still, x, y) = same.sealed (rw (status, is_closed_status) refl) in
      let published_still = still ∙ status in
      (
        d,
        there,
        published_still,
        later.recorded (to_nat id) ∙ rw (there, due, published_still) refl,
      )

  -- If the task service fails, OwnerApprove of a batch that its owner may decide on returns the failure, but
  -- the batch is published and has its record; and after any history of calls from there the batch still
  -- has one record, and OwnerApprove of it is refused and changes nothing.
  pub owner_approve_fails :
      (create : TaskCreator) (e : Model.Error) (ts : Repository.InMemoryRepository)
      → create
          (evaluation_task (clone_batch clone b) (approved_record clone id i now s.repo b))
          now
          s.tasks
        ≡ err e ts
      → (creator : Option TaskCreator) (cs : List (ℕ × Call)) (j : ApprovalInput) (later : ℕ)
      → let t : ServiceState = record {
        repo = approved_state clone id i now s.repo b;
        tasks = ts;
      } in
        let u = run clone creator cs t in
        (owner_approve clone (some create) id i now s ≡ err (task e) t)
        × (lookup (to_nat id) t.repo.batches
            ≡ some (clone_batch clone (approved_batch clone id i now s.repo b)))
        × (records_of (to_nat id) t.repo.records ≡ 1)
        × (records_of (to_nat id) u.repo.records ≡ 1)
        × (owner_approve clone creator id j later u
            ≡ err (plain "batch is not ready for owner approval") u)
  unfolding start_evaluation
  owner_approve_fails create e ts fails creator cs j later =
      let t : ServiceState = record { repo = approved_state clone id i now s.repo b; tasks = ts } in
      let failed : owner_approve clone (some create) id i now s ≡ err (task e) t =
        rw (owner_approve-evaluates (some create), fails) refl in
      let good : Inv t.repo =
        rw failed at (owner_approve-Keeps clone (some create) id i now s inv).0 in
      let stored = approved_stored clone id i now s.repo b in
      let (d, there, status, one) =
        stays_published creator cs t (clone_batch clone (approved_batch clone id i now s.repo b))
          good stored (approved_status clone id i now s.repo b) in
      (
        failed,
        stored,
        approved_records clone id i now s.repo b inv at ready,
        one,
        owner_approve_published clone id creator positive (run clone creator cs t) d j later there
            status,
      )
