-- ===== src/Publish/Overlap.antt =====
-- Two calls of OwnerApprove (internal/publish/service.go) that overlap: both read the batch before the
-- repository (internal/publish/in_memory_repository.go) makes either decision.
use yolo_ave_mujica.Base.{
  ℕ, ℤ, not_positive, to_nat, ◌≡◌, refl, ◌∙◌, true, false, nat_beq, nat_beq_iff, lookup, nat_key,
  Option, some, arith, ok, pass, and_then, ◌>>=◌, state_of,
}
use yolo_ave_mujica.Jobs.Value.{Detail}
use yolo_ave_mujica.Publish.Model.{approve, Batch, Record, ApprovalInput}
use yolo_ave_mujica.Publish.Repository.{clone_batch}
use yolo_ave_mujica.Publish.Service.{
  ServiceState, Action, is_ready_for_owner, check_owner, apply_owner,
}
use yolo_ave_mujica.Publish.Invariant.{Inv, records_of, one_if}
use yolo_ave_mujica.Publish.Invariant.Writes.{records_of-insert, fresh_record}
use yolo_ave_mujica.Publish.History.Owners.{apply_owner-Keeps}
use yolo_ave_mujica.Publish.Approval.{
  check_owner-ready, approved_batch, approved_record, approved_state, apply_owner-approves,
  approved_stored, approved_records, record_of,
}

module _ (clone : Detail → Detail) where
  -- The reads and then the decisions of two approvals, without the tasks that they start.
  unfoldable pub overlapping :
      ℤ → ApprovalInput → ℕ → ApprovalInput → ℕ → Action (Option Record × Option Record)
  unfolding check_owner apply_owner
  overlapping id i now j later = do
    b ← check_owner clone id "batch is not ready for owner approval"
    c ← check_owner clone id "batch is not ready for owner approval"
    x ← apply_owner clone id approve i now
    y ← apply_owner clone id approve j later
    pass (x, y)

  -- The owner approves a batch twice in overlapping calls, in a repository as the calls leave it, where the
  -- batch waits for the owner: both calls return a record, and the batch has two.
  pub overlapping_lem :
      (id : ℤ) (i : ApprovalInput) (now : ℕ) (j : ApprovalInput) (later : ℕ) (s : ServiceState)
      (b : Batch)
      → not_positive id ≡ false
      → Inv s.repo
      → lookup (to_nat id) s.repo.batches ≡ some b
      → is_ready_for_owner b.status ≡ true
      → (x y : Record) × (t : ServiceState) × (overlapping id i now j later s
          ≡ ok (some x, some y) t)
        × (records_of (to_nat id) t.repo.records ≡ 2)
  unfolding overlapping
  overlapping_lem id i now j later s b positive inv at ready =
      let r = approved_state clone id i now s.repo b in
      let t : ServiceState = record s { repo = r } in
      let c = clone_batch clone (approved_batch clone id i now s.repo b) in
      let stored : lookup (to_nat id) r.batches ≡ some c =
        approved_stored clone id i now s.repo b in
      let kept : Inv r =
        rw (apply_owner-approves clone id s b i now at, state_of) at
          (apply_owner-Keeps clone id approve i now s b refl at ready inv).0 in
      let same : nat_beq (to_nat id) (to_nat id) ≡ true =
        (nat_beq_iff (to_nat id) (to_nat id)).1 refl in
      let mine : (approved_record clone id j later r c).publish_batch_id ≡ to_nat id =
        record_of clone id j later r c ∙ (kept.good (to_nat id) c stored).own_id in
      let one : one_if (nat_beq (approved_record clone id j later r c).publish_batch_id (to_nat id))
          ≡ 1 =
        rw (mine, same) refl in
      let more =
        records_of-insert (to_nat id) r.next_record (approved_record clone id j later r c) r.records
          (fresh_record r kept) in
      let before = approved_records clone id i now s.repo b inv at ready in
      (
        approved_record clone id i now s.repo b,
        approved_record clone id j later r c,
        record t { repo = approved_state clone id j later r c },
        rw
            (
              check_owner-ready clone id positive "batch is not ready for owner approval" s b at
                  ready,
              and_then,
              check_owner-ready clone id positive "batch is not ready for owner approval" s b at
                  ready,
              and_then,
              apply_owner-approves clone id s b i now at,
              and_then,
              apply_owner-approves clone id t c j later stored,
            )
            refl,
        omega arith,
      )
