-- ===== src/Jobs/History/Dispatch.antt =====
-- Creating a job once, and again (CreateJob of internal/jobs/service.go).
use yolo_ave_mujica.Base.{
  ℕ, suc, ◌≡◌, refl, ◌∙◌, Bool, true, false, Text, lookup, insert, lookup-insert_self, nat_key,
  text_key, List, none, some, ok, and_then, attempt, value, state_of, Option-cases, inl, inr,
}
use yolo_ave_mujica.Jobs.Model.{CreateJobInput}
use yolo_ave_mujica.Jobs.Repository.{InMemoryRepository, create_or_get, idempotency_key, new_job}
use yolo_ave_mujica.Jobs.Dispatcher.{ServiceState, with_repo}
use yolo_ave_mujica.Jobs.Sweeper.{Sweeper}
use yolo_ave_mujica.Jobs.Service.{Service, normalize_input, submitted, create_job}
use yolo_ave_mujica.Jobs.Invariant.{Inv, After, key_of}
use yolo_ave_mujica.Jobs.Invariant.Adds.{create_or_get-RepoKeeps}
use yolo_ave_mujica.Jobs.Invariant.Actions.{submitted-Keeps}
use yolo_ave_mujica.Jobs.History.{Call, run}
use yolo_ave_mujica.Jobs.History.Laws.{run-After}

-- A key that is taken stays with its job.
key_kept :
    (r t : InMemoryRepository) (key : Text) (id : ℕ)
    → Inv r
    → After r t
    → lookup key r.by_key ≡ some id
    → lookup key t.by_key ≡ some id
key_kept r t key id inv (inv', ev) h =
    let (j, e, f) = inv.found key id h in
    let (k, g, a) = ev id j e in
    let same : key_of k ≡ key = a.same_key ∙ f in rw same at (inv'.filed id k g)

-- The id under which CreateOrGet finds or makes the job.
abbrev pub id_for : CreateJobInput → InMemoryRepository → ℕ
id_for i r = elim (lookup (idempotency_key i) r.by_key) [ none ↦ r.next_id | some id ↦ id ]

create_or_get-key :
    (i : CreateJobInput) (now : ℕ) (r : InMemoryRepository)
    → (c : Bool) × (u : InMemoryRepository) × (create_or_get i now r ≡ ok (id_for i r, c) u)
      × (lookup (idempotency_key i) u.by_key ≡ some (id_for i r))
unfolding create_or_get
create_or_get-key i now r = elim (Option-cases (lookup (idempotency_key i) r.by_key)) [
  | inl e ↦ (
    true,
    record r {
      next_id = suc r.next_id;
      by_key = insert (idempotency_key i) r.next_id r.by_key;
      by_id = insert r.next_id (new_job r.next_id i now) r.by_id;
    },
    rw (e, create_or_get, id_for) refl,
    rw (e, id_for) (lookup-insert_self (idempotency_key i) r.next_id r.by_key),
  )
  | inr (id, e) ↦ (false, r, rw (e, create_or_get, id_for) refl, rw (id_for, e) refl)
]

create_or_get_taken :
    (i : CreateJobInput) (now id : ℕ) (r : InMemoryRepository)
    → lookup (idempotency_key i) r.by_key ≡ some id
    → create_or_get i now r ≡ ok (id, false) r
unfolding create_or_get
create_or_get_taken i now id r e = rw (e, create_or_get) refl

module _ (svc : Service) (i i' : CreateJobInput) (normal : normalize_input i ≡ value i') where
  pub create_job_normal :
      (now : ℕ) (s : ServiceState)
      → create_job svc i now s
        ≡ and_then (with_repo s (create_or_get i' now s.repo)) (submitted svc.dispatcher now)
  unfolding create_job
  create_job_normal now s = rw (normal, create_job, attempt, and_then) refl

  create_job_taken :
      (now id : ℕ) (s : ServiceState)
      → lookup (idempotency_key i') s.repo.by_key ≡ some id
      → create_job svc i now s ≡ ok id s
  unfolding submitted
  create_job_taken now id s e =
      create_job_normal now s
      ∙ rw (create_or_get_taken i' now id s.repo e, with_repo, and_then) refl

  create_job-key :
      (now : ℕ) (s : ServiceState)
      → Inv s.repo
      → let t = state_of (create_job svc i now s) in
        Inv t.repo × (lookup (idempotency_key i') t.repo.by_key ≡ some (id_for i' s.repo))
  create_job-key now s inv =
      let (c, u, e, f) = create_or_get-key i' now s.repo in
      let kept : After s.repo u = rw e at ((create_or_get-RepoKeeps i' now).after s.repo inv) in
      let s' : ServiceState = record s { repo = u } in
      let later = (submitted-Keeps svc.dispatcher now (id_for i' s.repo, c)).after s' kept.0 in
      rw (create_job_normal now s, e, with_repo, and_then)
        (
          later.0,
          key_kept u (state_of (submitted svc.dispatcher now (id_for i' s.repo, c) s')).repo
              (idempotency_key i') (id_for i' s.repo) kept.0 later f,
        )

  -- Once CreateJob was called with an input that is valid, whether that call succeeded or failed, every
  -- later call with the same input, after any history in between, returns one and the same id,
  -- changes nothing, and dispatches nothing.
  pub create_job_again :
      (sweeper : Sweeper) (cs : List (ℕ × Call)) (now later : ℕ) (s : ServiceState)
      → Inv s.repo
      → let t = run svc sweeper cs (state_of (create_job svc i now s)) in
        create_job svc i later t ≡ ok (id_for i' s.repo) t
  create_job_again sweeper cs now later s inv =
      let (inv', f) = create_job-key now s inv in
      let t = state_of (create_job svc i now s) in
      create_job_taken later (id_for i' s.repo) (run svc sweeper cs t) (
        key_kept t.repo (run svc sweeper cs t).repo (idempotency_key i') (id_for i' s.repo) inv'
          (run-After svc sweeper cs t inv') f)
