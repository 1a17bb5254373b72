-- ===== src/Jobs/Invariant/Moves.antt =====
-- How the calls of the job service and of the sweeper (internal/jobs/service.go, sweeper.go) may change the
-- status of a job.
use yolo_ave_mujica.Base.{
  ℕ, ◌≡◌, refl, inl, inr, Bool, true, false, lookup, insert, lookup-insert, nat_key, nat_beq, List,
  [], ◌∷◌, Option, none, some, Option-cases, Bool-cases, Try, Try-cases, value, fault, ok, err,
  Outcome, and_then, attempt, ◌>>=◌, state_of, arith, if◌then◌else◌,
}
use yolo_ave_mujica.Jobs.Model.{Status, Job, Error}
use yolo_ave_mujica.Jobs.Repository.{InMemoryRepository, Result, update_job, get}
use yolo_ave_mujica.Jobs.EventLog.{EventInput, append_event, upsert_worker}
use yolo_ave_mujica.Jobs.Model.{RegisterWorkerInput}
use yolo_ave_mujica.Jobs.Dispatcher.{
  ServiceState, Action, Publisher, on_repo, with_repo, read, deref, observe, Observation,
  dispatched, publish,
}
use yolo_ave_mujica.Jobs.Reports.{refuse_if}
use yolo_ave_mujica.Jobs.Sweeper.{for_each}

-- A relation between the status before and the one after that also holds over several steps.
pub record IsOrder (R : Status → Status → Type 0) : Type 0 where
  pub same : (s : Status) → R s s
  pub compose : (s t u : Status) → R s t → R t u → R s u

-- Every job is still there, its status related to the one that it had.
abbrev pub Follows : (Status → Status → Type 0) → InMemoryRepository → InMemoryRepository → Type 0
Follows R r t =
    (id : ℕ) (j : Job)
    → lookup id r.by_id ≡ some j
    → (k : Job) × (lookup id t.by_id ≡ some k) × R j.status k.status

pub record Moves (R : Status → Status → Type 0) {A : Type 0} (m : Action A) : Type 0 where
  pub follows : (s : ServiceState) → Follows R s.repo (state_of (m s)).repo

pub record RepoMoves (R : Status → Status → Type 0) {A : Type 0} (m : InMemoryRepository → Result A)
    : Type 0 where
  pub follows : (r : InMemoryRepository) → Follows R r (state_of (m r))

module _ (R S T : Status → Status → Type 0) (left : (s t : Status) → R s t → T s t)
    (both : (s t u : Status) → R s t → S t u → T s u) where
  pub and_then-Follows :
      {A B : Type 0} (r : InMemoryRepository) (o : Outcome Error ServiceState A) (f : A → Action B)
      → Follows R r (state_of o).repo
      → ((a : A) → Moves S (f a))
      → Follows T r (state_of (and_then o f)).repo
  and_then-Follows r (err e t) f h k id j at =
      let (i, at', m) = h id j at in (i, at', left j.status i.status m)
  and_then-Follows r (ok a t) f h k id j at =
      let (i, at', m) = h id j at in
      let (i', at'', m') = (k a).follows t id i at' in
      (i', at'', both j.status i.status i'.status m m')

  -- A call after another.
  pub Moves-then :
      {A B : Type 0} (m : Action A) (f : A → Action B)
      → Moves R m
      → ((a : A) → Moves S (f a))
      → Moves T (m >>= f)
  Moves-then m f km kf = record { follows = λ s. and_then-Follows s.repo (m s) f (km.follows s) kf }

module _ (R : Status → Status → Type 0) (order : IsOrder R) where
  Follows-refl : (r : InMemoryRepository) → Follows R r r
  Follows-refl r id j at = (j, at, order.same j.status)

  pub Moves-bind :
      {A B : Type 0} (m : Action A) (f : A → Action B)
      → Moves R m
      → ((a : A) → Moves R (f a))
      → Moves R (m >>= f)
  Moves-bind m f km kf = Moves-then R R R (λ s t h. h) order.compose m f km kf

  pub with_repo-Follows :
      {A : Type 0} (s : ServiceState) (o : Outcome Error InMemoryRepository A)
      → Follows R s.repo (state_of o)
      → Follows R s.repo (state_of (with_repo s o)).repo
  with_repo-Follows s (ok a r) h = h
  with_repo-Follows s (err e r) h = h

  pub Moves-on_repo :
      {A : Type 0} (m : InMemoryRepository → Result A) → RepoMoves R m → Moves R (on_repo m)
  Moves-on_repo m k = record { follows = λ s. with_repo-Follows s (m s.repo) (k.follows s.repo) }

  pub Moves-ok : {A : Type 0} (a : A) → Moves R (ok a)
  Moves-ok a = record { follows = λ s. Follows-refl s.repo }

  pub Moves-err : (A : Type 0) (e : Error) → Moves R {A = A} (err e)
  Moves-err A e = record { follows = λ s. Follows-refl s.repo }

  pub Moves-attempt : {A : Type 0} (t : Try Error A) → Moves R (attempt t)
  Moves-attempt (value a) = Moves-ok a
  Moves-attempt {A} (fault e) = Moves-err A e

  pub Moves-if :
      {A : Type 0} (b : Bool) (m n : Action A)
      → Moves R m
      → Moves R n
      → Moves R (if b then m else n)
  Moves-if true m n p q = p
  Moves-if false m n p q = q

  pub Moves-refuse_if :
      {A : Type 0} (b : Bool) (e : Error) (m : Action A)
      → (b ≡ false → Moves R m)
      → Moves R (refuse_if b e m)
  Moves-refuse_if {A} true e m k = Moves-err A e
  Moves-refuse_if false e m k = k refl

  pub Moves-refuse :
      {A : Type 0} (b : Bool) (e : Error) (m : Action A) → Moves R m → Moves R (refuse_if b e m)
  Moves-refuse b e m k = Moves-refuse_if b e m (λ f. k)

  pub Moves-deref : (id : ℕ) → Moves R (deref id)
  Moves-deref id = record {
    follows = λ s. elim (Option-cases (get id s.repo)) [
      | inl e ↦ rw (e, state_of) (Follows-refl s.repo)
      | inr (j, e) ↦ rw (e, state_of) (Follows-refl s.repo)
    ];
  }

  pub Moves-read : {A : Type 0} (f : InMemoryRepository → A) → Moves R (read f)
  Moves-read f = record { follows = λ s. Follows-refl s.repo }

  pub Moves-observe : (o : Observation) → Moves R (observe o)
  Moves-observe o = record { follows = λ s. Follows-refl s.repo }

  pub Moves-publish : (d : Option Publisher) (job : Job) → Moves R (publish d job)
  unfolding publish
  Moves-publish none job = record { follows = λ s. Follows-refl s.repo }
  Moves-publish (some send) job = record {
    follows = λ s. elim (Option-cases (send (dispatched job))) [
      | inl e ↦ rw (e, state_of) (Follows-refl s.repo)
      | inr (x, e) ↦ rw (e, state_of) (Follows-refl s.repo)
    ];
  }

  append_event-RepoMoves : (id : ℕ) (i : EventInput) (now : ℕ) → RepoMoves R (append_event id i now)
  unfolding append_event
  append_event-RepoMoves id i now = record {
    follows = λ r. elim (Option-cases (lookup id r.by_id)) [
      | inl e ↦ rw (e, append_event, state_of) (Follows-refl r)
      | inr (j, e) ↦ rw (e, append_event, state_of) (Follows-refl r)
    ];
  }

  pub Moves-append : (id : ℕ) (i : EventInput) (now : ℕ) → Moves R (on_repo (append_event id i now))
  Moves-append id i now = Moves-on_repo _ (append_event-RepoMoves id i now)

  pub Moves-log :
      (id : ℕ) (i : EventInput) (now : ℕ) → Moves R (on_repo (append_event id i now) >>= λ e. ok tt)
  Moves-log id i now =
      Moves-bind (on_repo (append_event id i now)) (λ e. ok tt) (Moves-append id i now)
        λ e. Moves-ok tt

  pub upsert_worker-RepoMoves :
      (i : RegisterWorkerInput) (now : ℕ) → RepoMoves R (upsert_worker i now)
  unfolding upsert_worker
  upsert_worker-RepoMoves i now = record { follows = Follows-refl }

  -- Writing one job.
  pub written-Follows :
      (r : InMemoryRepository) (id : ℕ) (j k : Job)
      → lookup id r.by_id ≡ some j
      → R j.status k.status
      → Follows R r (record r { by_id = insert id k r.by_id })
  written-Follows r id j k at moved i l h = elim (Bool-cases (nat_beq id i)) [
    | inl same ↦
        let e : l ≡ j = ground arith in
        (k, rw (lookup-insert i id k r.by_id, same) refl, rw e moved)
    | inr other ↦ (l, rw (lookup-insert i id k r.by_id, other) h, order.same l.status)
  ]

  pub update_job-RepoMoves :
      (id : ℕ) (body : Job → Try Error Job)
      → ((j k : Job) → body j ≡ value k → R j.status k.status)
      → RepoMoves R (update_job id body)
  unfolding update_job
  update_job-RepoMoves id body steps = record {
    follows = λ r. elim (Option-cases (lookup id r.by_id)) [
      | inl e ↦ rw (e, update_job, state_of) (Follows-refl r)
      | inr (j, e) ↦ elim (Try-cases (body j)) [
        | inl (x, f) ↦ rw (e, f, update_job, state_of) (Follows-refl r)
        | inr (k, f) ↦ rw (e, f, update_job, state_of) (written-Follows r id j k e (steps j k f))
      ]
    ];
  }

  pub Moves-for_each :
      (body : ℕ → Action (Unit {0})) (ids : List ℕ)
      → ((id : ℕ) → Moves R (body id))
      → Moves R (for_each body ids)
  unfolding for_each
  Moves-for_each body [] k = Moves-ok tt
  Moves-for_each body (id ∷ ids) k =
      Moves-bind (body id) (λ _. for_each body ids) (k id) (λ _. Moves-for_each body ids k)
