-- ===== src/Jobs/Invariant.antt =====
-- What holds of the job repository (internal/jobs/repository.go) between two calls, and how a job
-- may change over a call.
pub mod Calls
pub mod Writes
pub mod Adds
pub mod Bodies
pub mod Actions
pub mod Moves
pub mod Changes
use yolo_ave_mujica.Base.{
  ℕ, suc, ◌≤◌, ◌<◌, ◌≡◌, refl, ℤ, Bool, true, false, Text, lookup, nat_key, text_key, List, [], ◌∷◌,
  ◌++◌, Option, none, some, arith, decimal_int, state_of,
}
use yolo_ave_mujica.Jobs.Model.{Status, is_final, running, retry_waiting, other, Job, Event}
use yolo_ave_mujica.Jobs.StateMachine.Lifecycle.{Reach}
use yolo_ave_mujica.Jobs.Repository.{InMemoryRepository, Result}
use yolo_ave_mujica.Jobs.Dispatcher.{ServiceState, Action}

abbrev pub is_set {ℓ} : {A : Type ℓ} → Option A → Bool
is_set none = false
is_set (some a) = true

abbrev pub is_known : Status → Bool
is_known (other t) = false
is_known _ = true

-- A job has an end time exactly when it has ended, a start time once it runs, and a time at which
-- it is retried while it waits for that.
pub record IsSound (j : Job) : Type 0 where
  pub known : is_known j.status ≡ true
  pub finished_iff : is_final j.status ≡ is_set j.finished_at
  pub running_started : j.status ≡ running → is_set j.started_at ≡ true
  pub waiting_leased : j.status ≡ retry_waiting → is_set j.lease_until ≡ true

-- The key under which a job is filed.
abbrev pub key_of : Job → Text
key_of j = decimal_int j.project_id ++ (b':' ∷ (j.job_type ++ (b':' ∷ j.idempotency_key)))

-- What a job keeps over any number of calls, and which way the rest moves.
pub record Advances (j k : Job) : Type 0 where
  pub same_id : k.id ≡ j.id
  pub same_key : key_of k ≡ key_of j
  pub same_payload : k.payload ≡ j.payload
  pub same_creation : k.created_at ≡ j.created_at
  pub moved : Reach j.status k.status
  pub retried : j.retry_count ≤ k.retry_count

-- The events of a job, oldest first: ids rise from `low` on and stay below `next`.
abbrev pub Rising : ℕ → ℕ → ℕ → List Event → Type 0
Rising job low next [] = low ≤ next
Rising job low next (e ∷ es) = (e.job_id ≡ job) × (low ≤ e.id) × Rising job (suc e.id) next es

pub record Inv (r : InMemoryRepository) : Type 0 where
  pub ids : (k : ℕ) (j : Job) → lookup k r.by_id ≡ some j → (j.id ≡ k) × (k < r.next_id)
  pub sound : (k : ℕ) (j : Job) → lookup k r.by_id ≡ some j → IsSound j
  pub filed : (k : ℕ) (j : Job) → lookup k r.by_id ≡ some j → lookup (key_of j) r.by_key ≡ some k
  pub found :
      (key : Text) (k : ℕ)
      → lookup key r.by_key ≡ some k
      → (j : Job) × (lookup k r.by_id ≡ some j) × (key_of j ≡ key)
  pub logged : (k : ℕ) (es : List Event) → lookup k r.events ≡ some es → Rising k 0 r.next_event es

-- No job is lost, and each advances.
abbrev pub Evolves : InMemoryRepository → InMemoryRepository → Type 0
Evolves r t =
    (k : ℕ) (j : Job)
    → lookup k r.by_id ≡ some j
    → (j' : Job) × (lookup k t.by_id ≡ some j') × Advances j j'

abbrev pub After : InMemoryRepository → InMemoryRepository → Type 0
After r t = Inv t × Evolves r t

-- A method of the repository, or of the service, keeps the invariant and lets jobs only advance.
pub record RepoKeeps {A : Type 0} (m : InMemoryRepository → Result A) : Type 0 where
  pub after : (r : InMemoryRepository) → Inv r → After r (state_of (m r))

pub record Keeps {A : Type 0} (m : Action A) : Type 0 where
  pub after : (s : ServiceState) → Inv s.repo → After s.repo (state_of (m s)).repo
