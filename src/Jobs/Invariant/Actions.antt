-- ===== src/Jobs/Invariant/Actions.antt =====
-- Every call of the job service and of the sweeper (internal/jobs/service.go, sweeper.go) keeps the
-- invariant of the repository, and lets jobs only advance.
use yolo_ave_mujica.Base.{
  ℕ, ℤ, ◌≡◌, refl, Bool, true, false, not, is_empty, Text, List, [], ◌∷◌, Option, none, some,
  Option-cases, inl, inr, state_of, arith, if◌then◌else◌,
}
use yolo_ave_mujica.Jobs.Model.{
  Status, is_final, Job, Error, validation, CreateJobInput, RegisterWorkerInput, Event,
}
use yolo_ave_mujica.Jobs.Service.{
  Service, announce, submitted, resolved, create_job, register_worker, get_job,
}
use yolo_ave_mujica.Jobs.Repository.{InMemoryRepository, get, Counters}
use yolo_ave_mujica.Jobs.EventLog.{EventInput, append_event, list_events}
use yolo_ave_mujica.Jobs.Dispatcher.{
  Action, Publisher, on_repo, read, deref, observe, Observation, dispatched, publish,
}
use yolo_ave_mujica.Jobs.Sweeper.{
  Sweeper, requeue, give_up, retry_later, expire_job, expire, for_each, tick,
}
use yolo_ave_mujica.Jobs.Reports.{
  extend_lease, heartbeat, progress, report_heartbeat, report_progress, store_typed, record_event,
  report_event, finish, report_terminal, refuse_if, has_negative,
}
use yolo_ave_mujica.Jobs.Value.{Detail}
use yolo_ave_mujica.Jobs.Invariant.{Keeps}
use yolo_ave_mujica.Jobs.Invariant.Calls.{
  Keeps-bind, Keeps-on_repo, Keeps-ok, Keeps-err, Keeps-attempt, Evolves-refl,
}
use yolo_ave_mujica.Jobs.Invariant.Adds.{
  append_event-RepoKeeps, create_or_get-RepoKeeps, upsert_worker-RepoKeeps,
}
use yolo_ave_mujica.Jobs.Invariant.Writes.{IsStep, written-Inv, written-Evolves}
use yolo_ave_mujica.Jobs.Invariant.Bodies.{
  Reach-of_eq, step, requeue_status-RepoKeeps, claim-RepoKeeps, touch_lease-RepoKeeps,
  update_progress-RepoKeeps, complete-RepoKeeps, increment_retry_count-RepoKeeps,
  mark_retry_waiting-RepoKeeps, mark_failed-RepoKeeps, store_result_ref-RepoKeeps,
}

deref-Keeps : (id : ℕ) → Keeps (deref id)
deref-Keeps id = record {
  after = λ s inv. elim (Option-cases (get id s.repo)) [
    | inl e ↦ rw (e, state_of) (inv, Evolves-refl s.repo)
    | inr (j, e) ↦ rw (e, state_of) (inv, Evolves-refl s.repo)
  ];
}

read-Keeps : {A : Type 0} (f : InMemoryRepository → A) → Keeps (read f)
read-Keeps f = record { after = λ s inv. (inv, Evolves-refl s.repo) }

observe-Keeps : (o : Observation) → Keeps (observe o)
observe-Keeps o = record { after = λ s inv. (inv, Evolves-refl s.repo) }

publish-Keeps : (d : Option Publisher) (job : Job) → Keeps (publish d job)
unfolding publish
publish-Keeps none job = record { after = λ s inv. (inv, Evolves-refl s.repo) }
publish-Keeps (some send) job = record {
  after = λ s inv. elim (Option-cases (send (dispatched job))) [
    | inl e ↦ rw (e, state_of) (inv, Evolves-refl s.repo)
    | inr (x, e) ↦ rw (e, state_of) (inv, Evolves-refl s.repo)
  ];
}

append-Keeps : (id : ℕ) (i : EventInput) (now : ℕ) → Keeps (on_repo (append_event id i now))
append-Keeps id i now = Keeps-on_repo _ (append_event-RepoKeeps id i now)

ruleset keeping = (
  Keeps-bind, Keeps-on_repo, Keeps-ok, Keeps-err, Keeps-attempt, deref-Keeps, observe-Keeps,
  publish-Keeps, append-Keeps,
)

requeue-Keeps : (d : Option Publisher) (clock id : ℕ) → Keeps (requeue d clock id)
unfolding requeue
requeue-Keeps d clock id = search (keeping, requeue_status-RepoKeeps)

give_up-Keeps :
    (job : Job) (reason : Text) (more : Detail) (clock id : ℕ)
    → Keeps (give_up job reason more clock id)
unfolding give_up
give_up-Keeps job reason more clock id = search (keeping, mark_failed-RepoKeeps)

retry_later-Keeps :
    (backoff now clock : ℕ) (job : Job) (id : ℕ) → Keeps (retry_later backoff now clock job id)
unfolding retry_later
retry_later-Keeps backoff now clock job id =
    search (keeping, mark_retry_waiting-RepoKeeps, increment_retry_count-RepoKeeps) depth 8

if-Keeps : {A : Type 0} (b : Bool) (m n : Action A) → Keeps m → Keeps n → Keeps (if b then m else n)
if-Keeps true m n p q = p
if-Keeps false m n p q = q

expire_job-Keeps :
    (s : Sweeper) (now clock id : ℕ) (job : Job) → Keeps (expire_job s now clock id job)
unfolding expire_job
expire_job-Keeps s now clock id job = search (if-Keeps, give_up-Keeps, retry_later-Keeps)

expire-Keeps : (s : Sweeper) (now clock id : ℕ) → Keeps (expire s now clock id)
unfolding expire
expire-Keeps s now clock id =
    Keeps-bind (deref id) (expire_job s now clock id) (deref-Keeps id)
      (expire_job-Keeps s now clock id)

for_each-Keeps :
    (body : ℕ → Action (Unit {0})) (ids : List ℕ)
    → ((id : ℕ) → Keeps (body id))
    → Keeps (for_each body ids)
unfolding for_each
for_each-Keeps body [] k = Keeps-ok tt
for_each-Keeps body (id ∷ ids) k =
    Keeps-bind (body id) (λ _. for_each body ids) (k id) (λ _. for_each-Keeps body ids k)

pub tick-Keeps : (s : Sweeper) (d : Option Publisher) (now clock : ℕ) → Keeps (tick s d now clock)
unfolding tick
tick-Keeps s d now clock =
    search (Keeps-bind, read-Keeps, for_each-Keeps, requeue-Keeps, expire-Keeps)

extend_lease-Keeps :
    (id : ℕ) (w : Text) (lease now : ℕ) (job : Job) → Keeps (extend_lease id w lease now job)
unfolding extend_lease
extend_lease-Keeps id w lease now job =
    search (if-Keeps, Keeps-on_repo, touch_lease-RepoKeeps, claim-RepoKeeps)

heartbeat-Keeps : (id : ℕ) (w : Text) (seconds now : ℕ) → Keeps (heartbeat id w seconds now)
unfolding heartbeat
heartbeat-Keeps id w seconds now = search (keeping, extend_lease-Keeps)

progress-Keeps : (id : ℕ) (w : Text) (c : Counters) (now : ℕ) → Keeps (progress id w c now)
unfolding progress
progress-Keeps id w c now = search (keeping, update_progress-RepoKeeps)

refuse_if-Keeps :
    {A : Type 0} (b : Bool) (e : Error) (m : Action A) → Keeps m → Keeps (refuse_if b e m)
refuse_if-Keeps {A} true e m k = Keeps-err A e
refuse_if-Keeps false e m k = k

unless-Keeps :
    {A : Type 0} (b : Bool) (e : Error) (m : Action A)
    → (b ≡ false → Keeps m)
    → Keeps (refuse_if b e m)
unless-Keeps {A} true e m k = Keeps-err A e
unless-Keeps false e m k = k refl

pub report_heartbeat-Keeps :
    (id : ℕ) (w : Text) (seconds : ℤ) (now : ℕ) → Keeps (report_heartbeat id w seconds now)
unfolding report_heartbeat
report_heartbeat-Keeps id w seconds now = search (refuse_if-Keeps, heartbeat-Keeps)

pub report_progress-Keeps :
    (id : ℕ) (w : Text) (c : Counters) (now : ℕ) → Keeps (report_progress id w c now)
unfolding report_progress
report_progress-Keeps id w c now = search (refuse_if-Keeps, progress-Keeps)

store_typed-Keeps : (id : ℕ) (d : Detail) → Keeps (store_typed id d)
unfolding store_typed
store_typed-Keeps id d = search (keeping, if-Keeps, store_result_ref-RepoKeeps)

record_event-Keeps :
    (svc : Service) (id : ℕ) (item : Option ℤ) (level typ message : Text) (d : Detail) (now : ℕ)
    → Keeps (record_event svc id item level typ message d now)
unfolding record_event
record_event-Keeps svc id item level typ message d now = search (keeping, store_typed-Keeps)

pub report_event-Keeps :
    (svc : Service) (id : ℕ) (item : Option ℤ) (level typ message : Text) (d : Detail) (now : ℕ)
    → Keeps (report_event svc id item level typ message d now)
unfolding report_event
report_event-Keeps svc id item level typ message d now =
    search (refuse_if-Keeps, record_event-Keeps) depth 8

finish-Keeps :
    (id : ℕ) (w : Text) (to : Status) (c : Counters) (ref : Detail) (now : ℕ)
    → is_final to ≡ true
    → Keeps (finish id w to c ref now)
unfolding finish
finish-Keeps id w to c ref now final =
    search (keeping, complete-RepoKeeps, store_result_ref-RepoKeeps) depth 9

pub report_terminal-Keeps :
    (id : ℕ) (w : Text) (to : Status) (c : Counters) (ref : Detail) (now : ℕ)
    → Keeps (report_terminal id w to c ref now)
unfolding report_terminal
report_terminal-Keeps id w to c ref now = refuse_if-Keeps (is_empty w) validation _ (
    unless-Keeps (not (is_final to)) validation
      (refuse_if (has_negative c) validation (finish id w to c ref now))
      λ e. search (refuse_if-Keeps, finish-Keeps id w to c ref now (ground arith)))

announce-Keeps : (d : Option Publisher) (now id : ℕ) → Keeps (announce d now id)
unfolding announce
announce-Keeps d now id = search keeping depth 9

pub submitted-Keeps : (d : Option Publisher) (now : ℕ) (p : ℕ × Bool) → Keeps (submitted d now p)
unfolding submitted
submitted-Keeps d now (id, true) = announce-Keeps d now id
submitted-Keeps d now (id, false) = Keeps-ok id

pub create_job-Keeps : (svc : Service) (i : CreateJobInput) (now : ℕ) → Keeps (create_job svc i now)
unfolding create_job
create_job-Keeps svc i now = search (keeping, create_or_get-RepoKeeps, submitted-Keeps)

pub register_worker-Keeps : (i : RegisterWorkerInput) (now : ℕ) → Keeps (register_worker i now)
unfolding register_worker
register_worker-Keeps i now = search (keeping, if-Keeps, upsert_worker-RepoKeeps)

resolved-IsStep : (j : Job) (es : List Event) → IsStep j (resolved j es)
unfolding resolved
resolved-IsStep j es =
    step j (resolved j es) (ground arith) (Reach-of_eq (ground arith)) (λ s. ground arith)

pub get_job-Keeps : (id : ℕ) → Keeps (get_job id)
unfolding get_job
get_job-Keeps id = record {
  after = λ s inv. elim (Option-cases (get id s.repo)) [
    | inl e ↦ rw (e, state_of) (inv, Evolves-refl s.repo)
    | inr (j, e) ↦
        let k = resolved j (list_events id s.repo) in
        let st = resolved-IsStep j (list_events id s.repo) in
        rw (e, state_of)
          (
            written-Inv s.repo id j k (unfold get in e) inv st,
            written-Evolves s.repo id j k (unfold get in e) inv st,
          )
  ];
}
