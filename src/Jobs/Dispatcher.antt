-- ===== src/Jobs/Dispatcher.antt =====
-- internal/jobs/dispatcher.go, and the state that the service and the sweeper act on: the
-- repository, what was published, and the calls on the metrics, oldest first.
pub mod Steps
use yolo_ave_mujica.Base.{
  ℕ, pos, if◌then◌else◌, ◌==◌, Text, text_key, lit, List, [], ◌∷◌, ◌++◌, Option, none, some,
  Outcome, ok, err,
}
use yolo_ave_mujica.Jobs.Value.{Fields, Detail, int, text, texts, obj, end, field}
use yolo_ave_mujica.Jobs.Model.{Status, Error, not_found, Job}
use yolo_ave_mujica.Jobs.Repository.{InMemoryRepository, Result, get}

unfoldable pub lane_for : Text → Text
lane_for resource =
    if resource == lit "gpu"
    then lit "jobs:gpu"
    else if resource == lit "mixed"
    then lit "jobs:mixed"
    else lit "jobs:cpu"

-- A map as a nested object.
unfoldable pub fields_of : Detail → Fields
fields_of [] = end
fields_of ((k, v) ∷ m) = field k v (fields_of m)

unfoldable pub build_dispatch_payload : Job → Detail
unfolding fields_of
build_dispatch_payload job =
    (lit "job_id", int (pos job.id))
    ∷ (lit "project_id", int job.project_id)
    ∷ (lit "dataset_id", int job.dataset_id)
    ∷ (lit "snapshot_id", int job.snapshot_id)
    ∷ (lit "job_type", text job.job_type)
    ∷ (lit "resource_lane", text (lane_for job.required_resource_type))
    ∷ (lit "required_resource_type", text job.required_resource_type)
    ∷ (lit "required_capabilities", texts job.required_capabilities)
    ∷ (lit "payload", obj (fields_of job.payload))
    ∷ []

pub record PublishedItem : Type 0 where
  pub lane : Text
  pub payload : Detail

pub record InMemoryPublisher : Type 0 where
  pub last_lane : Text
  pub items : List PublishedItem

unfoldable pub in_memory_publish : PublishedItem → InMemoryPublisher → InMemoryPublisher
in_memory_publish item p = record p { last_lane = item.lane; items = p.items ++ item ∷ [] }

-- The calls on the metrics, which are a component of their own.
pub data Observation : Type 0 where
  job_created : Text → Observation
  job_completed : Text → Status → Observation
  lease_recovery : Text → Observation

pub record ServiceState : Type 0 where
  pub repo : InMemoryRepository
  pub published : List PublishedItem
  pub observed : List Observation

abbrev pub Action : Type 0 → Type 0
Action A = ServiceState → Outcome Error ServiceState A

abbrev pub with_repo : {A : Type 0} → ServiceState → Result A → Outcome Error ServiceState A
with_repo s (ok a r) = ok a (record s { repo = r })
with_repo s (err e r) = err e (record s { repo = r })

-- A call of the repository.
abbrev pub on_repo : {A : Type 0} → (InMemoryRepository → Result A) → Action A
on_repo m s = with_repo s (m s.repo)

-- A call of the repository that only reads.
abbrev pub read : {A : Type 0} → (InMemoryRepository → A) → Action A
read f s = ok (f s.repo) s

-- A job behind a pointer that the repository returned. No pointer dangles: no job is ever deleted.
abbrev pub deref : ℕ → Action Job
deref id s = elim (get id s.repo) [ none ↦ err not_found s | some job ↦ ok job s ]

abbrev pub observe : Observation → Action (Unit {0})
observe o s = ok tt (record s { observed = s.observed ++ o ∷ [] })

-- A publisher outside this code, Redis for one, by the error that it answers an item with.
abbrev pub Publisher : Type 0
Publisher = PublishedItem → Option Error

-- What a job is published as.
unfoldable pub dispatched : Job → PublishedItem
unfolding lane_for build_dispatch_payload
dispatched job = record {
  lane = lane_for job.required_resource_type;
  payload = build_dispatch_payload job;
}

-- `if s.dispatcher != nil { … Publish … }`. What was not delivered leaves no trace.
unfoldable pub publish : Option Publisher → Job → Action (Unit {0})
publish none job s = ok tt s
publish (some send) job s = elim (send (dispatched job)) [
  | none ↦ ok tt (record s { published = s.published ++ dispatched job ∷ [] })
  | some e ↦ err e s
]
