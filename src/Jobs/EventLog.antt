-- ===== src/Jobs/EventLog.antt =====
-- The event log and the worker registry of InMemoryRepository (internal/jobs/repository.go).
use yolo_ave_mujica.Base.{
  ℕ, ℤ, suc, Text, text_key, nat_key, lookup, insert, values, List, [], ◌∷◌, ◌++◌, Option, none,
  some, text_ltb, sort, ok, err,
}
use yolo_ave_mujica.Jobs.Value.{Detail}
use yolo_ave_mujica.Jobs.Model.{not_found, Worker, RegisterWorkerInput, Event}
use yolo_ave_mujica.Jobs.Repository.{InMemoryRepository, Result}

-- What a caller says of an event.
pub record EventInput : Type 0 where
  pub item_id : Option ℤ
  pub level : Text
  pub typ : Text
  pub message : Text
  pub detail : Detail

-- `r.events[jobID]`, nil where the key is missing.
unfoldable pub list_events : ℕ → InMemoryRepository → List Event
list_events id r = elim (lookup id r.events) [ none ↦ [] | some es ↦ es ]

unfoldable pub new_event : ℕ → ℕ → EventInput → ℕ → Event
new_event id job_id i now = record {
  id = id;
  job_id = job_id;
  item_id = i.item_id;
  event_level = i.level;
  event_type = i.typ;
  message = i.message;
  detail = i.detail;
  ts = now;
}

unfoldable pub append_event : ℕ → EventInput → ℕ → InMemoryRepository → Result Event
unfolding list_events new_event
append_event job_id i now r = elim (lookup job_id r.by_id) [
  | none ↦ err not_found r
  | some job ↦
      let ev = new_event r.next_event job_id i now in
      ok ev (record r {
        next_event = suc r.next_event;
        events = insert job_id (list_events job_id r ++ ev ∷ []) r.events;
      })
]

unfoldable pub registered : RegisterWorkerInput → ℕ → Option Worker → Worker
registered i now none = record {
  worker_id = i.worker_id;
  resource_lane = i.resource_lane;
  capabilities = i.capabilities;
  job_types = i.job_types;
  registered_at = now;
  last_seen_at = now;
}
registered i now (some worker) = record worker {
  resource_lane = i.resource_lane;
  capabilities = i.capabilities;
  job_types = i.job_types;
  last_seen_at = now;
}

unfoldable pub upsert_worker : RegisterWorkerInput → ℕ → InMemoryRepository → Result Worker
unfolding registered
upsert_worker i now r =
    let worker = registered i now (lookup i.worker_id r.workers) in
    ok worker (record r { workers = insert i.worker_id worker r.workers })

unfoldable pub list_workers : InMemoryRepository → List Worker
list_workers r = sort (λ v w. text_ltb v.worker_id w.worker_id) (values r.workers)
