-- ===== src/Jobs/Invariant/Changes.antt =====
-- The changes of status that each call of the job service and of the sweeper (internal/jobs/service.go,
-- sweeper.go) may make.
use yolo_ave_mujica.Base.{
  ℕ, ℤ, ◌≡◌, refl, ◌∙◌, ◌⊎◌, inl, inr, Bool, true, false, not, ◌||◌, ◌==◌, is_empty, Text, Option,
  none, ◌>>=◌, Option-cases, Bool-cases, nat_key, value, state_of, arith, if◌then◌else◌, List, [],
  ◌∷◌,
}
use yolo_ave_mujica.Jobs.Value.{Detail}
use yolo_ave_mujica.Jobs.Model.{
  Status, is_final, queued, running, failed, retry_waiting, status_key, Job, Error, validation,
  RegisterWorkerInput, Event,
}
use yolo_ave_mujica.Jobs.StateMachine.{can_transition, transitions}
use yolo_ave_mujica.Jobs.Repository.{
  Counters, guarded, set_status, claim_job, set_counters, start_job, progress_job, effective_status,
  complete_job, update_job, store_result, get, update_status, claim, touch_lease, update_progress,
  complete, increment_retry_count, mark_retry_waiting, mark_failed, store_result_ref,
  list_retry_ready, list_expired_running,
}
use yolo_ave_mujica.Jobs.EventLog.{list_events}
use yolo_ave_mujica.Jobs.Dispatcher.{Publisher, read}
use yolo_ave_mujica.Jobs.Sweeper.{
  Sweeper, requeue, give_up, retry_later, expire_job, expire, for_each, tick,
}
use yolo_ave_mujica.Jobs.Service.{Service, announce, submitted, resolved, register_worker, get_job}
use yolo_ave_mujica.Jobs.Reports.{
  extend_lease, heartbeat, progress, report_heartbeat, report_progress, store_typed, record_event,
  report_event, finish, report_terminal, has_negative,
}
use yolo_ave_mujica.Jobs.Invariant.Moves.{
  IsOrder, RepoMoves, Moves, Moves-then, Moves-bind, Moves-on_repo, Moves-ok, Moves-err,
  Moves-attempt, Moves-if, Moves-refuse_if, Moves-deref, Moves-read, Moves-observe, Moves-publish,
  Moves-append, Moves-log, Moves-refuse, upsert_worker-RepoMoves, written-Follows,
  update_job-RepoMoves, Moves-for_each,
}

abbrev pub Same : Status → Status → Type 0
Same s t = t ≡ s

-- A queued job starts.
abbrev pub Starts : Status → Status → Type 0
Starts s t = (t ≡ s) ⊎ ((s ≡ queued) × (t ≡ running))

abbrev pub is_live : Status → Bool
is_live s = (s == queued) || (s == running) || (s == retry_waiting)

-- A job that has not ended ends with the status `to`.
abbrev pub Ends : Status → Status → Status → Type 0
Ends to s t = (t ≡ s) ⊎ ((is_live s ≡ true) × (is_final to ≡ true) × (t ≡ to))

-- A job that waits for a retry is queued.
abbrev pub Requeues : Status → Status → Type 0
Requeues s t = (t ≡ s) ⊎ ((s ≡ retry_waiting) × (t ≡ queued))

-- A running job waits for a retry or fails.
abbrev pub Expires : Status → Status → Type 0
Expires s t = (t ≡ s) ⊎ ((s ≡ running) × ((t ≡ retry_waiting) ⊎ (t ≡ failed)))

abbrev pub Sweeps : Status → Status → Type 0
Sweeps s t = Requeues s t ⊎ Expires s t

pub Same-IsOrder : IsOrder Same
Same-IsOrder = record { same = λ s. refl; compose = λ s t u p q. q ∙ p }

Starts-IsOrder : IsOrder Starts
Starts-IsOrder = record { same = λ s. inl refl; compose = λ s t u p q. ground arith }

Ends-IsOrder : (to : Status) → IsOrder (Ends to)
Ends-IsOrder to = record { same = λ s. inl refl; compose = λ s t u p q. ground arith }

Requeues-IsOrder : IsOrder Requeues
Requeues-IsOrder = record { same = λ s. inl refl; compose = λ s t u p q. ground arith }

Expires-IsOrder : IsOrder Expires
Expires-IsOrder = record { same = λ s. inl refl; compose = λ s t u p q. ground arith }

-- A job that was queued by the first loop of a tick is not touched by the second.
Sweeps-compose : (s t u : Status) → Requeues s t → Expires t u → Sweeps s u
Sweeps-compose s t u p q = ground arith

module _ (R : Status → Status → Type 0) (order : IsOrder R) where
  pure-Moves :
      (id : ℕ) (f : Job → Job)
      → ((j : Job) → R j.status (f j).status)
      → RepoMoves R (update_job id (λ j. value (f j)))
  pure-Moves id f steps =
      update_job-RepoMoves R order id (λ j. value (f j))
        λ j k h. let e : k ≡ f j = ground arith in rw e (steps j)

  guarded-Moves :
      (id : ℕ) (test : Job → Option Error) (f : Job → Job)
      → ((j : Job) → test j ≡ none → R j.status (f j).status)
      → RepoMoves R (update_job id (λ j. guarded (test j) (f j)))
  unfolding guarded
  guarded-Moves id test f steps =
      update_job-RepoMoves R order id (λ j. guarded (test j) (f j))
        λ j k h. let e : k ≡ f j = ground arith in rw e (steps j (ground arith))

  store_result-status : (ref : Detail) (j : Job) → (store_result ref j).status ≡ j.status
  unfolding store_result
  store_result-status [] j = refl
  store_result-status (e ∷ es) j = refl

  store_result_ref-Moves : (id : ℕ) (ref : Detail) → RepoMoves R (store_result_ref id ref)
  unfolding store_result_ref
  store_result_ref-Moves id ref =
      pure-Moves id (store_result ref) λ j. rw (store_result-status ref j) (order.same j.status)

  touch_lease-Moves : (id : ℕ) (w : Text) (lease : ℕ) → RepoMoves R (touch_lease id w lease)
  unfolding touch_lease
  touch_lease-Moves id w lease = pure-Moves id _ λ j. order.same j.status

  increment_retry_count-Moves : (id : ℕ) → RepoMoves R (increment_retry_count id)
  unfolding increment_retry_count
  increment_retry_count-Moves id = pure-Moves id _ λ j. order.same j.status

-- What the state machine accepts.
accepted_queued : (s : Status) → can_transition s queued ≡ none → Requeues s queued
unfolding can_transition transitions
accepted_queued s h = ground arith

accepted_running : (s : Status) → can_transition s running ≡ none → Starts s running
unfolding can_transition transitions
accepted_running s h = ground arith

accepted_waiting : (s : Status) → can_transition s retry_waiting ≡ none → Expires s retry_waiting
unfolding can_transition transitions
accepted_waiting s h = ground arith

accepted_failed : (s : Status) → can_transition s failed ≡ none → Expires s failed
unfolding can_transition transitions
accepted_failed s h = ground arith

accepted_final :
    (s to : Status)
    → is_final to ≡ true
    → can_transition (effective_status s) to ≡ none
    → Ends to s to
unfolding can_transition transitions effective_status
accepted_final s to final h = ground arith

claim-status : (s : Status) → Starts s (if s == queued then running else s)
claim-status s = ground arith

claim-Moves : (id : ℕ) (w : Text) (lease now : ℕ) → RepoMoves Starts (claim id w lease now)
unfolding claim claim_job
claim-Moves id w lease now =
    pure-Moves Starts Starts-IsOrder id (claim_job w lease now) λ j. claim-status j.status

progress_job-status :
    (w : Text) (c : Counters) (now : ℕ) (j k : Job)
    → progress_job w c now j ≡ value k
    → Starts j.status k.status
unfolding progress_job set_counters start_job
progress_job-status w c now j k h = elim (Bool-cases (j.status == running)) [
  | inl e ↦ let f : k ≡ set_counters w c j = ground arith in rw f (inl refl)
  | inr e ↦
      let f : k ≡ set_counters w c (start_job now j) = ground arith in
      rw f (accepted_running j.status (ground arith))
]

update_progress-Moves :
    (id : ℕ) (w : Text) (c : Counters) (now : ℕ) → RepoMoves Starts (update_progress id w c now)
unfolding update_progress
update_progress-Moves id w c now =
    update_job-RepoMoves Starts Starts-IsOrder id (progress_job w c now)
      (progress_job-status w c now)

requeue_status-Moves : (id now : ℕ) → RepoMoves Requeues (update_status id queued now)
unfolding update_status set_status
requeue_status-Moves id now =
    guarded-Moves Requeues Requeues-IsOrder id (λ j. can_transition j.status queued)
      (set_status queued now) λ j h. accepted_queued j.status h

mark_retry_waiting-Moves : (id at : ℕ) → RepoMoves Expires (mark_retry_waiting id at)
unfolding mark_retry_waiting
mark_retry_waiting-Moves id at =
    guarded-Moves Expires Expires-IsOrder id (λ j. can_transition j.status retry_waiting) _
      λ j h. accepted_waiting j.status h

mark_failed-Moves :
    (id : ℕ) (code msg : Text) (now : ℕ) → RepoMoves Expires (mark_failed id code msg now)
unfolding mark_failed
mark_failed-Moves id code msg now =
    guarded-Moves Expires Expires-IsOrder id (λ j. can_transition j.status failed) _
      λ j h. accepted_failed j.status h

complete-Moves :
    (id : ℕ) (w : Text) (to : Status) (c : Counters) (now : ℕ)
    → is_final to ≡ true
    → RepoMoves (Ends to) (complete id w to c now)
unfolding complete complete_job set_counters
complete-Moves id w to c now final =
    guarded-Moves (Ends to) (Ends-IsOrder to) id
      (λ j. can_transition (effective_status j.status) to) _
      λ j h. accepted_final j.status to final h

ruleset moving = (
  Moves-bind, Moves-on_repo, Moves-ok, Moves-err, Moves-attempt, Moves-if, Moves-deref,
  Moves-observe, Moves-publish, Moves-append, Same-IsOrder, Starts-IsOrder, Ends-IsOrder,
  Requeues-IsOrder, Expires-IsOrder,
)

requeue-Moves : (d : Option Publisher) (clock id : ℕ) → Moves Requeues (requeue d clock id)
unfolding requeue
requeue-Moves d clock id = search (moving, requeue_status-Moves) depth 12

give_up-Moves :
    (job : Job) (reason : Text) (more : Detail) (clock id : ℕ)
    → Moves Expires (give_up job reason more clock id)
unfolding give_up
give_up-Moves job reason more clock id = search (moving, Moves-log, mark_failed-Moves) depth 12

retry_later-Moves :
    (backoff now clock : ℕ) (job : Job) (id : ℕ)
    → Moves Expires (retry_later backoff now clock job id)
unfolding retry_later
retry_later-Moves backoff now clock job id =
    search (moving, mark_retry_waiting-Moves, increment_retry_count-Moves) depth 12

expire-Moves : (s : Sweeper) (now clock id : ℕ) → Moves Expires (expire s now clock id)
unfolding expire expire_job
expire-Moves s now clock id = search (moving, give_up-Moves, retry_later-Moves) depth 12

extend_lease-Moves :
    (id : ℕ) (w : Text) (lease now : ℕ) (job : Job) → Moves Starts (extend_lease id w lease now job)
unfolding extend_lease
extend_lease-Moves id w lease now job = search (moving, touch_lease-Moves, claim-Moves) depth 12

heartbeat-Moves : (id : ℕ) (w : Text) (seconds now : ℕ) → Moves Starts (heartbeat id w seconds now)
unfolding heartbeat
heartbeat-Moves id w seconds now = search (moving, Moves-log, extend_lease-Moves) depth 12

progress-Moves : (id : ℕ) (w : Text) (c : Counters) (now : ℕ) → Moves Starts (progress id w c now)
unfolding progress
progress-Moves id w c now = search (moving, Moves-log, update_progress-Moves) depth 12

store_typed-Moves : (id : ℕ) (d : Detail) → Moves Same (store_typed id d)
unfolding store_typed
store_typed-Moves id d = search (moving, store_result_ref-Moves) depth 12

record_event-Moves :
    (svc : Service) (id : ℕ) (item : Option ℤ) (level typ message : Text) (d : Detail) (now : ℕ)
    → Moves Same (record_event svc id item level typ message d now)
unfolding record_event
record_event-Moves svc id item level typ message d now = search (moving, store_typed-Moves) depth 12

finish-Moves :
    (id : ℕ) (w : Text) (to : Status) (c : Counters) (ref : Detail) (now : ℕ)
    → is_final to ≡ true
    → Moves (Ends to) (finish id w to c ref now)
unfolding finish
finish-Moves id w to c ref now final =
    search (moving, complete-Moves, store_result_ref-Moves) depth 12

pub report_heartbeat-Moves :
    (id : ℕ) (w : Text) (seconds : ℤ) (now : ℕ) → Moves Starts (report_heartbeat id w seconds now)
unfolding report_heartbeat
report_heartbeat-Moves id w seconds now = search (Moves-refuse, Starts-IsOrder, heartbeat-Moves)

pub report_progress-Moves :
    (id : ℕ) (w : Text) (c : Counters) (now : ℕ) → Moves Starts (report_progress id w c now)
unfolding report_progress
report_progress-Moves id w c now = search (Moves-refuse, Starts-IsOrder, progress-Moves)

pub report_event-Moves :
    (svc : Service) (id : ℕ) (item : Option ℤ) (level typ message : Text) (d : Detail) (now : ℕ)
    → Moves Same (report_event svc id item level typ message d now)
unfolding report_event
report_event-Moves svc id item level typ message d now =
    search (Moves-refuse, Same-IsOrder, record_event-Moves) depth 12

pub report_terminal-Moves :
    (id : ℕ) (w : Text) (to : Status) (c : Counters) (ref : Detail) (now : ℕ)
    → Moves (Ends to) (report_terminal id w to c ref now)
unfolding report_terminal
report_terminal-Moves id w to c ref now =
    Moves-refuse_if (Ends to) (Ends-IsOrder to) (is_empty w) validation _ λ a.
      Moves-refuse_if (Ends to) (Ends-IsOrder to) (not (is_final to)) validation _ λ b.
        Moves-refuse_if (Ends to) (Ends-IsOrder to) (has_negative c) validation _
          λ e. finish-Moves id w to c ref now (ground arith)

expired-Moves :
    (s : Sweeper) (now clock : ℕ)
    → Moves Expires (read (list_expired_running now) >>= λ ids. for_each (expire s now clock) ids)
expired-Moves s now clock =
    Moves-bind Expires Expires-IsOrder (read (list_expired_running now))
      (λ ids. for_each (expire s now clock) ids)
      (Moves-read Expires Expires-IsOrder (list_expired_running now))
      λ ids. Moves-for_each Expires Expires-IsOrder _ ids (expire-Moves s now clock)

pub tick-Moves :
    (s : Sweeper) (d : Option Publisher) (now clock : ℕ) → Moves Sweeps (tick s d now clock)
unfolding tick
tick-Moves s d now clock =
    Moves-then Same Sweeps Sweeps (λ a b h. inl (inl h)) (λ a b c p q. rw (← p) q)
      (read (list_retry_ready now)) _ (Moves-read Same Same-IsOrder (list_retry_ready now))
      λ ready.
        Moves-then Requeues Expires Sweeps (λ a b h. inl h) Sweeps-compose
          (for_each (requeue d clock) ready) _
          (Moves-for_each Requeues Requeues-IsOrder _ ready (requeue-Moves d clock))
          λ x. expired-Moves s now clock

announce-Moves : (d : Option Publisher) (now id : ℕ) → Moves Same (announce d now id)
unfolding announce
announce-Moves d now id = search moving depth 12

pub submitted-Moves :
    (d : Option Publisher) (now : ℕ) (p : ℕ × Bool) → Moves Same (submitted d now p)
unfolding submitted
submitted-Moves d now (id, true) = announce-Moves d now id
submitted-Moves d now (id, false) = Moves-ok Same Same-IsOrder id

pub register_worker-Moves : (i : RegisterWorkerInput) (now : ℕ) → Moves Same (register_worker i now)
unfolding register_worker
register_worker-Moves i now = search (moving, upsert_worker-RepoMoves) depth 12

resolved-status : (j : Job) (es : List Event) → (resolved j es).status ≡ j.status
unfolding resolved
resolved-status j es = ground arith

pub get_job-Moves : (id : ℕ) → Moves Same (get_job id)
unfolding get_job
get_job-Moves id = record {
  follows = λ s. elim (Option-cases (get id s.repo)) [
    | inl e ↦ rw (e, state_of) (λ i j at. (j, at, refl))
    | inr (j, e) ↦
        let k = resolved j (list_events id s.repo) in
        rw (e, state_of)
          (written-Follows Same Same-IsOrder s.repo id j k (unfold get in e)
            (resolved-status j (list_events id s.repo)))
  ];
}
