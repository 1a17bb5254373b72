-- ===== src/Tasks/Closing.antt =====
-- How a task can be closed by calls of TransitionTask (internal/tasks/service.go).
use yolo_ave_mujica.Base.{
  ℕ, pos, ◌≡◌, refl, inl, inr, true, false, text_key, text_beq, Text, sym, ◌∙◌, lit, keyword,
  trim_space, to_lower, lookup, lookup-insert_self, nat_key, nat_beq, List, [], ◌∷◌, some, state_of,
}
use yolo_ave_mujica.Tasks.Model.{
  Status, queued, ready, in_progress, blocked, submitted, reviewing, rework_required, accepted,
  published, closed, other, Kind, Task, TransitionTaskInput, is_valid_status, normalize_status,
  read_status,
}
use yolo_ave_mujica.Tasks.Flow.{is_allowed_transition}
use yolo_ave_mujica.Tasks.Repository.{InMemoryRepository, changed}
use yolo_ave_mujica.Tasks.Service.{requested, settled, target_status}
use yolo_ave_mujica.Tasks.Transition.{transition_task_lem}
use yolo_ave_mujica.Tasks.History.{Call, transitions, step, run}

-- The text of the statuses that lead to the end.
abbrev pub text_of : Status → Text
text_of ready = lit "ready"
text_of in_progress = lit "in_progress"
text_of reviewing = lit "reviewing"
text_of accepted = lit "accepted"
text_of published = lit "published"
text_of closed = lit "closed"
text_of _ = []

-- The way from a status to closed.
abbrev pub way : Status → List Status
way queued = ready ∷ in_progress ∷ closed ∷ []
way ready = in_progress ∷ closed ∷ []
way in_progress = closed ∷ []
way blocked = in_progress ∷ closed ∷ []
way submitted = reviewing ∷ accepted ∷ published ∷ closed ∷ []
way reviewing = accepted ∷ published ∷ closed ∷ []
way rework_required = in_progress ∷ closed ∷ []
way accepted = published ∷ closed ∷ []
way published = closed ∷ []
way _ = []

abbrev pub ask : Status → TransitionTaskInput
ask s = record { status = text_of s; blocker_reason = []; last_activity_at = 0 }

-- The calls along the way, all at one time.
unfoldable pub closing : ℕ → ℕ → List Status → List (ℕ × Call)
closing id now [] = []
closing id now (s ∷ ss) = (now, transitions (pos id) (ask s)) ∷ closing id now ss

-- Each status of the way is what its text asks for.
pub data OnWay : Status → Type 0 where
  to_ready : OnWay ready
  to_in_progress : OnWay in_progress
  to_reviewing : OnWay reviewing
  to_accepted : OnWay accepted
  to_published : OnWay published
  to_closed : OnWay closed

target_status-OnWay : (s : Status) (kind : Kind) → OnWay s → target_status kind (text_of s) ≡ s
unfolding target_status normalize_status read_status keyword trim_space to_lower lit text_beq
target_status-OnWay s kind to_ready = refl
target_status-OnWay s kind to_in_progress = refl
target_status-OnWay s kind to_reviewing = refl
target_status-OnWay s kind to_accepted = refl
target_status-OnWay s kind to_published = refl
target_status-OnWay s kind to_closed = refl

not_blocked : (s : Status) → OnWay s → ¬ (s ≡ blocked)
not_blocked s to_ready e = cc
not_blocked s to_in_progress e = cc
not_blocked s to_reviewing e = cc
not_blocked s to_accepted e = cc
not_blocked s to_published e = cc
not_blocked s to_closed e = cc

moves :
    (id now : ℕ) (r : InMemoryRepository) (t : Task) (s : Status)
    → nat_beq id 0 ≡ false
    → lookup id r.by_id ≡ some t
    → is_allowed_transition t.status s ≡ true
    → OnWay s
    → (u : Task) × (lookup id (step (now, transitions (pos id) (ask s)) r).by_id ≡ some u)
      × (u.status ≡ s)
unfolding step requested changed settled
moves id now r t s nonzero at allowed on =
    let e = target_status-OnWay s t.kind on in
    elim (transition_task_lem id (ask s) now r t nonzero at) [
      | inl (_, h) ↦ (
        changed (settled (requested t (ask s) now)) now t,
        rw (h, state_of) (lookup-insert_self id _ r.by_id),
        e,
      )
      | inr (refused, _, _) ↦
          elim (refused (record {
            allowed = rw e allowed;
            reasoned = λ b. elim (not_blocked s on (sym e ∙ b)) [ ];
          })) [ ]
    ]

-- A way along the table that ends at closed.
pub data Walk : Status → List Status → Type 0 where
  done : Walk closed []
  next :
      {s t : Status} {ss : List Status}
      → is_allowed_transition s t ≡ true
      → OnWay t
      → Walk t ss
      → Walk s (t ∷ ss)

walks :
    (id now : ℕ) (r : InMemoryRepository) (t : Task) (s : Status) (ss : List Status)
    → nat_beq id 0 ≡ false
    → lookup id r.by_id ≡ some t
    → t.status ≡ s
    → Walk s ss
    → (u : Task) × (lookup id (run (closing id now ss) r).by_id ≡ some u) × (u.status ≡ closed)
unfolding run closing
walks id now r t s ss nonzero at e done = (t, at, e)
walks id now r t s (s' ∷ ss) nonzero at e (next allowed on w) =
    let (u, at', e') = moves id now r t s' nonzero at (rw e allowed) on in
    walks id now (step (now, transitions (pos id) (ask s')) r) u s' ss nonzero at' e' w

way-Walk : (s : Status) → is_valid_status s ≡ true → Walk s (way s)
unfolding is_allowed_transition
way-Walk queued h = next refl to_ready (next refl to_in_progress (next refl to_closed done))
way-Walk ready h = next refl to_in_progress (next refl to_closed done)
way-Walk in_progress h = next refl to_closed done
way-Walk blocked h = next refl to_in_progress (next refl to_closed done)
way-Walk submitted h =
    next refl to_reviewing
      (next refl to_accepted (next refl to_published (next refl to_closed done)))
way-Walk reviewing h = next refl to_accepted (next refl to_published (next refl to_closed done))
way-Walk rework_required h = next refl to_in_progress (next refl to_closed done)
way-Walk accepted h = next refl to_published (next refl to_closed done)
way-Walk published h = next refl to_closed done
way-Walk closed h = done
way-Walk (other t) h = cc

-- Every task with a known status that is stored under a positive id can be closed, whatever its kind: the calls of TransitionTask
-- along the way from its status, made one after the other, leave it closed.
pub closing_lem :
    (id now : ℕ) (r : InMemoryRepository) (t : Task)
    → nat_beq id 0 ≡ false
    → lookup id r.by_id ≡ some t
    → is_valid_status t.status ≡ true
    → (u : Task) × (lookup id (run (closing id now (way t.status)) r).by_id ≡ some u)
      × (u.status ≡ closed)
closing_lem id now r t nonzero at known =
    walks id now r t t.status (way t.status) nonzero at refl (way-Walk t.status known)
