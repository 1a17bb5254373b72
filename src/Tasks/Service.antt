-- ===== src/Tasks/Service.antt =====
-- The Service of internal/tasks/service.go over the in-memory repository. The time is read once in
-- a call. A stored status or kind is normalised, so reading it again changes nothing.
use yolo_ave_mujica.Base.{
  ℕ, ℤ, not_positive, is_negative, to_nat, nat_beq, Bool, true, false, not, ◌&&◌, if◌then◌else◌,
  ◌==◌, Text, text_key, is_empty, lit, trim_space, keyword, List, [], ◌∷◌, Option, none, some,
  String, err, Try, value, fault, attempt, check, ◌>>=◌, ◌>>◌,
}
use yolo_ave_mujica.Tasks.Model.{
  Status, closed, blocked, submitted, normalize_status, read_status, is_valid_status, Kind,
  annotation, normalize_kind, read_kind, is_valid_kind, MediaKind, unset, normalize_media_kind,
  is_valid_media_kind, normalize_priority, read_priority, is_valid_priority, Task, CreateTaskInput,
  TransitionTaskInput, ListTasksFilter, Error, plain,
}
use yolo_ave_mujica.Tasks.Equality.{status_key, kind_key}
use yolo_ave_mujica.Tasks.Flow.{is_allowed_transition}
use yolo_ave_mujica.Tasks.Repository.{
  Action, insert_task, find_task, Change, change_task, Filter, find_tasks,
}

-- A chain of `if … { return …, fmt.Errorf(…) }`; the messages keep no values.
abbrev pub first_error : List (Bool × String) → Option Error
first_error [] = none
first_error ((true, message) ∷ checks) = some (plain message)
first_error ((false, message) ∷ checks) = first_error checks

-- `p != nil && test(*p)`.
abbrev pub given : {A : Type 0} → (A → Bool) → Option A → Bool
given test none = false
given test (some a) = test a

-- `if t.IsZero() { t = time.Now() }`.
abbrev pub time_or : ℕ → ℕ → ℕ
time_or now t = if nat_beq t 0 then now else t

abbrev pub is_unset : MediaKind → Bool
is_unset unset = true
is_unset _ = false

-- The assignments to the input in CreateTask, as the fields of the new task; the repository sets
-- the fields that are 0 here.
unfoldable pub normalize_task : CreateTaskInput → ℕ → Task
unfolding trim_space normalize_kind normalize_media_kind normalize_status normalize_priority
normalize_task i now = record {
  id = 0;
  project_id = i.project_id;
  snapshot_id = i.snapshot_id;
  title = trim_space i.title;
  kind = normalize_kind i.kind;
  asset_object_key = trim_space i.asset_object_key;
  media_kind = normalize_media_kind i.media_kind;
  frame_index = i.frame_index;
  ontology_version =
      if is_empty (trim_space i.ontology_version) then lit "v1" else trim_space i.ontology_version;
  status = normalize_status i.status;
  priority = normalize_priority i.priority;
  assignee = trim_space i.assignee;
  due_at = i.due_at;
  blocker_reason = trim_space i.blocker_reason;
  last_activity_at = time_or now i.last_activity_at;
  created_at = 0;
  updated_at = 0;
}

-- The tests of CreateTask, in their order.
unfoldable pub refusal : Task → Option Error
refusal t = first_error (
    (not_positive t.project_id, "project_id must be > 0")
    ∷ (given not_positive t.snapshot_id, "snapshot_id must be > 0 when provided")
    ∷ (is_empty t.title, "title is required")
    ∷ (
      t.status == blocked && is_empty t.blocker_reason,
      "blocker_reason is required when status is blocked",
    )
    ∷ (not (is_valid_kind t.kind), "invalid kind")
    ∷ (
      t.kind == annotation && is_empty t.asset_object_key,
      "asset_object_key is required for annotation tasks",
    )
    ∷ (
      t.kind == annotation && not (is_valid_media_kind t.media_kind),
      "media_kind is required for annotation tasks",
    )
    ∷ (not (is_unset t.media_kind) && not (is_valid_media_kind t.media_kind), "invalid media_kind")
    ∷ (given is_negative t.frame_index, "frame_index must be >= 0 when provided")
    ∷ (not (is_valid_status t.status), "invalid status")
    ∷ (not (is_valid_priority t.priority), "invalid priority")
    ∷ [])

unfoldable pub create_task : CreateTaskInput → ℕ → Action Task
unfolding refusal normalize_task
create_task i now = check (refusal (normalize_task i now)) >> insert_task (normalize_task i now) now

unfoldable pub get_task : ℤ → Action Task
get_task id = if not_positive id then err (plain "task_id must be > 0") else find_task (to_nat id)

-- The status asked for: "done" stands for the end of the work on a task of this kind.
unfoldable pub target_status : Kind → Text → Status
unfolding keyword normalize_status
target_status kind raw =
    if keyword raw == lit "done"
    then (if kind == annotation then submitted else closed)
    else normalize_status raw

unfoldable pub requested : Task → TransitionTaskInput → ℕ → Change
unfolding target_status trim_space
requested current i now = record {
  status = target_status current.kind i.status;
  blocker_reason = trim_space i.blocker_reason;
  last_activity_at = time_or now i.last_activity_at;
}

unfoldable pub change_refusal : Status → Change → Option Error
change_refusal from c = first_error (
    (not (is_valid_status c.status), "invalid status")
    ∷ (not (is_allowed_transition from c.status), "invalid status transition")
    ∷ (
      c.status == blocked && is_empty c.blocker_reason,
      "blocker_reason is required when status is blocked",
    )
    ∷ [])

-- Only a blocked task keeps a reason.
unfoldable pub settled : Change → Change
settled c = record c { blocker_reason = if c.status == blocked then c.blocker_reason else [] }

unfoldable pub transition_task : ℤ → TransitionTaskInput → ℕ → Action Task
unfolding requested change_refusal settled get_task
transition_task id i now = do
  current ← get_task id
  check (change_refusal current.status (requested current i now))
  change_task (to_nat id) (settled (requested current i now)) now

-- A keyword of a filter, or none if it is empty.
abbrev pub optional : {A : Type 0} → (Text → A) → Text → Option A
optional read t = if is_empty t then none else some (read t)

abbrev pub filter_status : Text → Status
filter_status t = if t == lit "done" then closed else read_status t

unfoldable pub normalize_filter : ListTasksFilter → Try Error Filter
unfolding keyword trim_space
normalize_filter f =
    let status = optional filter_status (keyword f.status) in
    let kind = optional read_kind (keyword f.kind) in
    let priority = optional read_priority (keyword f.priority) in
    elim (first_error (
      (given (λ s. not (is_valid_status s)) status, "invalid status")
      ∷ (given (λ k. not (is_valid_kind k)) kind, "invalid kind")
      ∷ (given (λ p. not (is_valid_priority p)) priority, "invalid priority")
      ∷ (given not_positive f.snapshot_id, "snapshot_id must be > 0 when provided")
      ∷ [])) [
        | some e ↦ fault e
        | none ↦ value (record {
          status = status;
          kind = kind;
          assignee = trim_space f.assignee;
          priority = priority;
          snapshot_id = f.snapshot_id;
        })
      ]

unfoldable pub list_tasks : ℤ → ListTasksFilter → Action (List Task)
unfolding normalize_filter
list_tasks project f =
    if not_positive project
    then err (plain "project_id must be > 0")
    else attempt (normalize_filter f) >>= find_tasks project
