-- ===== src/Annotations/Repository.antt =====
-- InMemoryRepository of internal/annotations/in_memory_repository.go; each method is one step under
-- the lock. `encode` is a round trip through encoding/json, none where it fails.
use yolo_ave_mujica.Base.{
  ℕ, suc, ℤ, to_nat, not_positive, int_key, nat_beq, Bool, true, false, not, ◌&&◌, ◌||◌,
  if◌then◌else◌, ◌==◌, Text, text_key, nat_key, Map, lookup, insert, [], Option, none, some,
  Outcome, ok, err,
}
use yolo_ave_mujica.Jobs.Value.{Detail}
use yolo_ave_mujica.Annotations.Model.{
  State, draft, submitted, Annotation, SaveDraftInput, Error, not_found, conflict, validation,
  plain,
}

pub record TaskContext : Type 0 where
  pub snapshot_id : ℤ
  pub asset_object_key : Text
  pub frame_index : Option ℤ
  pub ontology_version : Text

pub record InMemoryRepository : Type 0 where
  pub next_id : ℕ
  pub by_task : Map ℕ Annotation
  pub contexts : Map ℕ TaskContext

unfoldable pub new_in_memory_repository : InMemoryRepository
new_in_memory_repository = record { next_id = 1; by_task = []; contexts = [] }

abbrev pub Action : Type 0 → Type 0
Action A = InMemoryRepository → Outcome Error InMemoryRepository A

-- The comparison of two `*int`.
abbrev pub same_frame : Option ℤ → Option ℤ → Bool
same_frame none none = true
same_frame (some a) (some b) = a == b
same_frame _ _ = false

-- sameAnnotationContextInMemory and sameAnnotationContextFromTaskContext.
unfoldable pub same_context : Annotation → SaveDraftInput → Bool
same_context a i =
    a.snapshot_id == i.snapshot_id
    && a.asset_object_key == i.asset_object_key
    && a.ontology_version == i.ontology_version
    && same_frame a.frame_index i.frame_index

unfoldable pub same_task_context : TaskContext → SaveDraftInput → Bool
same_task_context c i =
    c.snapshot_id == i.snapshot_id
    && c.asset_object_key == i.asset_object_key
    && c.ontology_version == i.ontology_version
    && same_frame c.frame_index i.frame_index

unfoldable pub seed_task_context : ℕ → TaskContext → InMemoryRepository → InMemoryRepository
seed_task_context id c r = record r { contexts = insert id c r.contexts }

unfoldable pub is_submitted : State → Bool
is_submitted draft = false
is_submitted submitted = true

-- `in.BaseRevision > 0 && existing.Revision != in.BaseRevision`.
unfoldable pub is_stale : ℤ → Annotation → Bool
is_stale base a = not (not_positive base) && not (nat_beq a.revision (to_nat base))

unfoldable pub new_draft : ℕ → SaveDraftInput → Detail → ℕ → Annotation
new_draft id i body now = record {
  id = id;
  task_id = to_nat i.task_id;
  snapshot_id = i.snapshot_id;
  asset_object_key = i.asset_object_key;
  frame_index = i.frame_index;
  ontology_version = i.ontology_version;
  state = draft;
  revision = 1;
  body = body;
  submitted_by = [];
  submitted_at = none;
  created_at = now;
  updated_at = now;
}

unfoldable pub redrafted : Detail → ℕ → Annotation → Annotation
redrafted body now a = record a {
  state = draft;
  revision = suc a.revision;
  body = body;
  submitted_by = [];
  submitted_at = none;
  updated_at = now;
}

unfoldable pub handed_in : Text → ℕ → Annotation → Annotation
handed_in actor now a = record a {
  state = submitted;
  revision = suc a.revision;
  submitted_by = actor;
  submitted_at = some now;
  updated_at = now;
}

module _ (encode : Detail → Option Detail) where
  abbrev pub or_empty : Option Detail → Detail
  or_empty none = []
  or_empty (some d) = d

  unfoldable pub clone_annotation : Annotation → Annotation
  clone_annotation a = record a { body = or_empty (encode a.body) }

  -- `r.byTaskID[taskID] = cloneAnnotation(a); return cloneAnnotation(a), nil`.
  abbrev pub put : ℕ → Annotation → Action Annotation
  put id a r =
      ok (clone_annotation a) (record r { by_task = insert id (clone_annotation a) r.by_task })

  -- SaveDraft with the context of the task and the body, where the task has no annotation and where it
  -- has one.
  unfoldable pub save_first : TaskContext → Detail → SaveDraftInput → ℕ → Action Annotation
  unfolding same_task_context new_draft clone_annotation
  save_first c body i now r =
      if not (same_task_context c i)
      then err (validation "annotation context mismatch") r
      else put (to_nat i.task_id) (new_draft r.next_id i body now)
          (record r { next_id = suc r.next_id })

  unfoldable pub save_next :
      Annotation → TaskContext → Detail → SaveDraftInput → ℕ → Action Annotation
  unfolding is_stale is_submitted same_context same_task_context redrafted clone_annotation
  save_next a c body i now r =
      if is_stale i.base_revision a
      then err (conflict "revision mismatch") r
      else if is_submitted a.state
      then err (conflict "annotation is already submitted") r
      else if not (same_context a i) || not (same_task_context c i)
      then err (validation "annotation context mismatch") r
      else put (to_nat i.task_id) (redrafted body now a) r

  unfoldable pub write_draft : SaveDraftInput → ℕ → Action Annotation
  unfolding save_first save_next
  write_draft i now r = elim (lookup (to_nat i.task_id) r.contexts) [
    | none ↦ err not_found r
    | some c ↦ elim (encode i.body) [
      | none ↦ err (plain "encode body_json") r
      | some body ↦ elim (lookup (to_nat i.task_id) r.by_task) [
        | none ↦ save_first c body i now r
        | some a ↦ save_next a c body i now r
      ]
    ]
  ]

  unfoldable pub hand_in : ℕ → Text → ℕ → Action Annotation
  unfolding is_submitted handed_in clone_annotation
  hand_in id actor now r = elim (lookup id r.by_task) [
    | none ↦ err not_found r
    | some a ↦
        if is_submitted a.state then ok (clone_annotation a) r else put id (handed_in actor now a) r
  ]

  unfoldable pub find_by_task : ℕ → Action Annotation
  unfolding clone_annotation
  find_by_task id r = elim (lookup id r.by_task) [
    | none ↦ err not_found r
    | some a ↦ ok (clone_annotation a) r
  ]
