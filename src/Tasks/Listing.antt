-- ===== src/Tasks/Listing.antt =====
-- What ListTasks of internal/tasks/service.go and repository.go lists.
use yolo_ave_mujica.Base.{
  ℕ, ℤ, ◌≡◌, refl, ◌↔◌, ◌⊎◌, inl, inr, Bool, true, false, ◌&&◌, ◌||◌, ◌==◌, Key, Text, text_key,
  int_key, is_empty, not_positive, Map, lookup, Distinct, nat_key, nat_beq, List, [], ◌∷◌, Option,
  none, some, ok, value, and_then, attempt, arith, Bool-cases, int_beq_iff, text_beq, text_beq_iff,
}
use yolo_ave_mujica.Tasks.Model.{Status, Kind, Priority, Task, ListTasksFilter}
use yolo_ave_mujica.Tasks.Equality.{status_key, kind_key, priority_key}
use yolo_ave_mujica.Tasks.Repository.{
  InMemoryRepository, Filter, admits, admits_snapshot, admits_task, select_tasks, find_tasks,
}
use yolo_ave_mujica.Tasks.Service.{normalize_filter, list_tasks}

-- A task is an entry of the list.
pub data Lists (t : Task) : List Task → Type 0 where
  first : {ts : List Task} → Lists t (t ∷ ts)
  later : {u : Task} {ts : List Task} → Lists t ts → Lists t (u ∷ ts)

-- What a filter asks for: each field that is given agrees with the task.
pub record Wanted (project : ℤ) (f : Filter) (t : Task) : Type 0 where
  pub in_project : t.project_id ≡ project
  pub of_status : (s : Status) → f.status ≡ some s → t.status ≡ s
  pub of_kind : (k : Kind) → f.kind ≡ some k → t.kind ≡ k
  pub by_assignee : (f.assignee ≡ []) ⊎ (t.assignee ≡ f.assignee)
  pub of_priority : (p : Priority) → f.priority ≡ some p → t.priority ≡ p
  pub of_snapshot : (s : ℤ) → f.snapshot_id ≡ some s → t.snapshot_id ≡ some s

module _ {A : Type 0} ⦃key : Key A⦄ where
  admits_iff : (o : Option A) (a : A) → (admits o a ≡ true) ↔ ((w : A) → o ≡ some w → a ≡ w)
  admits_iff none a = ((λ h w e. cc), λ h. refl)
  admits_iff (some w) a =
      ((λ h v e. ground (arith, key.same_iff a w)), λ h. let e = h w refl in (key.same_iff a w).1 e)

admits_snapshot_iff :
    (o given : Option ℤ)
    → (admits_snapshot o given ≡ true) ↔ ((w : ℤ) → o ≡ some w → given ≡ some w)
admits_snapshot_iff none given = ((λ h w e. cc), λ h. refl)
admits_snapshot_iff (some w) none = ((λ h. cc), λ h. let e = h w refl in cc)
admits_snapshot_iff (some w) (some g) = (
  (λ h v e. ground (arith, int_beq_iff g w)),
  λ h. let e = h w refl in ground (arith, int_beq_iff g w),
)

assignee_iff :
    (wanted given : Text)
    → ((is_empty wanted || text_beq given wanted) ≡ true) ↔ ((wanted ≡ []) ⊎ (given ≡ wanted))
assignee_iff [] given = ((λ h. inl refl), λ h. refl)
assignee_iff (c ∷ w) given = (
  (λ h. inr ((text_beq_iff given (c ∷ w)).0 h)),
  λ h. elim h [ inl e ↦ cc | inr e ↦ (text_beq_iff given (c ∷ w)).1 e ],
)

all_six :
    (a b c d e f : Bool)
    → (a && b && c && d && e && f) ≡ true
    → (a ≡ true) × (b ≡ true) × (c ≡ true) × (d ≡ true) × (e ≡ true) × (f ≡ true)
all_six a b c d e f h =
    (ground arith, ground arith, ground arith, ground arith, ground arith, ground arith)

-- The six tests of the repository are what the filter asks for.
admits_task-Wanted : (p : ℤ) (f : Filter) (t : Task) → admits_task p f t ≡ true → Wanted p f t
unfolding admits_task
admits_task-Wanted p f t h =
    let (a, b, c, d, e, g) =
      all_six (t.project_id == p) (admits f.status t.status) (admits f.kind t.kind)
        (is_empty f.assignee || t.assignee == f.assignee) (admits f.priority t.priority)
        (admits_snapshot f.snapshot_id t.snapshot_id) h in
    record {
      in_project = (int_beq_iff t.project_id p).0 a;
      of_status = (admits_iff f.status t.status).0 b;
      of_kind = (admits_iff f.kind t.kind).0 c;
      by_assignee = (assignee_iff f.assignee t.assignee).0 d;
      of_priority = (admits_iff f.priority t.priority).0 e;
      of_snapshot = (admits_snapshot_iff f.snapshot_id t.snapshot_id).0 g;
    }

Wanted-admits_task : (p : ℤ) (f : Filter) (t : Task) → Wanted p f t → admits_task p f t ≡ true
unfolding admits_task
Wanted-admits_task p f t w =
    rw
      (
        (int_beq_iff t.project_id p).1 w.in_project,
        (admits_iff f.status t.status).1 w.of_status,
        (admits_iff f.kind t.kind).1 w.of_kind,
        (assignee_iff f.assignee t.assignee).1 w.by_assignee,
        (admits_iff f.priority t.priority).1 w.of_priority,
        (admits_snapshot_iff f.snapshot_id t.snapshot_id).1 w.of_snapshot,
      )
      refl

module _ (test : Task → Bool) where
  select_tasks_complete :
      (k : ℕ) (t : Task) (m : Map ℕ Task)
      → lookup k m ≡ some t
      → test t ≡ true
      → Lists t (select_tasks test m)
  unfolding select_tasks lookup
  select_tasks_complete k t [] h passes = cc
  select_tasks_complete k t ((j, u) ∷ m) h passes = elim (Bool-cases (nat_beq j k)) [
    | inl same ↦ let e : u ≡ t = ground arith in rw (e, passes) first
    | inr differs ↦
        let rest = select_tasks_complete k t m (rw differs at h) passes in
        elim (Bool-cases (test u)) [ inl b ↦ rw b (later rest) | inr b ↦ rw b rest ]
  ]

  Lists-cases : {t u : Task} {ts : List Task} → Lists t (u ∷ ts) → (t ≡ u) ⊎ Lists t ts
  Lists-cases first = inl refl
  Lists-cases (later p) = inr p

  select_tasks_sound :
      (t : Task) (m : Map ℕ Task)
      → Distinct m
      → Lists t (select_tasks test m)
      → (k : ℕ) × (lookup k m ≡ some t) × (test t ≡ true)
  unfolding select_tasks lookup
  select_tasks_sound t [] d p = elim p [ ]
  select_tasks_sound t ((j, u) ∷ m) (fresh, d) p = elim (Bool-cases (test u)) [
    | inl b ↦ elim (Lists-cases (rw b at p)) [
      | inl e ↦ (j, ground (arith, e), rw e b)
      | inr q ↦ further (select_tasks_sound t m d q)
    ]
    | inr b ↦ further (select_tasks_sound t m d (rw b at p))
  ]
    where
      further :
          (k : ℕ) × (lookup k m ≡ some t) × (test t ≡ true)
          → (k : ℕ) × (lookup k ((j, u) ∷ m) ≡ some t) × (test t ≡ true)
      further (k, e, f) = (k, ground (arith, fresh, e), f)

-- On a repository that stores no id twice, with a positive project id and a filter that is valid,
-- ListTasks lists a task exactly when it is stored, belongs to the project, and agrees with every
-- field that the filter gives.
pub list_tasks_lem :
    (p : ℤ) (i : ListTasksFilter) (f : Filter) (r : InMemoryRepository)
    → Distinct r.by_id
    → not_positive p ≡ false
    → normalize_filter i ≡ value f
    → (ts : List Task) × (list_tasks p i r ≡ ok ts r)
      × ((t : Task) → Lists t ts ↔ ((k : ℕ) × (lookup k r.by_id ≡ some t) × Wanted p f t))
unfolding list_tasks find_tasks
list_tasks_lem p i f r d positive readable = (
  select_tasks (admits_task p f) r.by_id,
  rw (positive, readable, attempt, and_then) refl,
  λ t. (
    λ l.
        let (k, e, h) = select_tasks_sound (admits_task p f) t r.by_id d l in
        (k, e, admits_task-Wanted p f t h),
    λ (k, e, w). select_tasks_complete (admits_task p f) k t r.by_id e (Wanted-admits_task p f t w),
  ),
)
