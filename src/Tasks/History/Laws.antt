-- ===== src/Tasks/History/Laws.antt =====
-- What holds of the task repository after any history of calls.
use yolo_ave_mujica.Base.{
  ℕ, ℤ, pos, negsuc, ◌≡◌, refl, ◌∙◌, ◌⊎◌, inl, inr, false, not_positive, to_nat, lookup, insert,
  lookup-insert, insert-Distinct, nat_key, nat_beq, List, [], ◌∷◌, some, state_of, ap, and_then,
  attempt, arith, Option-cases, Bool-cases, Try-cases,
}
use yolo_ave_mujica.Tasks.Model.{
  blocked, closed, Task, CreateTaskInput, TransitionTaskInput, ListTasksFilter,
}
use yolo_ave_mujica.Tasks.Equality.{status_key, status_beq_iff}
use yolo_ave_mujica.Tasks.Flow.{
  here, Flow-trans, Flow-one, Flow-from_closed, allowed-is_valid_status,
}
use yolo_ave_mujica.Tasks.Repository.{
  InMemoryRepository, new_in_memory_repository, find_task, new_task, Change, changed, find_tasks,
}
use yolo_ave_mujica.Tasks.Service.{
  normalize_task, create_task, get_task, requested, settled, transition_task, list_tasks,
  normalize_filter,
}
use yolo_ave_mujica.Tasks.Validity.{IsValid, create_task_lem}
use yolo_ave_mujica.Tasks.Transition.{
  IsPermitted, transition_task_lem, transition_task_missing, transition_task_zero,
}
use yolo_ave_mujica.Tasks.History.{
  Call, creates, reads, transitions, lists, step, run, Inv, Advances, Evolves, After,
}

Advances-refl : (t : Task) → Advances t t
Advances-refl t = record { same_rest = refl; moved = here }

Advances-trans : (t u v : Task) → Advances t u → Advances u v → Advances t v
Advances-trans t u v a b = record {
  same_rest = b.same_rest ∙ a.same_rest;
  moved = Flow-trans a.moved b.moved;
}

Evolves-refl : (r : InMemoryRepository) → Evolves r r
Evolves-refl r k t h = (t, h, Advances-refl t)

Evolves-trans : (r s u : InMemoryRepository) → Evolves r s → Evolves s u → Evolves r u
Evolves-trans r s u p q k t h =
    let (t', h', a) = p k t h in
    let (t'', h'', b) = q k t' h' in (t'', h'', Advances-trans t t' t'' a b)

After-refl : (r : InMemoryRepository) → Inv r → After r r
After-refl r inv = (inv, Evolves-refl r)

-- What the repository adds to a valid task keeps it valid.
new_task-IsValid : (id now : ℕ) (t : Task) → IsValid t → IsValid (new_task id t now)
unfolding new_task
new_task-IsValid id now t v = record {
  in_project = v.in_project;
  of_snapshot = v.of_snapshot;
  titled = v.titled;
  status_valid = v.status_valid;
  kind_valid = v.kind_valid;
  priority_valid = v.priority_valid;
  media_valid = v.media_valid;
  annotates = v.annotates;
  at_frame = v.at_frame;
  blocked_for = v.blocked_for;
}

changed-IsValid :
    (c : Change) (now : ℕ) (t : Task)
    → IsPermitted t.status c
    → IsValid t
    → IsValid (changed (settled c) now t)
unfolding changed settled
changed-IsValid c now t p v = record {
  in_project = v.in_project;
  of_snapshot = v.of_snapshot;
  titled = v.titled;
  status_valid = allowed-is_valid_status t.status c.status p.allowed;
  kind_valid = v.kind_valid;
  priority_valid = v.priority_valid;
  media_valid = v.media_valid;
  annotates = v.annotates;
  at_frame = v.at_frame;
  blocked_for = λ e. rw ((status_beq_iff c.status blocked).1 e) (p.reasoned e);
}

changed-Advances :
    (c : Change) (now : ℕ) (t : Task)
    → IsPermitted t.status c
    → Advances t (changed (settled c) now t)
unfolding changed settled
changed-Advances c now t p = record { same_rest = refl; moved = Flow-one p.allowed }

create_task-After :
    (i : CreateTaskInput) (now : ℕ) (r : InMemoryRepository)
    → Inv r
    → After r (state_of (create_task i now r))
unfolding new_task
create_task-After i now r inv = elim (create_task_lem i now r) [
  | inr (_, e, h) ↦ rw (h, state_of) (After-refl r inv)
  | inl (v, h) ↦
      let task = new_task r.next_id (normalize_task i now) now in
      let fresh : (k : ℕ) (t : Task) → lookup k r.by_id ≡ some t → nat_beq r.next_id k ≡ false =
        λ k t e. ground (arith, inv.ids k t e) in
      rw (h, state_of)
        (
          record {
            ids = λ k t e. ground (arith, lookup-insert k r.next_id task r.by_id, inv.ids k t);
            valid = λ k t e. elim (Bool-cases (nat_beq r.next_id k)) [
              | inl same ↦
                  let f : t ≡ task = ground (arith, lookup-insert k r.next_id task r.by_id) in
                  rw f (new_task-IsValid r.next_id now (normalize_task i now) v)
              | inr differs ↦ inv.valid k t (ground (arith, lookup-insert k r.next_id task r.by_id))
            ];
            distinct = insert-Distinct r.next_id task r.by_id inv.distinct;
          },
          λ k t e. (
            t,
            ground (arith, lookup-insert k r.next_id task r.by_id, fresh k t e),
            Advances-refl t,
          ),
        )
]

find_task_state : (id : ℕ) (r : InMemoryRepository) → state_of (find_task id r) ≡ r
unfolding find_task
find_task_state id r = elim (Option-cases (lookup id r.by_id)) [
  | inl e ↦ rw (e, state_of) refl
  | inr (t, e) ↦ rw (e, state_of) refl
]

get_task_state : (id : ℤ) (r : InMemoryRepository) → state_of (get_task id r) ≡ r
unfolding get_task
get_task_state id r = elim (Bool-cases (not_positive id)) [
  | inl e ↦ rw (e, state_of) refl
  | inr e ↦ rw e (find_task_state (to_nat id) r)
]

list_tasks_state :
    (p : ℤ) (f : ListTasksFilter) (r : InMemoryRepository) → state_of (list_tasks p f r) ≡ r
unfolding list_tasks find_tasks
list_tasks_state p f r = elim (Bool-cases (not_positive p)) [
  | inl e ↦ rw (e, state_of) refl
  | inr e ↦ elim (Try-cases (normalize_filter f)) [
    | inl (x, g) ↦ rw (e, g, attempt, and_then, state_of) refl
    | inr (a, g) ↦ rw (e, g, attempt, and_then, state_of) refl
  ]
]

module _ (id : ℕ) (t u : Task) (r : InMemoryRepository) (at : lookup id r.by_id ≡ some t)
    (v : IsValid u) (a : Advances t u) where
  abbrev written : InMemoryRepository
  written = record r { by_id = insert id u r.by_id }

  written-cases :
      (k : ℕ) (w : Task)
      → lookup k written.by_id ≡ some w
      → ((k ≡ id) × (w ≡ u)) ⊎ (lookup k r.by_id ≡ some w)
  written-cases k w h = ground (arith, lookup-insert k id u r.by_id)

  written-After : Inv r → After r written
  written-After inv = (
    record {
      ids = λ k w h. elim (written-cases k w h) [
        | inr old ↦ inv.ids k w old
        | inl (e, f) ↦
            let same : u.id ≡ t.id = ap (λ x. x.id) a.same_rest in
            ground (arith, inv.ids id t at, same)
      ];
      valid =
          λ k w h. elim (written-cases k w h) [ inr old ↦ inv.valid k w old | inl (e, f) ↦ rw f v ];
      distinct = insert-Distinct id u r.by_id inv.distinct;
    },
    λ k w h. elim (Bool-cases (nat_beq id k)) [
      | inl same ↦
          let e : t ≡ w = ground (arith, h) in
          (u, ground (arith, lookup-insert k id u r.by_id), rw (← e) a)
      | inr differs ↦ (w, ground (arith, lookup-insert k id u r.by_id), Advances-refl w)
    ],
  )

transition_task-After :
    (id : ℤ) (i : TransitionTaskInput) (now : ℕ) (r : InMemoryRepository)
    → Inv r
    → After r (state_of (transition_task id i now r))
transition_task-After id i now r inv = elim (Bool-cases (not_positive id)) [
  | inl zero ↦
      let (e, h) = transition_task_zero i id now r zero in rw (h, state_of) (After-refl r inv)
  | inr positive ↦ found id positive
]
  where
    on_task : (n : ℕ) → nat_beq n 0 ≡ false → After r (state_of (transition_task (pos n) i now r))
    on_task n nonzero = elim (Option-cases (lookup n r.by_id)) [
      | inl e ↦
          let (x, h) = transition_task_missing n i now r e in rw (h, state_of) (After-refl r inv)
      | inr (t, e) ↦ elim (transition_task_lem n i now r t nonzero e) [
        | inr (_, x, h) ↦ rw (h, state_of) (After-refl r inv)
        | inl (p, h) ↦
            let c = requested t i now in
            rw (h, state_of)
              (written-After n t (changed (settled c) now t) r e
                (changed-IsValid c now t p (inv.valid n t e)) (changed-Advances c now t p) inv)
      ]
    ]

    found : (z : ℤ) → not_positive z ≡ false → After r (state_of (transition_task z i now r))
    found (pos n) h = on_task n h
    found (negsuc n) h = cc

step-After : (c : ℕ × Call) (r : InMemoryRepository) → Inv r → After r (step c r)
unfolding step
step-After (now, creates i) r inv = create_task-After i now r inv
step-After (now, reads id) r inv = rw (get_task_state id r) (After-refl r inv)
step-After (now, transitions id i) r inv = transition_task-After id i now r inv
step-After (now, lists p f) r inv = rw (list_tasks_state p f r) (After-refl r inv)

pub run-After : (cs : List (ℕ × Call)) (r : InMemoryRepository) → Inv r → After r (run cs r)
unfolding run
run-After [] r inv = After-refl r inv
run-After (c ∷ cs) r inv =
    let (inv', ev) = step-After c r inv in
    let (inv'', ev') = run-After cs (step c r) inv' in
    (inv'', Evolves-trans r (step c r) (run cs (step c r)) ev ev')

pub new_in_memory_repository-Inv : Inv new_in_memory_repository
unfolding new_in_memory_repository lookup
new_in_memory_repository-Inv = record { ids = λ k t h. cc; valid = λ k t h. cc; distinct = tt }

-- After any history of calls on a new repository every task is stored once, under its own id, below
-- the next one, and is valid: in particular a blocked task has a reason.
pub run_valid : (cs : List (ℕ × Call)) → Inv (run cs new_in_memory_repository)
run_valid cs = (run-After cs new_in_memory_repository new_in_memory_repository-Inv).0

-- Over any history from a well-formed repository a task that is there stays there, changes nothing but
-- its status, its reason and its times of activity and update, and its status follows the table.
pub run-Evolves :
    (cs : List (ℕ × Call)) (r : InMemoryRepository) (id : ℕ) (t : Task)
    → Inv r
    → lookup id r.by_id ≡ some t
    → (u : Task) × (lookup id (run cs r).by_id ≡ some u) × Advances t u
run-Evolves cs r id t inv h = (run-After cs r inv).1 id t h

-- No history of calls from a well-formed repository opens a closed task again.
pub run_closed :
    (cs : List (ℕ × Call)) (r : InMemoryRepository) (id : ℕ) (t : Task)
    → Inv r
    → lookup id r.by_id ≡ some t
    → t.status ≡ closed
    → (u : Task) × (lookup id (run cs r).by_id ≡ some u) × (u.status ≡ closed)
run_closed cs r id t inv h e =
    let (u, g, a) = run-Evolves cs r id t inv h in (u, g, Flow-from_closed a.moved e)
