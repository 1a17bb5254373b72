-- ===== src/Jobs/Invariant/Writes.antt =====
-- The writes of InMemoryRepository keep its invariant: a job that is changed, created or looked up,
-- an event that is appended, a worker that is registered.
use yolo_ave_mujica.Base.{
  ℕ, suc, ◌<◌, ◌≡◌, ◌∙◌, true, Text, lookup, insert, lookup-insert, nat_key, text_key, nat_beq,
  List, [], ◌∷◌, ◌++◌, some, arith, state_of, Try, Try-cases, value, Option-cases, Bool-cases, inl,
  inr, ◌⊎◌,
}
use yolo_ave_mujica.Jobs.Model.{Job, Event, Error}
use yolo_ave_mujica.Jobs.Repository.{InMemoryRepository, update_job}
use yolo_ave_mujica.Jobs.EventLog.{list_events}
use yolo_ave_mujica.Jobs.Invariant.{
  IsSound, Advances, Inv, Evolves, After, RepoKeeps, Rising, key_of,
}
use yolo_ave_mujica.Jobs.Invariant.Calls.{Advances-refl, Evolves-refl}

-- A change of one job that is allowed.
pub record IsStep (j k : Job) : Type 0 where
  pub advances : Advances j k
  pub keeps : IsSound j → IsSound k

module _ (r : InMemoryRepository) (id : ℕ) (j k : Job) (at : lookup id r.by_id ≡ some j) where
  abbrev pub written : InMemoryRepository
  written = record r { by_id = insert id k r.by_id }

  written-cases :
      (i : ℕ) (l : Job)
      → lookup i written.by_id ≡ some l
      → ((i ≡ id) × (l ≡ k)) ⊎ (lookup i r.by_id ≡ some l)
  written-cases i l h = ground (arith, lookup-insert i id k r.by_id)

  same_job : (i : ℕ) (l : Job) → nat_beq id i ≡ true → lookup i r.by_id ≡ some l → l ≡ j
  same_job i l same h = ground arith

  module _ (inv : Inv r) (step : IsStep j k) where
    written-ids : (i : ℕ) (l : Job) → lookup i written.by_id ≡ some l → (l.id ≡ i) × (i < r.next_id)
    written-ids i l h = elim (written-cases i l h) [
      | inl (e, f) ↦ ground (arith, inv.ids id j at, step.advances)
      | inr g ↦ inv.ids i l g
    ]

    written-IsSound : (i : ℕ) (l : Job) → lookup i written.by_id ≡ some l → IsSound l
    written-IsSound i l h = elim (written-cases i l h) [
      | inl (e, f) ↦ rw f (step.keeps (inv.sound id j at))
      | inr g ↦ inv.sound i l g
    ]

    written-filed :
        (i : ℕ) (l : Job) → lookup i written.by_id ≡ some l → lookup (key_of l) r.by_key ≡ some i
    written-filed i l h = elim (written-cases i l h) [
      | inl (e, f) ↦ rw (f, step.advances.same_key, e) (inv.filed id j at)
      | inr g ↦ inv.filed i l g
    ]

    written-found :
        (key : Text) (i : ℕ)
        → lookup key r.by_key ≡ some i
        → (l : Job) × (lookup i written.by_id ≡ some l) × (key_of l ≡ key)
    written-found key i h =
        let (l, e, f) = inv.found key i h in
        elim (Bool-cases (nat_beq id i)) [
          | inl same ↦
              (k, rw (lookup-insert i id k r.by_id, same), step.advances.same_key ∙ ground (arith))
          | inr other ↦ (l, rw (lookup-insert i id k r.by_id, other) e, f)
        ]

    pub written-Inv : Inv written
    written-Inv = record {
      ids = written-ids;
      sound = written-IsSound;
      filed = written-filed;
      found = written-found;
      logged = inv.logged;
    }

    pub written-Evolves : Evolves r written
    written-Evolves i l h = elim (Bool-cases (nat_beq id i)) [
      | inl same ↦
          (k, rw (lookup-insert i id k r.by_id, same), rw (same_job i l same h) step.advances)
      | inr other ↦ (l, rw (lookup-insert i id k r.by_id, other) h, Advances-refl l)
    ]

-- What a method that changes one job leaves.
update_job_cases :
    (P : InMemoryRepository → Type 0) (id : ℕ) (body : Job → Try Error Job) (r : InMemoryRepository)
    → P r
    → ((j k : Job)
        → lookup id r.by_id ≡ some j
        → body j ≡ value k
        → P (record r { by_id = insert id k r.by_id }))
    → P (state_of (update_job id body r))
unfolding update_job
update_job_cases P id body r same changed = elim (Option-cases (lookup id r.by_id)) [
  | inl e ↦ rw (state_of, e, update_job) same
  | inr (j, e) ↦ elim (Try-cases (body j)) [
    | inl (x, f) ↦ rw (state_of, e, f, update_job) same
    | inr (k, f) ↦ rw (state_of, e, f, update_job) (changed j k e f)
  ]
]

-- A method that changes one job by an allowed change.
pub update_job-RepoKeeps :
    (id : ℕ) (body : Job → Try Error Job)
    → ((j k : Job) → body j ≡ value k → IsStep j k)
    → RepoKeeps (update_job id body)
update_job-RepoKeeps id body steps = record {
  after = λ r inv.
      update_job_cases (After r) id body r (inv, Evolves-refl r)
        λ j k e f.
          (written-Inv r id j k e inv (steps j k f), written-Evolves r id j k e inv (steps j k f));
}

-- What the event log holds under a key, missing or not.
pub list_events-Rising :
    (r : InMemoryRepository) (id : ℕ) → Inv r → Rising id 0 r.next_event (list_events id r)
unfolding list_events
list_events-Rising r id inv = elim (Option-cases (lookup id r.events)) [
  | inl e ↦ rw (Rising, e, list_events) (omega arith)
  | inr (es, e) ↦ rw (Rising, e, list_events) (inv.logged id es e)
]

pub Rising-append :
    (id low n : ℕ) (es : List Event) (e : Event)
    → Rising id low n es
    → e.job_id ≡ id
    → e.id ≡ n
    → Rising id low (suc n) (es ++ e ∷ [])
Rising-append id low n [] e h p q = (p, omega arith, omega arith)
Rising-append id low n (x ∷ es) e (a, b, c) p q = (a, b, Rising-append id (suc x.id) n es e c p q)

pub Rising-mono : (id low n : ℕ) (es : List Event) → Rising id low n es → Rising id low (suc n) es
Rising-mono id low n [] h = omega arith
Rising-mono id low n (x ∷ es) (a, b, c) = (a, b, Rising-mono id (suc x.id) n es c)
