-- ===== src/Jobs/Invariant/Adds.antt =====
-- The calls of InMemoryRepository that add something keep its invariant: an event, a worker, a job.
use yolo_ave_mujica.Base.{
  ℕ, suc, ◌<◌, ◌≡◌, refl, ◌∙◌, Text, lookup, insert, lookup-insert, lookup-insert_self, nat_key,
  text_key, text_beq, text_beq_iff, nat_beq, List, [], ◌∷◌, ◌++◌, none, some, arith, state_of,
  Option-cases, Bool-cases, inl, inr, ◌⊎◌,
}
use yolo_ave_mujica.Jobs.Model.{Job, Event, CreateJobInput, RegisterWorkerInput}
use yolo_ave_mujica.Jobs.Repository.{InMemoryRepository, create_or_get, new_job, idempotency_key}
use yolo_ave_mujica.Jobs.EventLog.{EventInput, append_event, new_event, list_events, upsert_worker}
use yolo_ave_mujica.Jobs.Invariant.{IsSound, Inv, Evolves, After, RepoKeeps, Rising, key_of}
use yolo_ave_mujica.Jobs.Invariant.Calls.{Advances-refl, Evolves-refl, Evolves-same}
use yolo_ave_mujica.Jobs.Invariant.Writes.{list_events-Rising, Rising-append, Rising-mono}

module _ (r : InMemoryRepository) (id : ℕ) (i : EventInput) (now : ℕ) where
  abbrev added : List Event
  added = list_events id r ++ new_event r.next_event id i now ∷ []

  abbrev appended : InMemoryRepository
  appended = record r { next_event = suc r.next_event; events = insert id added r.events }

  appended-logged :
      Inv r
      → (k : ℕ) (es : List Event) → lookup k appended.events ≡ some es
      → Rising k 0 (suc r.next_event) es
  unfolding new_event
  appended-logged inv k es h = elim (Bool-cases (nat_beq id k)) [
    | inl same ↦
        let e : k ≡ id = ground arith in
        let f : es ≡ list_events id r ++ new_event r.next_event id i now ∷ [] =
          ground (arith, lookup-insert k id added r.events) in
        rw (f, e)
          (Rising-append id 0 r.next_event (list_events id r) (new_event r.next_event id i now)
            (list_events-Rising r id inv) refl refl)
    | inr differs ↦
        Rising-mono k 0 r.next_event es
          (inv.logged k es (ground (arith, lookup-insert k id added r.events)))
  ]

  appended-Inv : Inv r → Inv appended
  appended-Inv inv = record {
    ids = inv.ids;
    sound = inv.sound;
    filed = inv.filed;
    found = inv.found;
    logged = appended-logged inv;
  }

append_event-After :
    (id : ℕ) (i : EventInput) (now : ℕ) (r : InMemoryRepository)
    → Inv r
    → After r (state_of (append_event id i now r))
unfolding append_event
append_event-After id i now r inv = elim (Option-cases (lookup id r.by_id)) [
  | inl e ↦ rw (state_of, e, append_event) (inv, Evolves-refl r)
  | inr (j, e) ↦
      rw (state_of, e, append_event)
        (appended-Inv r id i now inv, Evolves-same r (appended r id i now) refl)
]

upsert_worker-After :
    (i : RegisterWorkerInput) (now : ℕ) (r : InMemoryRepository)
    → Inv r
    → After r (state_of (upsert_worker i now r))
unfolding upsert_worker
upsert_worker-After i now r inv = (
  record {
    ids = inv.ids;
    sound = inv.sound;
    filed = inv.filed;
    found = inv.found;
    logged = inv.logged;
  },
  Evolves-same r (state_of (upsert_worker i now r)) refl,
)

module _ (r : InMemoryRepository) (inv : Inv r) (i : CreateJobInput) (now : ℕ)
    (fresh : lookup (idempotency_key i) r.by_key ≡ none) where
  abbrev job : Job
  job = new_job r.next_id i now

  abbrev created : InMemoryRepository
  created = record r {
    next_id = suc r.next_id;
    by_key = insert (idempotency_key i) r.next_id r.by_key;
    by_id = insert r.next_id job r.by_id;
  }

  created-cases :
      (k : ℕ) (l : Job)
      → lookup k created.by_id ≡ some l
      → ((k ≡ r.next_id) × (l ≡ job)) ⊎ ((lookup k r.by_id ≡ some l) × (k < r.next_id))
  created-cases k l h = ground (arith, lookup-insert k r.next_id job r.by_id, inv.ids k l)

  key_of-job : key_of job ≡ idempotency_key i
  unfolding new_job idempotency_key
  key_of-job = refl

  job-IsSound : IsSound job
  unfolding new_job
  job-IsSound = ground arith

  created-filed :
      (k : ℕ) (l : Job)
      → lookup k created.by_id ≡ some l
      → lookup (key_of l) created.by_key ≡ some k
  created-filed k l h = elim (created-cases k l h) [
    | inl (e, f) ↦
        rw (f, e) (rw key_of-job (lookup-insert_self (idempotency_key i) r.next_id r.by_key))
    | inr (g, _) ↦
        let old = inv.filed k l g in
        ground (
          arith,
          lookup-insert (key_of l) (idempotency_key i) r.next_id r.by_key,
          text_beq_iff (idempotency_key i) (key_of l),
          old,
        )
  ]

  created-found :
      (key : Text) (k : ℕ)
      → lookup key created.by_key ≡ some k
      → (l : Job) × (lookup k created.by_id ≡ some l) × (key_of l ≡ key)
  created-found key k h = elim (Bool-cases (text_beq (idempotency_key i) key)) [
    | inl same ↦
        let e : k ≡ r.next_id =
          ground (arith, lookup-insert key (idempotency_key i) r.next_id r.by_key) in
        (
          job,
          rw e (lookup-insert_self r.next_id job r.by_id),
          key_of-job ∙ (text_beq_iff _ _).0 same,
        )
    | inr differs ↦
        let old : lookup key r.by_key ≡ some k =
          ground (arith, lookup-insert key (idempotency_key i) r.next_id r.by_key) in
        let (l, e, f) = inv.found key k old in
        (l, ground (arith, lookup-insert k r.next_id job r.by_id, inv.ids k l e), f)
  ]

  created-Inv : Inv created
  unfolding new_job
  created-Inv = record {
    ids = λ k l h. elim (created-cases k l h) [
      | inl (e, f) ↦ ground arith
      | inr (g, lt) ↦ ground (arith, inv.ids k l g)
    ];
    sound = λ k l h. elim (created-cases k l h) [
      | inl (e, f) ↦ rw f job-IsSound
      | inr (g, _) ↦ inv.sound k l g
    ];
    filed = created-filed;
    found = created-found;
    logged = inv.logged;
  }

  created-Evolves : Evolves r created
  created-Evolves k l h =
      (l, ground (arith, lookup-insert k r.next_id job r.by_id, inv.ids k l h), Advances-refl l)

create_or_get-After :
    (i : CreateJobInput) (now : ℕ) (r : InMemoryRepository)
    → Inv r
    → After r (state_of (create_or_get i now r))
unfolding create_or_get
create_or_get-After i now r inv = elim (Option-cases (lookup (idempotency_key i) r.by_key)) [
  | inr (k, e) ↦ rw (state_of, e, create_or_get) (inv, Evolves-refl r)
  | inl e ↦
      rw (state_of, e, create_or_get) (created-Inv r inv i now e, created-Evolves r inv i now e)
]

pub append_event-RepoKeeps : (id : ℕ) (i : EventInput) (now : ℕ) → RepoKeeps (append_event id i now)
append_event-RepoKeeps id i now = record { after = append_event-After id i now }

pub create_or_get-RepoKeeps : (i : CreateJobInput) (now : ℕ) → RepoKeeps (create_or_get i now)
create_or_get-RepoKeeps i now = record { after = create_or_get-After i now }

pub upsert_worker-RepoKeeps : (i : RegisterWorkerInput) (now : ℕ) → RepoKeeps (upsert_worker i now)
upsert_worker-RepoKeeps i now = record { after = upsert_worker-After i now }
