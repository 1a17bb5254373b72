-- ===== src/Review/Repository.antt =====
-- InMemoryRepository of internal/review/repository.go; each method is one step under the lock.
use yolo_ave_mujica.Base.{
  ℕ, suc, ℤ, pos, Bool, true, not, ◌||◌, if◌then◌else◌, Text, text_key, nat_key, is_empty, lit, Map,
  lookup, insert, List, [], ◌∷◌, ◌++◌, none, some, Outcome, ok, err,
}
use yolo_ave_mujica.Review.Model.{
  PersistCandidateInput, Candidate, Annotation, AuditEvent, Error, plain, normalize_candidate,
  normalize_candidate_status, is_queued_candidate_status, either_status,
}

pub record InMemoryRepository : Type 0 where
  pub next_id : ℕ
  pub candidates : Map ℕ Candidate
  pub annotations : List Annotation
  pub audits : List AuditEvent

unfoldable pub new_in_memory_repository : InMemoryRepository
new_in_memory_repository = record { next_id = 1; candidates = []; annotations = []; audits = [] }

abbrev pub Action : Type 0 → Type 0
Action A = InMemoryRepository → Outcome Error InMemoryRepository A

unfoldable pub list_pending_in : Map ℕ Candidate → List Candidate
unfolding is_queued_candidate_status normalize_candidate
list_pending_in [] = []
list_pending_in ((id, c) ∷ rest) =
    let others = list_pending_in rest in
    if is_queued_candidate_status (either_status c) then normalize_candidate c ∷ others else others

-- Accept and Reject refuse a candidate neither of whose statuses is queued.
unfoldable pub is_open : Candidate → Bool
unfolding is_queued_candidate_status
is_open c = is_queued_candidate_status c.status || is_queued_candidate_status c.review_status

-- The assignments to the candidate, with the new status.
unfoldable pub decided : Text → Text → ℕ → Candidate → Candidate
unfolding normalize_candidate
decided status reviewer now c = normalize_candidate (record c {
  status = status;
  review_status = status;
  reviewer_id = reviewer;
  reviewed_at = now;
})

unfoldable pub accept : ℕ → Text → ℕ → Action (Unit {0})
unfolding is_open decided
accept id reviewer now r = elim (lookup id r.candidates) [
  | none ↦ err (plain "candidate not found") r
  | some c ↦
      if not (is_open c)
      then err (plain "candidate is decided") r
      else ok tt (record r {
        candidates = insert id (decided (lit "accepted") reviewer now c) r.candidates;
        annotations =
            r.annotations
            ++ record { candidate_id = id; reviewer_id = reviewer; created_at = now } ∷ [];
        audits =
            r.audits
            ++ record {
              actor = reviewer;
              action = lit "review.accept";
              resource_id = id;
              reason_code = none;
              ts = now;
            }
              ∷ [];
      })
]

unfoldable pub reject : ℕ → Text → Text → ℕ → Action (Unit {0})
unfolding is_open decided
reject id reviewer reason now r = elim (lookup id r.candidates) [
  | none ↦ err (plain "candidate not found") r
  | some c ↦
      if not (is_open c)
      then err (plain "candidate is decided") r
      else ok tt (record r {
        candidates = insert id (decided (lit "rejected") reviewer now c) r.candidates;
        audits =
            r.audits
            ++ record {
              actor = reviewer;
              action = lit "review.reject";
              resource_id = id;
              reason_code = some reason;
              ts = now;
            }
              ∷ [];
      })
]

unfoldable pub new_candidate : ℕ → ℤ → PersistCandidateInput → ℕ → Candidate
unfolding normalize_candidate
new_candidate id job item now = normalize_candidate (record {
  id = id;
  project_id = pos 0;
  dataset_id = item.dataset_id;
  snapshot_id = item.snapshot_id;
  item_id = item.item_id;
  object_key = item.object_key;
  category_id = item.category_id;
  bbox = item.bbox;
  status = lit "queued_for_review";
  review_status = lit "queued_for_review";
  reviewer_id = [];
  reviewed_at = 0;
  source = record {
    job_id = some job;
    confidence = item.confidence;
    model_name = item.model_name;
    is_pseudo = true;
    created_at = some now;
  };
})

-- One round of the loop of PersistCandidates, and the candidates that it returns.
unfoldable pub persist_one : ℤ → ℕ → PersistCandidateInput → InMemoryRepository → InMemoryRepository
unfolding new_candidate
persist_one job now item r = record r {
  next_id = suc r.next_id;
  candidates = insert r.next_id (new_candidate r.next_id job item now) r.candidates;
}

unfoldable pub persist_all :
    ℤ → ℕ → List PersistCandidateInput → InMemoryRepository → List Candidate × InMemoryRepository
unfolding persist_one
persist_all job now [] r = ([], r)
persist_all job now (item ∷ items) r =
    let (out, r') = persist_all job now items (persist_one job now item r) in
    (new_candidate r.next_id job item now ∷ out, r')

-- SeedCandidate, which only the tests call.
unfoldable pub seed_candidate : Candidate → InMemoryRepository → InMemoryRepository
unfolding normalize_candidate normalize_candidate_status
seed_candidate c r =
    let status = if is_empty (either_status c) then lit "queued_for_review" else either_status c in
    let s = normalize_candidate_status status in
    record r {
      candidates =
          insert c.id (normalize_candidate (record c { status = s; review_status = s }))
            r.candidates;
    }
