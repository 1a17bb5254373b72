-- ===== src/Review/History.antt =====
-- Histories of calls of the review service (internal/review/service.go) on a repository that nobody
-- seeds, each call with the time that it reads; and what holds between two of them.
pub mod Steps
pub mod Laws
use yolo_ave_mujica.Base.{
  ℕ, ◌+◌, ℤ, ◌<◌, ◌≡◌, ◌⊎◌, Bool, true, false, ◌==◌, nat_key, nat_beq, text_key, Text, lit, List,
  [], ◌∷◌, Option, none, some, lookup, state_of,
}
use yolo_ave_mujica.Review.Model.{Candidate, Annotation, PersistCandidateInput}
use yolo_ave_mujica.Review.Repository.{InMemoryRepository, is_open}
use yolo_ave_mujica.Review.Service.{accept_candidate, reject_candidate, persist_candidates}

pub data Call : Type 0 where
  accepts : ℕ → Text → Call
  rejects : ℕ → Text → Text → Call
  persists : ℤ → List PersistCandidateInput → Call

unfoldable pub step : ℕ × Call → InMemoryRepository → InMemoryRepository
step (now, accepts id reviewer) r = state_of (accept_candidate id reviewer now r)
step (now, rejects id reviewer reason) r = state_of (reject_candidate id reviewer reason now r)
step (now, persists job items) r = state_of (persist_candidates job items now r)

unfoldable pub run : List (ℕ × Call) → InMemoryRepository → InMemoryRepository
run [] r = r
run (c ∷ cs) r = run cs (step c r)

abbrev pub one_if : Bool → ℕ
one_if true = 1
one_if false = 0

-- The annotations made from the candidate.
unfoldable pub annotations_of : ℕ → List Annotation → ℕ
annotations_of id [] = 0
annotations_of id (a ∷ more) = one_if (nat_beq a.candidate_id id) + annotations_of id more

-- How many there are to be.
abbrev pub due : Option Candidate → ℕ
due none = 0
due (some c) = one_if (c.status == lit "accepted")

-- A candidate's two statuses agree.
pub record Inv (r : InMemoryRepository) : Type 0 where
  pub ids : (k : ℕ) (c : Candidate) → lookup k r.candidates ≡ some c → k < r.next_id
  pub agrees : (k : ℕ) (c : Candidate) → lookup k r.candidates ≡ some c → c.review_status ≡ c.status
  pub annotated : (k : ℕ) → annotations_of k r.annotations ≡ due (lookup k r.candidates)

-- No candidate is lost, and one that is decided stays as it is.
abbrev pub Evolves : InMemoryRepository → InMemoryRepository → Type 0
Evolves r s =
    (k : ℕ) (c : Candidate)
    → lookup k r.candidates ≡ some c
    → (d : Candidate) × (lookup k s.candidates ≡ some d) × (is_open c ≡ false → d ≡ c)

abbrev pub After : InMemoryRepository → InMemoryRepository → Type 0
After r s = Inv s × Evolves r s
