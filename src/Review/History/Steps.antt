-- ===== src/Review/History/Steps.antt =====
-- How the calls of internal/review/repository.go keep what holds of the reviews.
use yolo_ave_mujica.Base.{
  ℕ, ◌+◌, ℤ, ◌<◌, ◌≤◌, if◌then◌else◌, ◌≡◌, refl, ◌∙◌, ◌⊎◌, inl, inr, true, false, nat_key, nat_beq,
  nat_beq_iff, text_key, text_beq, text_beq_iff, Text, lit, List, [], ◌∷◌, ◌++◌, some, lookup,
  insert, lookup-insert, state_of, arith, Bool-cases, Option-cases,
}
use yolo_ave_mujica.Review.Model.{
  Candidate, Annotation, PersistCandidateInput, normalize_candidate, normalize_candidate_status,
  is_queued_candidate_status,
}
use yolo_ave_mujica.Review.Repository.{
  InMemoryRepository, is_open, decided, accept, reject, new_candidate, persist_one, persist_all,
}
use yolo_ave_mujica.Review.History.{one_if, annotations_of, due, Inv, Evolves, After}

pub Evolves-refl : (r : InMemoryRepository) → Evolves r r
Evolves-refl r k c h = (c, h, λ o. refl)

pub Evolves-trans : (r s t : InMemoryRepository) → Evolves r s → Evolves s t → Evolves r t
Evolves-trans r s t p q k c h =
    let (d, g, a) = p k c h in
    let (e, f, b) = q k d g in (e, f, λ o. let same = a o in b (rw same o) ∙ same)

annotations_of-append :
    (id : ℕ) (anns : List Annotation) (a : Annotation)
    → annotations_of id (anns ++ a ∷ [])
      ≡ annotations_of id anns + one_if (nat_beq a.candidate_id id)
unfolding annotations_of
annotations_of-append id [] a = omega arith
annotations_of-append id (b ∷ anns) a = let later = annotations_of-append id anns a in omega arith

-- The status that a decision leaves, and the one that a new candidate has.
decided_status :
    (reviewer : Text) (now : ℕ) (c : Candidate)
    → ((decided (lit "accepted") reviewer now c).status ≡ lit "accepted")
      × (text_beq ((decided (lit "rejected") reviewer now c).status) (lit "accepted") ≡ false)
unfolding decided normalize_candidate normalize_candidate_status lit text_beq
decided_status reviewer now c = (refl, refl)

new_candidate_status :
    (id : ℕ) (job : ℤ) (item : PersistCandidateInput) (now : ℕ)
    → text_beq ((new_candidate id job item now).status) (lit "accepted") ≡ false
unfolding new_candidate normalize_candidate normalize_candidate_status lit text_beq
new_candidate_status id job item now = refl

decided_agrees :
    (s reviewer : Text) (now : ℕ) (c : Candidate)
    → (decided s reviewer now c).review_status ≡ (decided s reviewer now c).status
unfolding decided normalize_candidate
decided_agrees s reviewer now c = refl

new_candidate_agrees :
    (id : ℕ) (job : ℤ) (item : PersistCandidateInput) (now : ℕ)
    → (new_candidate id job item now).review_status ≡ (new_candidate id job item now).status
unfolding new_candidate normalize_candidate
new_candidate_agrees id job item now = refl

accepted_closed : is_queued_candidate_status (lit "accepted") ≡ false
unfolding is_queued_candidate_status normalize_candidate_status lit text_beq
accepted_closed = refl

-- An open candidate has no annotation yet.
open_unaccepted :
    (c : Candidate)
    → c.review_status ≡ c.status
    → is_open c ≡ true
    → text_beq c.status (lit "accepted") ≡ false
unfolding is_open
open_unaccepted c e o = elim (Bool-cases (text_beq c.status (lit "accepted"))) [
  | inr h ↦ h
  | inl h ↦
      let f : c.status ≡ lit "accepted" = (text_beq_iff c.status (lit "accepted")).0 h in
      let g : is_open c ≡ false = rw (is_open, e, f, accepted_closed) refl in cc
]

-- Writing a candidate that is new or open, with the annotations that are due then.
module _ (r s : InMemoryRepository) (id : ℕ) (d : Candidate)
    (writes : s.candidates ≡ insert id d r.candidates) (below : id < s.next_id)
    (grows : r.next_id ≤ s.next_id) (same : d.review_status ≡ d.status)
    (counts : (k : ℕ)
      → annotations_of k s.annotations
        ≡ (if nat_beq id k then due (some d) else annotations_of k r.annotations))
    (open_or_new : (c : Candidate) → lookup id r.candidates ≡ some c → is_open c ≡ true) where
  written-cases :
      (k : ℕ) (c : Candidate)
      → lookup k s.candidates ≡ some c
      → ((k ≡ id) × (c ≡ d)) ⊎ (lookup k r.candidates ≡ some c)
  written-cases k c h =
      let g : lookup k (insert id d r.candidates) ≡ some c = rw (← writes) h in
      ground (arith, lookup-insert k id d r.candidates)

  written_annotated : Inv r → (k : ℕ) → annotations_of k s.annotations ≡ due (lookup k s.candidates)
  written_annotated inv k = elim (Bool-cases (nat_beq id k)) [
    | inl e ↦ rw (counts k, writes, lookup-insert k id d r.candidates, e) refl
    | inr e ↦ rw (counts k, writes, lookup-insert k id d r.candidates, e) (inv.annotated k)
  ]

  written-After : Inv r → After r s
  written-After inv = (
    record {
      ids = λ k c h. elim (written-cases k c h) [
        | inl (e, f) ↦ rw e below
        | inr old ↦ let b = inv.ids k c old in omega arith
      ];
      agrees = λ k c h. elim (written-cases k c h) [
        | inl (e, f) ↦ rw f same
        | inr old ↦ inv.agrees k c old
      ];
      annotated = written_annotated inv;
    },
    λ k c h. elim (Bool-cases (nat_beq id k)) [
      | inl e ↦
          let f : id ≡ k = (nat_beq_iff id k).0 e in
          let o = open_or_new c (rw f h) in
          (d, rw (writes, lookup-insert k id d r.candidates, e) refl, λ n. cc)
      | inr e ↦ (c, rw (writes, lookup-insert k id d r.candidates, e) h, λ n. refl)
    ],
  )

unannotated :
    (r : InMemoryRepository) (id : ℕ) (c : Candidate)
    → Inv r
    → lookup id r.candidates ≡ some c
    → is_open c ≡ true
    → annotations_of id r.annotations ≡ 0
unannotated r id c inv e o =
    inv.annotated id ∙ rw (e, due, open_unaccepted c (inv.agrees id c e) o) refl

unmade :
    (r : InMemoryRepository) (k : ℕ)
    → Inv r
    → nat_beq r.next_id k ≡ true
    → annotations_of k r.annotations ≡ 0
unmade r k inv e = elim (Option-cases (lookup k r.candidates)) [
  | inl f ↦ inv.annotated k ∙ rw (f, due) refl
  | inr (c, f) ↦ let b = inv.ids k c f in ground arith
]

-- The annotations that are due when a candidate without any is not accepted, and when it is.
module _ (r : InMemoryRepository) (id : ℕ) (d : Candidate)
    (none_yet : (k : ℕ) → nat_beq id k ≡ true → annotations_of k r.annotations ≡ 0) where
  counts_same :
      text_beq d.status (lit "accepted") ≡ false
      → (k : ℕ)
      → annotations_of k r.annotations
        ≡ (if nat_beq id k then due (some d) else annotations_of k r.annotations)
  counts_same unaccepted k = elim (Bool-cases (nat_beq id k)) [
    | inl e ↦ rw (e, none_yet k e, unaccepted) refl
    | inr e ↦ rw e refl
  ]

  counts_more :
      text_beq d.status (lit "accepted") ≡ true
      → (a : Annotation) → a.candidate_id ≡ id
      → (k : ℕ)
      → annotations_of k (r.annotations ++ a ∷ [])
        ≡ (if nat_beq id k then due (some d) else annotations_of k r.annotations)
  counts_more accepted a from k = elim (Bool-cases (nat_beq id k)) [
    | inl e ↦
        rw (annotations_of-append k r.annotations a, from, e, none_yet k e, accepted) (omega arith)
    | inr e ↦ rw (annotations_of-append k r.annotations a, from, e) (omega arith)
  ]

persist_one-After :
    (job : ℤ) (now : ℕ) (item : PersistCandidateInput) (r : InMemoryRepository)
    → Inv r
    → After r (persist_one job now item r)
persist_one-After job now item r inv =
    let d = new_candidate r.next_id job item now in
    written-After r (persist_one job now item r) r.next_id d (unfold persist_one in refl)
      (unfold persist_one in omega arith) (unfold persist_one in omega arith)
      (new_candidate_agrees r.next_id job item now)
      (unfold persist_one in
        counts_same r r.next_id d (λ k e. unmade r k inv e)
          (new_candidate_status r.next_id job item now))
      (λ c h. let b = inv.ids r.next_id c h in ground arith) inv

pub persist_all-After :
    (job : ℤ) (now : ℕ) (items : List PersistCandidateInput) (r : InMemoryRepository)
    → Inv r
    → After r ((persist_all job now items r).1)
unfolding persist_all
persist_all-After job now [] r inv = (inv, Evolves-refl r)
persist_all-After job now (item ∷ items) r inv =
    let r' = persist_one job now item r in
    let (inv', ev) = persist_one-After job now item r inv in
    let (inv'', ev') = persist_all-After job now items r' inv' in
    (inv'', Evolves-trans r r' ((persist_all job now items r').1) ev ev')

-- A decision on an open candidate.
module _ (id : ℕ) (c : Candidate) (r : InMemoryRepository) (inv : Inv r)
    (e : lookup id r.candidates ≡ some c) (o : is_open c ≡ true) where
  none_made : (k : ℕ) → nat_beq id k ≡ true → annotations_of k r.annotations ≡ 0
  none_made k h = rw (← (nat_beq_iff id k).0 h) (unannotated r id c inv e o)

  pub accept_open : (reviewer : Text) (now : ℕ) → After r (state_of (accept id reviewer now r))
  unfolding accept
  accept_open reviewer now =
      rw (e, accept, o, state_of)
        (written-After r _ id (decided (lit "accepted") reviewer now c) refl (inv.ids id c e)
          (omega arith) (decided_agrees (lit "accepted") reviewer now c)
          (counts_more r id (decided (lit "accepted") reviewer now c) none_made
            ((text_beq_iff _ _).1 (decided_status reviewer now c).0) _ refl)
          (λ x h. ground arith) inv)

  pub reject_open :
      (reviewer reason : Text) (now : ℕ) → After r (state_of (reject id reviewer reason now r))
  unfolding reject
  reject_open reviewer reason now =
      rw (e, reject, o, state_of)
        (written-After r _ id (decided (lit "rejected") reviewer now c) refl (inv.ids id c e)
          (omega arith) (decided_agrees (lit "rejected") reviewer now c)
          (counts_same r id (decided (lit "rejected") reviewer now c) none_made
            (decided_status reviewer now c).1)
          (λ x h. ground arith) inv)
