-- ===== src/Publish/Invariant/Parts.antt =====
-- The parts of a good batch: items, feedback, clones; and writing a batch.
use yolo_ave_mujica.Base.{
  ℕ, suc, ◌+◌, ◌≤◌, ◌≡◌, refl, ℤ, false, Text, is_empty, lit, nat_key, List, [], ◌∷◌, ◌++◌, map,
  Option, none, some, arith, int_beq_iff,
}
use yolo_ave_mujica.Jobs.Value.{Detail}
use yolo_ave_mujica.Publish.Model.{BatchItem, Feedback, CreateBatchItemInput, CreateFeedbackInput}
use yolo_ave_mujica.Publish.Feedback.{new_feedback, new_feedbacks, text_or, default_scope}
use yolo_ave_mujica.Publish.Repository.{count, clone_item, new_items}
use yolo_ave_mujica.Publish.Service.{validate_all, validate_batch_item}
use yolo_ave_mujica.Publish.Invariant.{Numbered, IsComplete, Rising}

pub Numbered-mono :
    (batch : ℕ) (snapshot : ℤ) (i low next next' : ℕ) (xs : List BatchItem)
    → next ≤ next'
    → Numbered batch snapshot i low next xs
    → Numbered batch snapshot i low next' xs
Numbered-mono batch snapshot i low next next' [] le h = omega arith
Numbered-mono batch snapshot i low next next' (x ∷ xs) le (a, b, c, d, h) =
    (a, b, c, d, Numbered-mono batch snapshot (suc i) (suc x.id) next next' xs le h)

pub Numbered-low :
    (batch : ℕ) (snapshot : ℤ) (i low next : ℕ) (xs : List BatchItem)
    → Numbered batch snapshot i low next xs
    → Numbered batch snapshot i 0 next xs
Numbered-low batch snapshot i low next [] h = omega arith
Numbered-low batch snapshot i low next (x ∷ xs) (a, b, c, d, h) = (a, b, c, omega arith, h)

pub Numbered-map :
    (clone : Detail → Detail) (batch : ℕ) (snapshot : ℤ) (i low next : ℕ) (xs : List BatchItem)
    → Numbered batch snapshot i low next xs
    → Numbered batch snapshot i low next (map (clone_item clone) xs)
unfolding clone_item
Numbered-map clone batch snapshot i low next [] h = h
Numbered-map clone batch snapshot i low next (x ∷ xs) (a, b, c, d, h) =
    (a, b, c, d, Numbered-map clone batch snapshot (suc i) (suc x.id) next xs h)

pub Rising-mono :
    (batch low next next' : ℕ) (fs : List Feedback)
    → next ≤ next'
    → Rising batch low next fs
    → Rising batch low next' fs
Rising-mono batch low next next' [] le h = omega arith
Rising-mono batch low next next' (f ∷ fs) le (a, b, c, h) =
    (a, b, c, Rising-mono batch (suc f.id) next next' fs le h)

pub Rising-append :
    (batch low next next' : ℕ) (fs more : List Feedback)
    → Rising batch low next fs
    → Rising batch next next' more
    → Rising batch low next' (fs ++ more)
Rising-append batch low next next' [] [] h k = omega arith
Rising-append batch low next next' [] (m ∷ more) h (a, b, c, k) = (a, b, omega arith, k)
Rising-append batch low next next' (f ∷ fs) more (a, b, c, h) k =
    (a, b, c, Rising-append batch (suc f.id) next next' fs more h k)

-- The items that a validated input makes.
pub new_items-Numbered :
    (clone : Detail → Detail) (snapshot : ℤ) (next i batch now : ℕ) (is : List CreateBatchItemInput)
    → validate_all snapshot is ≡ none
    → Numbered batch snapshot i next (next + count is) (new_items clone next i batch is now)
unfolding new_items validate_all validate_batch_item
new_items-Numbered clone snapshot next i batch now [] h = omega arith
new_items-Numbered clone snapshot next i batch now (x ∷ xs) h =
    let later = new_items-Numbered clone snapshot (suc next) (suc i) batch now xs (ground arith) in
    (
      refl,
      (int_beq_iff x.snapshot_id snapshot).0 (ground arith),
      refl,
      omega arith,
      Numbered-mono batch snapshot (suc i) (suc next) (suc next + count xs) (next + suc (count xs))
          (new_items clone (suc next) (suc i) batch xs now) (omega arith) later,
    )

pub text_or-cons :
    (default s : Text) → is_empty default ≡ false → is_empty (text_or default s) ≡ false
text_or-cons default [] h = h
text_or-cons default (c ∷ s) h = refl

default_scope-cons : (o : Option ℕ) → is_empty (default_scope o) ≡ false
unfolding lit
default_scope-cons none = refl
default_scope-cons (some id) = refl

pub new_feedback-IsComplete :
    (id batch : ℕ) (item : Option ℕ) (i : CreateFeedbackInput) (now : ℕ)
    → IsComplete (new_feedback id batch item i now)
unfolding new_feedback
new_feedback-IsComplete id batch item i now = record {
  has_scope = text_or-cons (default_scope item) i.scope (default_scope-cons item);
  has_stage = text_or-cons (lit "review") i.stage (unfold lit in refl);
  has_action = text_or-cons (lit "comment") i.action (unfold lit in refl);
  has_reason = text_or-cons (lit "unspecified") i.reason_code (unfold lit in refl);
  has_severity = text_or-cons (lit "medium") i.severity (unfold lit in refl);
  has_weight = ground arith;
}

pub new_feedbacks-Rising :
    (next batch now : ℕ) (is : List CreateFeedbackInput)
    → Rising batch next (next + count is) (new_feedbacks next batch is now)
unfolding new_feedbacks
new_feedbacks-Rising next batch now [] = omega arith
new_feedbacks-Rising next batch now (i ∷ is) = (
  unfold new_feedback in refl,
  new_feedback-IsComplete next batch none i now,
  unfold new_feedback in omega arith,
  unfold new_feedback in
      Rising-mono batch (suc next) (suc next + count is) (next + suc (count is))
        (new_feedbacks (suc next) batch is now) (omega arith)
        (new_feedbacks-Rising (suc next) batch now is),
)
