-- ===== src/Publish/Feedback.antt =====
-- Feedback on a batch: newFeedbackLocked of internal/publish/in_memory_repository.go and
-- normalizeDecisionFeedback of service.go.
use yolo_ave_mujica.Base.{
  ℕ, suc, nat_beq, Bool, ◌&&◌, ◌||◌, not, if◌then◌else◌, ◌==◌, Text, text_key, is_empty, lit,
  trim_space, List, [], ◌∷◌, map, Option, none, some,
}
use yolo_ave_mujica.Publish.Model.{Feedback, CreateFeedbackInput}

-- `if s == "" { s = default }`.
abbrev pub text_or : Text → Text → Text
text_or default s = if is_empty s then default else s

-- `f == 0` on the bits of a float64: the two zeros.
abbrev pub float_is_zero : ℕ → Bool
float_is_zero bits = nat_beq bits 0 || nat_beq bits 0x8000000000000000

abbrev pub item_id_of : Option ℕ → ℕ
item_id_of none = 0
item_id_of (some id) = id

abbrev pub default_scope : Option ℕ → Text
default_scope none = lit "batch"
default_scope (some id) = lit "item"

-- The feedback with the next id; 0x3ff… are the bits of 1.0.
unfoldable pub new_feedback : ℕ → ℕ → Option ℕ → CreateFeedbackInput → ℕ → Feedback
new_feedback id batch_id item_id i now = record {
  id = id;
  publish_batch_id = batch_id;
  publish_batch_item_id = item_id_of item_id;
  scope = text_or (default_scope item_id) i.scope;
  stage = text_or (lit "review") i.stage;
  action = text_or (lit "comment") i.action;
  reason_code = text_or (lit "unspecified") i.reason_code;
  severity = text_or (lit "medium") i.severity;
  influence_weight =
      if float_is_zero i.influence_weight then 0x3ff0000000000000 else i.influence_weight;
  comment = i.comment;
  created_by = i.actor;
  created_at = now;
}

-- The loop over the feedback of a decision: the entries that it adds. Each takes the next id.
unfoldable pub new_feedbacks : ℕ → ℕ → List CreateFeedbackInput → ℕ → List Feedback
unfolding new_feedback
new_feedbacks next batch_id [] now = []
new_feedbacks next batch_id (i ∷ is) now =
    new_feedback next batch_id none i now ∷ new_feedbacks (suc next) batch_id is now

unfoldable pub normalize_actor : Text → Text
unfolding trim_space
normalize_actor actor = text_or (lit "system") (trim_space actor)

-- The body of the loop of normalizeDecisionFeedback.
unfoldable pub normalize_feedback : Text → Text → CreateFeedbackInput → CreateFeedbackInput
unfolding normalize_actor
normalize_feedback actor stage i =
    let by = normalize_actor i.actor in
    record i {
      actor = if by == lit "system" && not (is_empty actor) then actor else by;
      stage = text_or stage i.stage;
    }

unfoldable pub normalize_decision_feedback :
    List CreateFeedbackInput → Text → Text → List CreateFeedbackInput
unfolding normalize_feedback
normalize_decision_feedback items actor stage = map (normalize_feedback actor stage) items
