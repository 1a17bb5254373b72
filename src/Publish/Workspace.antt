-- ===== src/Publish/Workspace.antt =====
-- internal/publish/workspace.go: the view of a batch for the people who decide on it.
use yolo_ave_mujica.Base.{
  ℕ, ℤ, ◌&&◌, if◌then◌else◌, ◌==◌, Text, text_key, is_empty, lit, nat_beq, List, [], ◌∷◌, ◌++◌, map,
  Option, none, some, pass, ◌>>=◌,
}
use yolo_ave_mujica.Jobs.Value.{Detail, obj, detail_of, index}
use yolo_ave_mujica.Publish.Model.{Status, Batch, BatchItem, Feedback}
use yolo_ave_mujica.Publish.Service.{Action, get_batch}

-- The action of a review is its decision, that of the owner is the batch's status.
pub data TimelineAction : Type 0 where
  approved : TimelineAction
  reached : Status → TimelineAction

pub record TimelineEntry : Type 0 where
  pub stage : Text
  pub actor : Text
  pub action : TimelineAction
  pub at : ℕ

pub record WorkspaceItem : Type 0 where
  pub item_id : ℕ
  pub candidate_id : ℤ
  pub task_id : ℤ
  pub overlay : Detail
  pub diff : Detail
  pub context : Detail
  pub feedback : List Feedback

pub record Workspace : Type 0 where
  pub batch : Batch
  pub items : List WorkspaceItem
  pub history : List TimelineEntry

-- The inner loop of buildWorkspace.
unfoldable pub feedback_for : ℕ → List Feedback → List Feedback
feedback_for item [] = []
feedback_for item (f ∷ fs) =
    let rest = feedback_for item fs in
    if f.scope == lit "item" && nat_beq f.publish_batch_item_id item then f ∷ rest else rest

unfoldable pub timeline : Text → TimelineAction → Text → Option ℕ → List TimelineEntry
timeline stage action actor none = []
timeline stage action actor (some at) =
    if is_empty actor
    then []
    else record { stage = stage; actor = actor; action = action; at = at } ∷ []

module _ (clone : Detail → Detail) where
  unfoldable pub nested_payload : Detail → Text → Detail
  unfolding detail_of index
  nested_payload payload key = elim (index key payload) [ obj fs ↦ clone (detail_of fs) | _ ↦ [] ]

  unfoldable pub workspace_item : List Feedback → BatchItem → WorkspaceItem
  unfolding nested_payload feedback_for
  workspace_item feedback i = record {
    item_id = i.id;
    candidate_id = i.candidate_id;
    task_id = i.task_id;
    overlay = nested_payload i.item_payload (lit "overlay");
    diff = nested_payload i.item_payload (lit "diff");
    context = nested_payload i.item_payload (lit "context");
    feedback = feedback_for i.id feedback;
  }

  unfoldable pub build_workspace : Batch → Workspace
  unfolding workspace_item timeline
  build_workspace b = record {
    batch = b;
    items = map (workspace_item b.feedback) b.items;
    history =
        timeline (lit "review") approved b.review_approved_by b.review_approved_at
        ++ timeline (lit "owner") (reached b.status) b.owner_decided_by b.owner_decided_at;
  }

  -- GetWorkspace of internal/publish/service.go.
  unfoldable pub get_workspace : ℤ → Action Workspace
  unfolding get_batch build_workspace
  get_workspace id = do b ← get_batch clone id; pass (build_workspace b)
