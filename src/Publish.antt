-- ===== src/Publish.antt =====
-- internal/publish: batches of accepted candidates on their way through review and the owner.
pub mod Model
pub mod Feedback
pub mod Repository
pub mod Decisions
pub mod Service
pub mod Workspace
pub mod Invariant
pub mod History
pub mod Approval
pub mod Evaluation
pub mod Published
pub mod Overlap
mod Tests
