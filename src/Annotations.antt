-- ===== src/Annotations.antt =====
-- internal/annotations: drafts of annotations for tasks, and their submission.
pub mod Model
pub mod Repository
pub mod Service
pub mod Invariant
pub mod History
pub mod Conflict
pub mod Submission
mod Tests
