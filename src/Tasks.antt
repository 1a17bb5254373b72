-- ===== src/Tasks.antt =====
-- internal/tasks: the tasks that people work on.
pub mod Model
pub mod Equality
pub mod Flow
pub mod Repository
pub mod Service
pub mod Validity
pub mod Transition
pub mod Listing
pub mod Closing
pub mod History
mod Tests
