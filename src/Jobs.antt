-- ===== src/Jobs.antt =====
-- internal/jobs: the lifecycle of asynchronous jobs.
pub mod Value
pub mod Model
pub mod StateMachine
pub mod Repository
pub mod EventLog
pub mod Dispatcher
pub mod Sweeper
pub mod Normalize
pub mod Service
pub mod Reports
pub mod Invariant
pub mod History
mod Tests
