-- ===== src/Versioning.antt =====
-- internal/versioning: the difference of two snapshots.
pub mod Model
pub mod Matching
pub mod Diff
pub mod Counts
pub mod Conservation
pub mod Groups
pub mod Updates
pub mod Laws
mod Tests
