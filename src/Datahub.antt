-- ===== src/Datahub.antt =====
-- internal/datahub: datasets, their items and snapshots, and the import of annotations.
pub mod Model
pub mod Repository
pub mod Items
pub mod Service
pub mod Import
pub mod Imported
pub mod Invariant
pub mod History
mod Tests
