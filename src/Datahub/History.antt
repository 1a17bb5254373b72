-- ===== src/Datahub/History.antt =====
-- Histories of calls on the data hub (internal/datahub/service.go), one after the other, each with the time
-- that it reads. EnsureCategory is a call of the repository.
pub mod Laws
use yolo_ave_mujica.Base.{ℕ, ℤ, Text, List, [], ◌∷◌, Option, state_of}
use yolo_ave_mujica.Datahub.Model.{CreateDatasetInput, CreateSnapshotInput, ImportSnapshotInput}
use yolo_ave_mujica.Datahub.Repository.{InMemoryRepository}
use yolo_ave_mujica.Datahub.Items.{ensure_category}
use yolo_ave_mujica.Datahub.Service.{ObjectScanner, create_dataset, create_snapshot, scan_dataset}
use yolo_ave_mujica.Datahub.Import.{import_snapshot}

pub data Call : Type 0 where
  creates : CreateDatasetInput → Call
  takes_snapshot : ℕ → CreateSnapshotInput → Call
  scans : ℕ → List Text → Call
  ensures : ℤ → Text → Call
  imports : ℕ → ImportSnapshotInput → Call

module _ (format : ℕ → Text) (scanner : Option ObjectScanner) where
  unfoldable pub step : ℕ × Call → InMemoryRepository → InMemoryRepository
  step (now, creates i) r = state_of (create_dataset i r)
  step (now, takes_snapshot id i) r = state_of (create_snapshot id i r)
  step (now, scans id object_keys) r = state_of (scan_dataset scanner id object_keys now r)
  step (now, ensures project name) r = (ensure_category project name r).1
  step (now, imports id i) r = state_of (import_snapshot format id i r)

  unfoldable pub run : List (ℕ × Call) → InMemoryRepository → InMemoryRepository
  run [] r = r
  run (c ∷ cs) r = run cs (step c r)
