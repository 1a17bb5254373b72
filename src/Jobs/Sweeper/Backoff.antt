-- ===== src/Jobs/Sweeper/Backoff.antt =====
-- The retry backoff of internal/jobs/sweeper.go (retryBackoffDuration) in closed form.
use yolo_ave_mujica.Jobs.Sweeper.{Sweeper}
