-- ===== src/Auth/RateLimit.antt =====
-- fixedWindowLimiter of internal/auth/rate_limit.go. Its body after l.now() is one step under the lock,
-- so the times of the steps need not rise. Times and durations count nanoseconds.
pub mod Window
use yolo_ave_mujica.Base.{
  ℕ, suc, ◌+◌, ◌-◌, ℤ, to_nat, not_positive, ltb, leb, Bool, true, false, not, ◌||◌, if◌then◌else◌,
  ◌==◌, Text, text_key, Map, lookup, insert, List, [], ◌∷◌, none, some,
}

pub record FixedWindowBucket : Type 0 where
  pub window_start : ℕ
  pub count : ℕ

-- The fields of the limiter that never change.
pub record FixedWindowLimiter : Type 0 where
  pub limit : ℤ
  pub window : ℤ

abbrev pub Buckets : Type 0
Buckets = Map Text FixedWindowBucket

-- Whether the request may pass, and when to retry if it may not.
abbrev pub Answer : Type 0
Answer = Bool × ℕ

unfoldable pub open_window : Text → ℕ → Buckets → Answer × Buckets
open_window key now buckets =
    ((true, 0), insert key (record { window_start = now; count = 1 }) buckets)

-- The body for a bucket whose window has not ended; `end` is the end of its window.
unfoldable pub count_request : ℕ → ℕ → Text → ℕ → FixedWindowBucket → Buckets → Answer × Buckets
count_request limit end key now bucket buckets =
    if leb limit bucket.count
    then ((false, end - now), buckets)
    else ((true, 0), insert key (record bucket { count = suc bucket.count }) buckets)

unfoldable pub allow : FixedWindowLimiter → Text → ℕ → Buckets → Answer × Buckets
unfolding open_window count_request
allow l key now buckets =
    if not_positive l.limit || not_positive l.window
    then ((true, 0), buckets)
    else elim (lookup key buckets) [
      | none ↦ open_window key now buckets
      | some bucket ↦
          let end = bucket.window_start + to_nat l.window in
          if not (ltb now end)
          then open_window key now buckets
          else count_request (to_nat l.limit) end key now bucket buckets
    ]
