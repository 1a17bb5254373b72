-- ===== src/Review.antt =====
-- internal/review: the candidates that people accept or reject.
pub mod Model
pub mod Repository
pub mod Service
pub mod History
mod Tests
