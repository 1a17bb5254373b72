-- ===== src/Auth.antt =====
-- internal/auth: who calls, and how often.
pub mod RateLimit
pub mod Scope
mod Tests
