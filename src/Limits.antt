-- ===== src/Limits.antt =====
-- backend/internal/ratelimit.
pub mod Concurrency
