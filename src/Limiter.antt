-- ===== src/Limiter.antt =====
-- The rate limiter in memory: apps/api/internal/middleware/rate_limiter.go.
pub mod Memory
pub mod Windows
mod Scenarios
