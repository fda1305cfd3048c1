-- ===== src/Worker.antt =====
-- The worker that sends the commands to the provider: apps/api/internal/paymentworker.
pub mod Decision
pub mod Retry
mod Scenarios
