-- ===== src/Payments.antt =====
-- Payment attempts and captures: apps/api/internal/payments and apps/api/internal/provideridentity.
pub mod Types
pub mod Identity
pub mod Capture
pub mod Operations
pub mod Runs
pub mod Bookings
pub mod Replay
pub mod Captured
pub mod Finalize
pub mod Transition
mod Scenarios
