-- ===== src/Outbox.antt =====
-- The outbox of commands to the payment provider: apps/api/internal/paymentoutbox.
pub mod Types
pub mod Lease
pub mod Operations
pub mod Invariant
pub mod Trace
pub mod History
pub mod Lives
mod Scenarios
