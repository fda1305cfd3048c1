-- ===== src/Availability.antt =====
-- The slots of a court on a day: apps/api/internal/availability.
pub mod Types
pub mod Slots
pub mod Clock
pub mod Schedule
pub mod Clear
pub mod Free
mod Scenarios
