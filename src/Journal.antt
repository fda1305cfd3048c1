-- ===== src/Journal.antt =====
-- The double-entry journal of the platform's finance:
-- apps/api/internal/platformfinance/journal*.go.
pub mod Types
pub mod Patterns
pub mod Validate
pub mod Reversal
pub mod Posting
mod Scenarios
