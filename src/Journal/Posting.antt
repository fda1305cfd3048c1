-- ===== src/Journal/Posting.antt =====
-- Posting a journal: apps/api/internal/platformfinance/journal_service.go, journal_hash.go,
-- journal_replay.go and journal_repository.go.
pub mod Hash
pub mod Store
pub mod Repository
pub mod Replay
pub mod Service
pub mod Appended
pub mod Outcome
pub mod Reversing
pub mod Ledger
pub mod Preserved
pub mod Loading
pub mod Books
pub mod Answers
mod Scenarios
pub mod Again
pub mod Idempotent
