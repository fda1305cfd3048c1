-- ===== src/Terms.antt =====
-- The commercial term that holds for an owner at an instant:
-- apps/api/internal/platformfinance/commercial_term_resolver.go.
pub mod Resolver
pub mod Winner
mod Scenarios
