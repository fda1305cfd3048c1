-- ===== src/Finance.antt =====
-- The platform's finance core: apps/api/internal/platformfinance.
pub mod Money
pub mod Fees
mod Scenarios
