-- ===== src/Meter.antt =====
-- The metering of usage: billing periods, the completeness of a metered window, the overage
-- decision, its settlement into the credit ledger and the settlement run over every tenant.
pub mod Calendar
pub mod Period
pub mod Window
pub mod Debit
pub mod Settle
pub mod Run
mod Tests
