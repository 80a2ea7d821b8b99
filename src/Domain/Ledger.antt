-- ===== src/Domain/Ledger.antt =====
-- Double-entry bookkeeping (crates/domain/src/ledger).
pub mod Account
pub mod Entry
pub mod Transaction
pub mod Sums
pub mod Balanced
