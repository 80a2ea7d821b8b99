-- ===== src/Engine.antt =====
-- The engine crate (crates/engine): orchestration of orders, payments and refunds.
pub mod Fees
pub mod Posting
pub mod Orders
pub mod Payments
pub mod Refunds
pub mod Atomic
