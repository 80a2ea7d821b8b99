-- ===== src/Store.antt =====
-- The store crate (crates/store): the tables, and the statements that the services run on them.
pub mod Merchants
pub mod Endpoints
pub mod Listing
pub mod ApiKeys
pub mod Error
pub mod Success
pub mod Job
pub mod Deliveries
pub mod Db
pub mod Rows
pub mod Orders
pub mod Payments
pub mod Refunds
pub mod Ledger
pub mod Disputes
pub mod Settlements
pub mod AuditLog
pub mod Outbox
pub mod Idempotency
