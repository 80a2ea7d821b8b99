-- ===== src/Domain.antt =====
-- The domain crate (crates/domain): plain data, with no I/O.
pub mod Merchant
pub mod Id
pub mod ApiKey
pub mod Money
pub mod Ledger
pub mod PaymentStatus
pub mod OrderStatus
pub mod Payment
pub mod Order
pub mod Card
