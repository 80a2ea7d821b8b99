-- ===== src/Api.antt =====
-- The HTTP layer (crates/api), from the extractors inwards.
pub mod Error
pub mod Validate
pub mod Timeout
pub mod Extract
pub mod RequestId
pub mod Idempotency
pub mod Auth
pub mod Handler
pub mod Pagination
pub mod Routes
