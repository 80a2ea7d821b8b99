-- ===== src/Webhooks.antt =====
-- The delivery of webhooks (crates/webhooks).
pub mod Delivery
pub mod Worker
pub mod Mirror
pub mod Send
pub mod Delivered
