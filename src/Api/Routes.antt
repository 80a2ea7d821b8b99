-- ===== src/Api/Routes.antt =====
-- The route handlers (crates/api/routes): the checks of each in their order, the service that it calls, and
-- the answer that becomes of the service's result.
pub mod Payments
pub mod Orders
pub mod Refunds
pub mod Events
pub mod WebhookEndpoints
