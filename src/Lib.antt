-- ===== src/Lib.antt =====
-- A payment gateway: orders, payments, refunds, the double-entry ledger behind them, the job queue that
-- delivers their events, and the HTTP interface in front of them. The model follows the repository crate by
-- crate.
--
-- Domain (crates/domain/src). Domain.Money is money.rs: `Money` with its checked operations, a number of
-- minor units as an integer of Prelude.Int, with `to_i64` for what fits in 64 bits and `wrap_i64` for the
-- unchecked operations. Domain.Ledger.Account, Entry and Transaction are the files of ledger/; `balanced`
-- is `BalancedTransaction::new`, with the hash map of sums as a table of slots. Domain.PaymentStatus and
-- Domain.OrderStatus are the two state machines, as `transition` and, in their Graph modules, as relations
-- with histories. Domain.Payment, Domain.Order and Domain.Card are payment.rs, order.rs and card.rs,
-- Domain.Id, Domain.ApiKey and Domain.Merchant id.rs, api_key.rs and merchant.rs. A text that the code
-- looks into is the list of its bytes or code points (Prelude.Bytes, Prelude.Text).
--
-- Crypto (crates/crypto/src). Crypto.Signing is signing.rs, the signatures of webhooks and of the checkout:
-- `build_header`, `parse_header` and `verify`, with the difference of two times wrapped to 64 bits as a
-- release build does it. Crypto.Envelope is encryption.rs, Crypto.ApiKey api_key.rs with digest.rs, and
-- Crypto.Fingerprint fingerprint.rs. HMAC, AES-GCM, SHA-256, Argon2 and the hexadecimal coding are
-- parameters, and what the operating system draws at random is an argument.
--
-- Store (crates/store/src). The tables are the record `Db` of Store.Db, and a statement is a function from
-- a state to a result and a state, `Tx`, with `?` as the bind of a do block. The CHECKs and unique indexes
-- of the migrations are part of the statements that they guard. Store.Orders, Payments, Refunds, Ledger and
-- Job are the files of these names; Store.Outbox is event.rs, webhook_delivery.rs, webhook_endpoint.rs and
-- `emit` of crates/engine/event.rs. `transaction` of Store.Ledger is begin, commit and rollback of tx.rs,
-- with the deferred trigger of the ledger at COMMIT. Store.Deliveries is the log of attempts in
-- webhook_delivery.rs, Store.Listing the pages that orders and events are read by. Store.Idempotency,
-- ApiKeys, Merchants, Disputes, Settlements and AuditLog are idempotency.rs, api_key.rs, merchant.rs,
-- dispute.rs, settlement.rs and audit_log.rs, each over the list of its rows. Store.Endpoints has the
-- statements on endpoints that the API runs, and Store.Payments.Row the columns of a payment, from which it
-- is read back; elsewhere the row of a payment or an order is the payment or order itself.
--
-- Engine (crates/engine). Engine.Fees is fees.rs with `proportional_fee_refund` of refund.rs,
-- Engine.Posting is ledger.rs, and Engine.Orders, Payments and Refunds are the services. `create_body`,
-- `capture_body` and `create_refund_body` are what the services run inside their transaction. Store.Success
-- says what a statement makes true where it succeeds, by which Engine.Payments.Created follows `create`.
--
-- Queue (crates/queue). Queue.Scheduler is the retry ladder of scheduler.rs, and Queue.Worker `execute` and
-- `tick` of worker.rs, over any handlers.
--
-- Webhooks (crates/webhooks). Webhooks.Worker is `deliver` of worker.rs, one of those handlers, over any
-- sending of an event to an endpoint; Webhooks.Delivery is the outcome that a sending has, and
-- Webhooks.Send `build_envelope` and `send` of delivery.rs, which sign the body that they send. A body with
-- a NUL character is refused by the column of the log, as the database documents of TEXT.
--
-- Simulator (crates/simulator). Simulator.Cards is the table of test cards and Simulator `decide` of
-- card_engine.rs.
--
-- Api (crates/api). Api.Error and Api.Validate are error.rs and validate.rs, Api.Pagination pagination.rs.
-- Api.Idempotency is middleware/idempotency.rs: `admit` is what happens before the handler and
-- `record_response` what happens after it; Api.Idempotency.Runs has the requests and the ends of handlers
-- as events in any order. Api.Auth, with Scopes, Cache and Bearer, is auth.rs: a lookup of a key goes
-- through the cache to the table of Store.ApiKeys. Api.Handler has what the handlers of a route share, and
-- Api.Routes.Payments, Orders, Refunds, Events and WebhookEndpoints are the files of routes/; POST
-- /payments composes authentication, validation, the simulator and the engine. Api.Extract is extract.rs,
-- the texts of rejected requests, Api.RequestId middleware/request_id.rs, and Api.Timeout
-- middleware/timeout.rs; Api.Idempotency.Abandoned puts the layer of timeouts around that of idempotency
-- keys, as routes/mod.rs does.
--
-- Server (crates/sandbox-server/src). Server.Seed is seed.rs: it writes the tables of merchants and keys,
-- from which Api.Auth reads.
--
-- Ids, times and uuids are natural numbers; a time counts seconds where the code adds to it, and any unit
-- elsewhere. The worker and the handler of webhooks read the clock each for itself, so that their times are
-- two arguments. The clock, the calendar, the keyed hash of a card number and the generator of uuids are
-- the parameters `Env`, about which nothing is assumed. The hash SHA-256, the JSON library, the texts of
-- uuids and dates, the handlers of the worker and of the middleware, the sending of a webhook, the rows
-- that other workers hold a lock on and the time at which a job is executed are arguments. No loop of the
-- code needs fuel: each runs over a list. The client that follows the cursors of a listing (`walk` of
-- Api.Pagination.Walk) runs on fuel, and more fuel than there are rows is enough. A service runs alone
-- between its begin and its commit, as the row locks make it do for one order or payment.
--
-- The HTTP library answers a webhook, and the framework says what a request is rejected for: both are
-- arguments, and so are the library of URLs and the database's `lower`. What a theorem asks of a library
-- (that a coding reads back what it wrote, that a MAC tells two texts apart) is among its hypotheses.
--
-- Not modelled: the route of health, the fallbacks and the state of the web framework, the JSON bodies of
-- requests and responses, start-up and configuration (crates/sandbox-server without seed.rs), failures of
-- the connection to the database outside the two middlewares, the JSON text of an event, which is kept as
-- the values that it is built from, and the loop of the worker.
pub mod Prelude
pub mod Domain
pub mod Store
pub mod Engine
pub mod Queue
pub mod Api
pub mod Simulator
pub mod Webhooks
pub mod Crypto
pub mod Server
pub mod Tests
