-- ===== src/Engine/Posting/Balances.antt =====
-- What a capture does to the balance of the merchant's pending account.
use payment_gateway_sandbox.Store.Db.{Db, Posting}
