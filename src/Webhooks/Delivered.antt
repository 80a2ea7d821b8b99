-- ===== src/Webhooks/Delivered.antt =====
-- The job of a delivery whose endpoint checks signatures, from the queue to the endpoint's answer.
use payment_gateway_sandbox.Prelude.Bytes.{Bytes}
use payment_gateway_sandbox.Store.Db.{Db}
use payment_gateway_sandbox.Store.Job
use payment_gateway_sandbox.Store.Job.{Job}
