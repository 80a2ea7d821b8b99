-- ===== src/Webhooks/Worker.antt =====
-- The handler of the jobs that deliver a webhook (crates/webhooks/worker.rs). `send` is the sending of an
-- event to an endpoint; what an error's text says of the cause is left out.
use payment_gateway_sandbox.Prelude.{
  ℕ, ◌+◌, String, Option, none, some, List, [], ◌∷◌, if◌then◌else◌,
}
use payment_gateway_sandbox.Prelude.Result.{Result, ok, err}
use payment_gateway_sandbox.Store.Error.{StoreError}
use payment_gateway_sandbox.Store.Db.{Db, Event, WebhookEndpoint}
use payment_gateway_sandbox.Store.Deliveries.{
  DeliveryStatus, WebhookDelivery, delivery_id_of, record_attempt,
}
use payment_gateway_sandbox.Store.Job.{payment_payload, delivery_payload}
use payment_gateway_sandbox.Store.Outbox.{is_active, deliver_webhook}
use payment_gateway_sandbox.Store.Rows.{find_row}
use payment_gateway_sandbox.Queue.Scheduler.{next_retry_at}
use payment_gateway_sandbox.Queue.Worker.{Handler, Handled, handled, retryable, permanent}
use payment_gateway_sandbox.Webhooks.Delivery.{SendOutcome, delivered, failed}

abbrev pub event_id_of : Event → ℕ
event_id_of e = e.id

abbrev pub endpoint_id_of : WebhookEndpoint → ℕ
endpoint_id_of e = e.id

-- A sending that succeeded and is not written down is tried again.
abbrev pub must_record : Db → Result (List WebhookDelivery) StoreError → Handled × Db
must_record db (ok rows) = (handled, record db { deliveries = rows })
must_record db (err e) = (retryable "failed to record delivery", db)

-- `let _ = record_attempt(…)`
abbrev pub may_record : Db → Result (List WebhookDelivery) StoreError → Db
may_record db (ok rows) = record db { deliveries = rows }
may_record db (err e) = db

-- The `match` on the next retry: the status and the attempt that are written down.
abbrev pub mirrored : ℕ → Option ℕ → DeliveryStatus × ℕ
mirrored attempt (some _) = (DeliveryStatus.failed, attempt + 1)
mirrored attempt none = (DeliveryStatus.dead, attempt)

-- The `match` on what the sending came to.
unfoldable pub after_send : ℕ → WebhookDelivery → SendOutcome → Db → Handled × Db
unfolding record_attempt
after_send now d (delivered status body duration) db = must_record db (
    record_attempt d.id DeliveryStatus.delivered (some status) (some body) duration none d.attempt
      db.deliveries)
after_send now d (failed status body duration error) db =
    let next_retry = next_retry_at d.attempt now in
    let row = mirrored d.attempt next_retry in
    (
      retryable error,
      may_record db (record_attempt d.id row.0 status body duration next_retry row.1 db.deliveries),
    )

abbrev pub deliver_to :
    ℕ
    → (WebhookEndpoint → Event → SendOutcome)
    → Option Event
    → Option WebhookEndpoint
    → Option WebhookDelivery
    → Db
    → Handled × Db
deliver_to now send none endpoint delivery db = (permanent "event missing", db)
deliver_to now send (some event) none delivery db = (permanent "endpoint missing", db)
deliver_to now send (some event) (some endpoint) none db = (permanent "delivery row missing", db)
deliver_to now send (some event) (some endpoint) (some d) db =
    if is_active endpoint then after_send now d (send endpoint event) db else (
      permanent "endpoint disabled",
      may_record db (
          record_attempt d.id DeliveryStatus.dead none (some "endpoint disabled") 0 none d.attempt
            db.deliveries),
    )

-- `WebhookDeliveryHandler::deliver`
unfoldable pub deliver : ℕ → (WebhookEndpoint → Event → SendOutcome) → Handler
unfolding after_send
deliver now send (payment_payload _) db = (permanent "malformed payload", db)
deliver now send (delivery_payload delivery event endpoint) db =
    deliver_to now send (find_row event_id_of event db.events)
      (find_row endpoint_id_of endpoint db.endpoints)
      (find_row delivery_id_of delivery db.deliveries) db

-- The handlers of a worker that delivers webhooks, under the kind of the job.
abbrev pub webhook_handlers : ℕ → (WebhookEndpoint → Event → SendOutcome) → List (String × Handler)
webhook_handlers now send = (deliver_webhook, deliver now send) ∷ []
