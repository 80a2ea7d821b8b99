-- ===== src/Tests/Deliveries.antt =====
-- The theorems on the delivery of webhooks at a concrete job.
use payment_gateway_sandbox.Prelude.{
  ℕ, suc, ◌≡◌, ◌<◌, ◌⊎◌, ◌↔◌, ◌≤◌, true, refl, arith, Option, none, some, [], ◌∷◌, ltb,
  if◌then◌else◌,
}
use payment_gateway_sandbox.Prelude.Int.{pos}
use payment_gateway_sandbox.Prelude.Text.{characters}
use payment_gateway_sandbox.Domain.Money.{money, inr}
use payment_gateway_sandbox.Domain.Order.{new_order}
use payment_gateway_sandbox.Store.Db.{Db, Event, WebhookEndpoint, order_event_data}
use payment_gateway_sandbox.Store.Deliveries.{
  DeliveryStatus, WebhookDelivery, delivery_id_of, is_storable,
}
use payment_gateway_sandbox.Prelude.Bytes.{all_bytes}
use payment_gateway_sandbox.Store.Job.{Job, JobState, delivery_payload, fail_and_reschedule}
use payment_gateway_sandbox.Store.Outbox.{is_active, deliver_webhook}
use payment_gateway_sandbox.Store.Rows.{find_row}
use payment_gateway_sandbox.Queue.Worker.{execute}
use payment_gateway_sandbox.Webhooks.Delivery.{SendOutcome, failed}
use payment_gateway_sandbox.Webhooks.Worker.{webhook_handlers}
use payment_gateway_sandbox.Webhooks.Mirror.{
  IsDelivery, later_by, mirror_in_lockstep, mirror_lags_after_reap,
}

abbrev endpoint : WebhookEndpoint
endpoint = record {
  id = 3;
  merchant_id = 9;
  url = characters "https://shop.dev/wh";
  signing_secret = characters "whsec";
  enabled_events = [];
  disabled_at = none;
  created_at = 0;
}

abbrev event : Event
event = record {
  id = 2;
  merchant_id = 9;
  event_type = "order.paid";
  payload = order_event_data (new_order 1 9 (money (pos 10000) inr) none [] 0);
  api_version = "2026-01-01";
  created_at = 0;
}

abbrev first_delivery : WebhookDelivery
first_delivery = record {
  id = 7;
  event_id = 2;
  endpoint_id = 3;
  attempt = 1;
  status = DeliveryStatus.pending;
  response_status = none;
  response_body = none;
  duration_ms = none;
  next_retry_at = some 0;
}

-- The job of that delivery, claimed for a number of times.
abbrev claimed : ℕ → Job
claimed attempts = record {
  id = 8;
  kind = deliver_webhook;
  payload = delivery_payload 7 2 3;
  state = JobState.running;
  run_at = 0;
  attempts = attempts;
  max_attempts = 7;
  last_error = none;
  locked_at = some 1000;
  locked_by = some "w1";
  created_at = 0;
  updated_at = 1000;
}

abbrev db : ℕ → Db
db attempts = record {
  orders = [];
  payments = [];
  attempts = [];
  refunds = [];
  accounts = [];
  postings = [];
  endpoints = endpoint ∷ [];
  events = event ∷ [];
  deliveries = first_delivery ∷ [];
  jobs = claimed attempts ∷ [];
  drawn = 0;
}

-- Every sending meets an endpoint that answers 500.
abbrev send_500 : WebhookEndpoint → Event → SendOutcome
send_500 _ _ = failed (some 500) (some "boom") 20 "endpoint returned"

delivery_of_job : (attempts : ℕ) → IsDelivery (claimed attempts) (db attempts)
unfolding find_row is_active
delivery_of_job attempts = record {
  event = event;
  endpoint = endpoint;
  delivery = first_delivery;
  kind = refl;
  payload = refl;
  has_event = refl;
  has_endpoint = refl;
  has_delivery = refl;
  active = refl;
}

boom-storable : is_storable (some "boom") ≡ true
unfolding all_bytes
boom-storable = refl

-- In the first attempt the two counts agree; the handler reads the clock two seconds after the worker.
lockstep_example :
    let after = execute (webhook_handlers 1002 send_500) 1000 (claimed 1) (db 1) in
    (r : WebhookDelivery) × (find_row delivery_id_of 7 after.deliveries ≡ some r)
    × (real : Option ℕ) × (after.jobs
        ≡ fail_and_reschedule 8 "endpoint returned" real 1000 (db 1).jobs)
    × (r.next_retry_at ≡ later_by 2 real)
    × ((real ≡ none) ↔ (7 ≤ 1))
    × (r.status ≡ (if ltb 1 7 then DeliveryStatus.failed else DeliveryStatus.dead))
    × (r.attempt ≡ (if ltb 1 7 then suc 1 else 1))
unfolding delivery_of_job
lockstep_example =
    mirror_in_lockstep 1000 2 send_500 (claimed 1) (db 1) (delivery_of_job 1) (some 500)
      (some "boom") 20 "endpoint returned" refl boom-storable refl

-- A worker died in the first attempt, and the job was claimed again.
lag_example :
    let after = execute (webhook_handlers 1002 send_500) 1000 (claimed 2) (db 2) in
    (r : WebhookDelivery) × (find_row delivery_id_of 7 after.deliveries ≡ some r)
    × (r.status ≡ DeliveryStatus.failed)
    × (shown : ℕ) × (r.next_retry_at ≡ some shown)
    × (real : Option ℕ) × (after.jobs
        ≡ fail_and_reschedule 8 "endpoint returned" real 1000 (db 2).jobs)
    × ((real ≡ none) ⊎ ((t : ℕ) × (real ≡ some t) × (shown < t)))
unfolding delivery_of_job
lag_example =
    mirror_lags_after_reap 1000 2 send_500 (claimed 2) (db 2) (delivery_of_job 2) (some 500)
      (some "boom") 20 "endpoint returned" refl boom-storable refl (omega arith) (omega arith)
