-- ===== src/Tests/Endpoints.antt =====
-- The theorems on webhook endpoints at concrete rows and requests.
use payment_gateway_sandbox.Prelude.{
  ℕ, ◌+◌, ◌≡◌, refl, arith, Bool, true, false, Option, none, some, List, [], ◌∷◌, if◌then◌else◌,
}
use payment_gateway_sandbox.Prelude.Int.{pos}
use payment_gateway_sandbox.Prelude.Bytes.{Bytes}
use payment_gateway_sandbox.Prelude.Text.{characters}
use payment_gateway_sandbox.Prelude.Result.{Result, ok, err}
use payment_gateway_sandbox.Domain.ApiKey.{full_access}
use payment_gateway_sandbox.Domain.Money.{money, inr}
use payment_gateway_sandbox.Domain.Order.{new_order}
use payment_gateway_sandbox.Domain.Id.{id_from_str}
use payment_gateway_sandbox.Crypto.Signing.{SignatureError, verify, default_tolerance_secs}
use payment_gateway_sandbox.Store.Db.{Db, Env, WebhookEndpoint, Event, order_event_data}
use payment_gateway_sandbox.Store.Rows.{find_row}
use payment_gateway_sandbox.Store.Outbox.{active_rows, active_for_merchant, emit}
use payment_gateway_sandbox.Api.Auth.Cache.{AuthCtx}
use payment_gateway_sandbox.Api.Auth.Scopes.{from_slice, contains}
use payment_gateway_sandbox.Api.Auth.{require}
use payment_gateway_sandbox.Api.Handler.{path_id}
use payment_gateway_sandbox.Api.Validate.{Url}
use payment_gateway_sandbox.Api.Routes.WebhookEndpoints.{disable}
use payment_gateway_sandbox.Api.Routes.WebhookEndpoints.Limit.{
  IsCapped, EndpointRequest, creates, disables, answer_all, answer_all-IsCapped,
}
use payment_gateway_sandbox.Api.Routes.WebhookEndpoints.Disabled.{
  deliveries_to, disabled_endpoint_is_silent,
}
use payment_gateway_sandbox.Webhooks.Delivery.{HttpResult, responded}
use payment_gateway_sandbox.Webhooks.Send.{Sender, HttpRequest}
use payment_gateway_sandbox.Webhooks.Mirror.{IsDelivery}
use payment_gateway_sandbox.Store.Job
use payment_gateway_sandbox.Store.Job.{Job, JobState, delivery_payload}
use payment_gateway_sandbox.Store.Outbox.{deliver_webhook, is_active}
use payment_gateway_sandbox.Store.Deliveries.{DeliveryStatus, WebhookDelivery}
use payment_gateway_sandbox.Tests.Signatures.{open_libraries, webhook_secret}

abbrev shop : WebhookEndpoint
shop = record {
  id = 3;
  merchant_id = 9;
  url = characters "https://shop.dev/wh";
  signing_secret = webhook_secret;
  enabled_events = [];
  disabled_at = none;
  created_at = 0;
}

abbrev db_with : List WebhookEndpoint → Db
db_with rows = record {
  orders = [];
  payments = [];
  attempts = [];
  refunds = [];
  accounts = [];
  postings = [];
  endpoints = rows;
  events = [];
  deliveries = [];
  jobs = [];
  drawn = 0;
}

abbrev env : Env
env = record {
  now = 1000;
  year_month = λ t. record { year = 2026; month = 7 };
  card_fingerprint = λ n. "fp";
  uuid = λ n. 100 + n;
}

abbrev owner : AuthCtx
owner = record { merchant_id = 9; key_id = 1; scopes = from_slice full_access }

abbrev parse_uuid : Bytes → Option ℕ
parse_uuid text = some 3

disables-shop : (disable env parse_uuid owner (characters "we_3") (db_with (shop ∷ []))).0 ≡ ok 3
unfolding disable require contains from_slice path_id id_from_str find_row
disables-shop = refl

silent_example :
    let after = (disable env parse_uuid owner (characters "we_3") (db_with (shop ∷ []))).1 in
    let sent =
      (emit env
        (active_for_merchant 9 after.endpoints)
        9
        "order.paid"
        (order_event_data (new_order 1 9 (money (pos 10000) inr) none [] 0))
        after).1 in
    deliveries_to 3 sent.deliveries ≡ deliveries_to 3 after.deliveries
silent_example =
    disabled_endpoint_is_silent env env parse_uuid owner (characters "we_3") 3 9 "order.paid"
      (order_event_data (new_order 1 9 (money (pos 10000) inr) none [] 0)) (db_with (shop ∷ []))
      (tt, tt) disables-shop

abbrev parse_url : Bytes → Option Url
parse_url text = some (record {
  scheme = characters "https";
  has_host = true;
  username = [];
  has_password = false;
  has_fragment = false;
  to_string = text;
})

abbrev requests : List EndpointRequest
requests =
    creates env (characters "random") owner
      (record { url = characters "https://shop.dev/wh"; enabled_events = [] })
    ∷ disables env owner (characters "we_100")
    ∷ []

none_active : IsCapped (db_with [])
unfolding active_rows
none_active merchant = omega arith

answer_all-IsCapped_example :
    IsCapped (answer_all open_libraries parse_url parse_uuid requests (db_with []))
answer_all-IsCapped_example =
    answer_all-IsCapped open_libraries parse_url parse_uuid requests (db_with []) none_active

abbrev is_accepted : Result (Unit {0}) SignatureError → Bool
is_accepted (ok _) = true
is_accepted (err _) = false

-- An endpoint that verifies what it gets at 1100.
abbrev answered_by_shop : HttpRequest → HttpResult × ℕ
answered_by_shop request =
    if is_accepted (
      verify open_libraries webhook_secret request.signature request.body (pos 1100)
        default_tolerance_secs)
    then (responded 200 (characters "ok"), 25)
    else (responded 400 [], 25)

abbrev sender : Sender
sender = record {
  lib = open_libraries;
  print_uuid = λ u. u ∷ [];
  rfc3339 = λ t. t ∷ [];
  print_json = λ e. e.id;
  lossy = λ bytes. "text";
  max_response_bytes = 2048;
  post = answered_by_shop;
}

abbrev paid : Event
paid = record {
  id = 2;
  merchant_id = 9;
  event_type = "order.paid";
  payload = order_event_data (new_order 1 9 (money (pos 10000) inr) none [] 0);
  api_version = "2026-07-01";
  created_at = 0;
}

abbrev first_try : WebhookDelivery
first_try = record {
  id = 7;
  event_id = 2;
  endpoint_id = 3;
  attempt = 1;
  status = DeliveryStatus.pending;
  response_status = none;
  response_body = none;
  duration_ms = none;
  next_retry_at = some 0;
}

abbrev claimed : Job
claimed = record {
  id = 8;
  kind = deliver_webhook;
  payload = delivery_payload 7 2 3;
  state = JobState.running;
  run_at = 0;
  attempts = 1;
  max_attempts = 7;
  last_error = none;
  locked_at = some 1000;
  locked_by = some "w1";
  created_at = 0;
  updated_at = 1000;
}

abbrev queued : Db
queued = record (db_with (shop ∷ [])) {
  events = paid ∷ [];
  deliveries = first_try ∷ [];
  jobs = claimed ∷ [];
}

queued-IsDelivery : IsDelivery claimed queued
unfolding find_row is_active
queued-IsDelivery = record {
  event = paid;
  endpoint = shop;
  delivery = first_try;
  kind = refl;
  payload = refl;
  has_event = refl;
  has_endpoint = refl;
  has_delivery = refl;
  active = refl;
}
