-- ===== src/Webhooks/Send.antt =====
-- The sending of one event to one endpoint (`build_envelope` and `send` in crates/webhooks/delivery.rs). The HTTP
-- library, the printing of JSON, uuids and times, and the reading of bytes as text are parameters.
use payment_gateway_sandbox.Prelude.{ℕ, ◌≡◌, refl, arith, true, inl, String}
use payment_gateway_sandbox.Prelude.Int.{ℤ, IsI64}
use payment_gateway_sandbox.Prelude.Bytes.{Bytes}
use payment_gateway_sandbox.Prelude.Text.{characters}
use payment_gateway_sandbox.Prelude.Result.{ok}
use payment_gateway_sandbox.Domain.Id
use payment_gateway_sandbox.Domain.Id.{id_to_string}
use payment_gateway_sandbox.Store.Db.{WebhookEndpoint, Event, EventData}
use payment_gateway_sandbox.Store.Listing.{take}
use payment_gateway_sandbox.Crypto.Signing.{Libraries, build_header, verify, default_tolerance_secs}
use payment_gateway_sandbox.Crypto.Signing.Window.{InWindow, IsModest}
use payment_gateway_sandbox.Crypto.Signing.Verify.{IsHexCoding, verify-build_header}
use payment_gateway_sandbox.Webhooks.Delivery.{
  HttpResult, responded, SendOutcome, delivered, send_outcome, is_success_status, duration_of,
}

-- The members of the envelope; `payload` is its `data`.
pub record EventEnvelope : Type 0 where
  pub id : Bytes
  pub event_type : Bytes
  pub created_at : Bytes
  pub api_version : Bytes
  pub payload : EventData

-- The request, its headers by name.
pub record HttpRequest : Type 0 where
  pub url : Bytes
  pub content_type : Bytes
  pub signature : Bytes
  pub event_id : Bytes
  pub event_type : Bytes
  pub user_agent : Bytes
  pub body : Bytes

-- What a sending takes from libraries and the configuration. The HTTP library answers a request, after so many
-- milliseconds.
pub record Sender : Type 0 where
  pub lib : Libraries
  pub print_uuid : ℕ → Bytes
  pub rfc3339 : ℕ → Bytes
  pub print_json : EventEnvelope → Bytes
  pub lossy : Bytes → String
  pub max_response_bytes : ℕ
  pub post : HttpRequest → HttpResult × ℕ

module _ (sender : Sender) where
  unfoldable pub build_envelope : Event → EventEnvelope
  unfolding id_to_string
  build_envelope event = record {
    id = id_to_string sender.print_uuid Id.event event.id;
    event_type = characters event.event_type;
    created_at = sender.rfc3339 event.created_at;
    api_version = characters event.api_version;
    payload = event.payload;
  }

  -- The request of `send`, at a timestamp.
  unfoldable pub signed_request : ℤ → WebhookEndpoint → Event → HttpRequest
  unfolding build_envelope build_header
  signed_request timestamp endpoint event =
      let body = sender.print_json (build_envelope event) in
      record {
        url = endpoint.url;
        content_type = characters "application/json";
        signature = build_header sender.lib endpoint.signing_secret timestamp body;
        event_id = id_to_string sender.print_uuid Id.event event.id;
        event_type = characters event.event_type;
        user_agent = characters "payment-sandbox-webhooks/0.1";
        body = body;
      }

  unfoldable pub send : ℤ → WebhookEndpoint → Event → SendOutcome
  unfolding signed_request send_outcome
  send timestamp endpoint event =
      let answer = sender.post (signed_request timestamp endpoint event) in
      send_outcome sender.lossy sender.max_response_bytes answer.1 answer.0

  request-verifies :
      (timestamp now : ℤ) (endpoint : WebhookEndpoint) (event : Event)
      → IsHexCoding sender.lib
      → IsI64 timestamp
      → IsModest now
      → InWindow now timestamp default_tolerance_secs
      → let request = signed_request timestamp endpoint event in
        verify sender.lib endpoint.signing_secret request.signature request.body now
          default_tolerance_secs
        ≡ ok tt
  unfolding signed_request
  request-verifies timestamp now endpoint event hex i n w =
      (verify-build_header sender.lib endpoint.signing_secret
          (sender.print_json (build_envelope event)) timestamp now default_tolerance_secs hex i n
          (refl, omega arith)).1
        (inl w)

  -- An endpoint that answers a status of success to every request whose signature verifies, with its secret, over
  -- the body that has arrived, gets every event delivered, where its clock is at most the default tolerance away
  -- from the sender's; the outcome has the status and the first bytes of the answer.
  pub verifying_endpoint_gets_event :
      (timestamp now : ℤ) (endpoint : WebhookEndpoint) (event : Event) (status elapsed : ℕ)
      (bytes : Bytes)
      → IsHexCoding sender.lib
      → IsI64 timestamp
      → IsModest now
      → InWindow now timestamp default_tolerance_secs
      → is_success_status status ≡ true
      → ((request : HttpRequest)
          → verify sender.lib endpoint.signing_secret request.signature request.body now
              default_tolerance_secs
            ≡ ok tt
          → sender.post request ≡ (responded status bytes, elapsed))
      → send timestamp endpoint event
        ≡ delivered status
            (sender.lossy (take sender.max_response_bytes bytes))
            (duration_of elapsed)
  unfolding send send_outcome
  verifying_endpoint_gets_event timestamp now endpoint event status elapsed bytes hex i n w s
        answers =
      let got =
        answers (signed_request timestamp endpoint event)
          (request-verifies timestamp now endpoint event hex i n w) in
      rw (got, s) refl
