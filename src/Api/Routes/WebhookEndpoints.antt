-- ===== src/Api/Routes/WebhookEndpoints.antt =====
-- The routes of webhook endpoints (crates/api/routes/webhook_endpoints.rs). What the library of URLs says of
-- a text and what is drawn at random are arguments; event types are texts of ASCII characters where they pass.
pub mod Limit
pub mod Disabled
use payment_gateway_sandbox.Prelude.{
  ℕ, String, Bool, true, false, not, Option, none, some, List, map, leb, ◌==◌, if◌then◌else◌,
}
use payment_gateway_sandbox.Prelude.Lists.{length}
use payment_gateway_sandbox.Prelude.Bytes.{Bytes}
use payment_gateway_sandbox.Prelude.Text.{characters}
use payment_gateway_sandbox.Prelude.Result.{Result, ok, err, bail_if}
use payment_gateway_sandbox.Domain.ApiKey.{webhooks_manage}
use payment_gateway_sandbox.Domain.Id
use payment_gateway_sandbox.Crypto.Signing.{Libraries, generate_webhook_secret}
use payment_gateway_sandbox.Store.Db.{Env, WebhookEndpoint, new_id, gets, pure}
use payment_gateway_sandbox.Store.Outbox.{is_active, active_for_merchant}
use payment_gateway_sandbox.Store.Endpoints.{insert_endpoint, find_endpoint, set_disabled}
use payment_gateway_sandbox.Api.Error.{ApiError, invalid_request, missing}
use payment_gateway_sandbox.Api.Validate.{Url, webhook_url, enabled_events}
use payment_gateway_sandbox.Api.Auth.Cache.{AuthCtx}
use payment_gateway_sandbox.Api.Auth.{require}
use payment_gateway_sandbox.Api.Handler.{Handler, checked, serve, reply, path_id}

abbrev pub max_active_endpoints : ℕ
max_active_endpoints = 16

pub record CreateWebhookEndpointRequest : Type 0 where
  pub url : Bytes
  pub enabled_events : List String

-- The fields that every answer shows.
pub record Rendered : Type 0 where
  pub id : ℕ
  pub url : Bytes
  pub enabled_events : List String
  pub created_at : ℕ

unfoldable pub render : WebhookEndpoint → Rendered
render e = record {
  id = e.id;
  url = e.url;
  enabled_events = e.enabled_events;
  created_at = e.created_at;
}

-- The one answer that has the secret.
pub record Created : Type 0 where
  pub endpoint : Rendered
  pub signing_secret : Bytes

abbrev pub endpoint_of : Env → AuthCtx → ℕ → Bytes → Bytes → List String → WebhookEndpoint
endpoint_of env auth id url secret events = record {
  id = id;
  merchant_id = auth.merchant_id;
  url = url;
  signing_secret = secret;
  enabled_events = events;
  disabled_at = none;
  created_at = env.now;
}

-- `create` from the new id on
abbrev pub store_new : Env → Libraries → Bytes → AuthCtx → Bytes → List String → ℕ → Handler Created
store_new env lib random auth url events id =
    let e = endpoint_of env auth id url (generate_webhook_secret lib random) events in
    serve (insert_endpoint e)
      (λ _. reply (ok (record { endpoint = render e; signing_secret = e.signing_secret })))

-- `create` from the count of the endpoints on
unfoldable pub create_counted :
    Env → Libraries → Bytes → AuthCtx → Bytes → List String → List WebhookEndpoint → Handler Created
unfolding new_id insert_endpoint render generate_webhook_secret
create_counted env lib random auth url events existing =
    checked
      (bail_if (leb max_active_endpoints (length existing))
        (invalid_request "endpoint_limit_reached" none))
      (λ _. serve (new_id env) (store_new env lib random auth url events))

unfoldable pub create :
    Env
    → Libraries
    → (Bytes → Option Url)
    → Bytes
    → AuthCtx
    → CreateWebhookEndpointRequest
    → Handler Created
unfolding create_counted webhook_url enabled_events
create env lib parse_url random auth req = checked (require webhooks_manage auth) (λ _.
    checked (webhook_url parse_url req.url) (λ url.
      checked (enabled_events (map characters req.enabled_events)) (λ _.
        serve (gets (λ db. active_for_merchant auth.merchant_id db.endpoints))
          (create_counted env lib random auth url req.enabled_events))))

-- `list`
unfoldable pub list_endpoints : AuthCtx → Handler (List Rendered)
unfolding render
list_endpoints auth = checked (require webhooks_manage auth) (λ _.
    serve (gets (λ db. active_for_merchant auth.merchant_id db.endpoints))
      (λ es. reply (ok (map render es))))

-- `disable` from the endpoint on; the answer is its id
unfoldable pub disable_found : Env → AuthCtx → ℕ → WebhookEndpoint → Handler ℕ
unfolding set_disabled is_active
disable_found env auth id e =
    checked (bail_if (not (e.merchant_id == auth.merchant_id)) missing) (λ _.
      serve (if is_active e then set_disabled id (some env.now) else pure tt)
        (λ _. reply (ok e.id)))

unfoldable pub disable : Env → (Bytes → Option ℕ) → AuthCtx → Bytes → Handler ℕ
unfolding disable_found find_endpoint
disable env parse_uuid auth text = checked (require webhooks_manage auth) (λ _.
    checked (path_id parse_uuid Id.webhook_endpoint text)
      (λ id. serve (find_endpoint id) (disable_found env auth id)))
