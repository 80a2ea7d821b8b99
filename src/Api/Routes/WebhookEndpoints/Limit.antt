-- ===== src/Api/Routes/WebhookEndpoints/Limit.antt =====
-- The cap on the active endpoints of a merchant, through any sequence of requests one after the other.
use payment_gateway_sandbox.Prelude.{
  ℕ, ◌≤◌, ◌<◌, ◌≡◌, ◌⊎◌, refl, arith, String, Bool-cases, Option-cases, not, Option, none, some,
  List, [], ◌∷◌, ◌++◌, leb, ◌==◌, inl, inr, map,
}
use payment_gateway_sandbox.Prelude.Lists.{length}
use payment_gateway_sandbox.Prelude.Bytes.{Bytes}
use payment_gateway_sandbox.Prelude.Text.{characters}
use payment_gateway_sandbox.Prelude.Result.{ok, bail_if}
use payment_gateway_sandbox.Domain.ApiKey.{webhooks_manage}
use payment_gateway_sandbox.Domain.Id
use payment_gateway_sandbox.Crypto.Signing.{Libraries, generate_webhook_secret}
use payment_gateway_sandbox.Store.Db.{Db, Env, WebhookEndpoint, new_id}
use payment_gateway_sandbox.Store.Rows.{find_row, is_found}
use payment_gateway_sandbox.Store.Outbox.{is_active, active_for_merchant, active_rows}
use payment_gateway_sandbox.Store.Endpoints.{
  endpoint_key, insert_endpoint, is_url_shape, find_endpoint, set_disabled,
  length-active_for_merchant, active_rows-append, active_rows-disabled,
}
use payment_gateway_sandbox.Api.Error.{invalid_request, missing}
use payment_gateway_sandbox.Api.Validate.{Url, webhook_url, enabled_events}
use payment_gateway_sandbox.Api.Auth.Cache.{AuthCtx}
use payment_gateway_sandbox.Api.Auth.{require}
use payment_gateway_sandbox.Api.Handler.{path_id, checked-keeps, serve-keeps, reply}
use payment_gateway_sandbox.Api.Routes.WebhookEndpoints.{
  CreateWebhookEndpointRequest, render, store_new, create, create_counted, disable, disable_found,
  endpoint_of, max_active_endpoints,
}

-- No merchant has more than sixteen active endpoints.
abbrev pub IsCapped : Db → Type 0
IsCapped db = (merchant : ℕ) → length (active_rows merchant db.endpoints) ≤ 16

insert_endpoint-endpoints :
    (e : WebhookEndpoint) (db : Db)
    → ((insert_endpoint e db).1.endpoints ≡ db.endpoints)
      ⊎ ((insert_endpoint e db).1.endpoints ≡ db.endpoints ++ e ∷ [])
unfolding insert_endpoint
insert_endpoint-endpoints e db = elim (Bool-cases (is_url_shape e.url)) [
  | inl u ↦ elim (Bool-cases (is_found endpoint_key (find_row endpoint_key e.id db.endpoints))) [
    | inl f ↦ rw u (rw f (inl refl))
    | inr f ↦ rw u (rw f (inr refl))
  ]
  | inr u ↦ rw u (inl refl)
]

insert_endpoint-IsCapped :
    (e : WebhookEndpoint) (db : Db)
    → IsCapped db
    → length (active_rows e.merchant_id db.endpoints) < 16
    → IsCapped (insert_endpoint e db).1
insert_endpoint-IsCapped e db c room merchant = elim (insert_endpoint-endpoints e db) [
  | inl same ↦ rw same (c merchant)
  | inr more ↦ rw more (ground (arith, active_rows-append merchant db.endpoints e, c merchant))
]

create_counted-IsCapped :
    (env : Env) (lib : Libraries) (random : Bytes) (auth : AuthCtx) (url : Bytes)
    (events : List String) (db : Db)
    → IsCapped db
    → IsCapped
        (create_counted env lib random auth url events
          (active_for_merchant auth.merchant_id db.endpoints)
          db).1
unfolding create_counted new_id
create_counted-IsCapped env lib random auth url events db c =
    let existing = active_for_merchant auth.merchant_id db.endpoints in
    let full = leb max_active_endpoints (length existing) in
    checked-keeps IsCapped (bail_if full (invalid_request "endpoint_limit_reached" none)) _ db c
      (λ _ fits.
        serve-keeps IsCapped (new_id env) (store_new env lib random auth url events) db c (λ id _.
          let e = endpoint_of env auth id url (generate_webhook_secret lib random) events in
          let room : length (active_rows auth.merchant_id db.endpoints) < 16 =
            ground (arith, fits, length-active_for_merchant auth.merchant_id db.endpoints) in
          let capped = insert_endpoint-IsCapped e (new_id env db).1 c room in
          serve-keeps IsCapped (insert_endpoint e)
            (λ _. reply (ok (record { endpoint = render e; signing_secret = e.signing_secret })))
            (new_id env db).1 capped (λ _ _. capped)))

create-IsCapped :
    (env : Env) (lib : Libraries) (parse_url : Bytes → Option Url) (random : Bytes) (auth : AuthCtx)
    (req : CreateWebhookEndpointRequest) (db : Db)
    → IsCapped db
    → IsCapped (create env lib parse_url random auth req db).1
unfolding create
create-IsCapped env lib parse_url random auth req db c =
    checked-keeps IsCapped (require webhooks_manage auth) _ db c (λ _ _.
      checked-keeps IsCapped (webhook_url parse_url req.url) _ db c (λ url _.
        checked-keeps IsCapped (enabled_events (map characters req.enabled_events)) _ db c
          (λ _ _. create_counted-IsCapped env lib random auth url req.enabled_events db c)))

set_disabled-IsCapped :
    (id now : ℕ) (db : Db) → IsCapped db → IsCapped (set_disabled id (some now) db).1
unfolding set_disabled
set_disabled-IsCapped id now db c merchant =
    omega (arith, active_rows-disabled merchant id now db.endpoints, c merchant)

disable_found-IsCapped :
    (env : Env) (auth : AuthCtx) (id : ℕ) (e : WebhookEndpoint) (db : Db)
    → IsCapped db
    → IsCapped (disable_found env auth id e db).1
unfolding disable_found
disable_found-IsCapped env auth id e db c =
    checked-keeps IsCapped (bail_if (not (e.merchant_id == auth.merchant_id)) missing) _ db c
      (λ _ _. elim (Bool-cases (is_active e)) [
        | inl a ↦ rw a (set_disabled-IsCapped id env.now db c)
        | inr a ↦ rw a c
      ])

disable-IsCapped :
    (env : Env) (parse_uuid : Bytes → Option ℕ) (auth : AuthCtx) (text : Bytes) (db : Db)
    → IsCapped db
    → IsCapped (disable env parse_uuid auth text db).1
unfolding disable find_endpoint
disable-IsCapped env parse_uuid auth text db c =
    checked-keeps IsCapped (require webhooks_manage auth) _ db c (λ _ _.
      checked-keeps IsCapped (path_id parse_uuid Id.webhook_endpoint text) _ db c (λ id _.
        elim (Option-cases (find_row endpoint_key id db.endpoints)) [
          | inl n ↦ rw n c
          | inr (e, f) ↦ rw f (disable_found-IsCapped env auth id e db c)
        ]))

-- The requests that write endpoints.
pub data EndpointRequest : Type 0 where
  creates : Env → Bytes → AuthCtx → CreateWebhookEndpointRequest → EndpointRequest
  disables : Env → AuthCtx → Bytes → EndpointRequest

module _ (lib : Libraries) (parse_url : Bytes → Option Url) (parse_uuid : Bytes → Option ℕ) where
  unfoldable pub answer : EndpointRequest → Db → Db
  unfolding create disable
  answer (creates env random auth req) db = (create env lib parse_url random auth req db).1
  answer (disables env auth text) db = (disable env parse_uuid auth text db).1

  unfoldable pub answer_all : List EndpointRequest → Db → Db
  unfolding answer
  answer_all [] db = db
  answer_all (r ∷ rs) db = answer_all rs (answer r db)

  -- Requests one after the other, of any callers, that create and disable endpoints never leave a merchant with
  -- more than sixteen active ones, where none had more before.
  pub answer_all-IsCapped :
      (requests : List EndpointRequest) (db : Db) → IsCapped db → IsCapped (answer_all requests db)
  unfolding answer_all
  answer_all-IsCapped [] db c = c
  answer_all-IsCapped (creates env random auth req ∷ rs) db c =
      answer_all-IsCapped rs (answer (creates env random auth req) db)
        (unfold answer in create-IsCapped env lib parse_url random auth req db c)
  answer_all-IsCapped (disables env auth text ∷ rs) db c =
      answer_all-IsCapped rs (answer (disables env auth text) db)
        (unfold answer in disable-IsCapped env parse_uuid auth text db c)
