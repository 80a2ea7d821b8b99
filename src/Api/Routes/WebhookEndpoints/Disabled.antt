-- ===== src/Api/Routes/WebhookEndpoints/Disabled.antt =====
-- After an endpoint is disabled, no event is sent to it any more.
use payment_gateway_sandbox.Prelude.{
  ℕ, ◌≡◌, ◌≢◌, refl, ap, sym, ◌∙◌, arith, String, Bool, false, Bool-cases, Option-cases, not, ◌&&◌,
  Option, some, List, [], ◌∷◌, ◌++◌, ◌==◌, if◌then◌else◌, inl, inr,
}
use payment_gateway_sandbox.Prelude.Bytes.{Bytes}
use payment_gateway_sandbox.Prelude.Result.{Result, ok, err, bail_if}
use payment_gateway_sandbox.Domain.ApiKey.{webhooks_manage}
use payment_gateway_sandbox.Domain.Id
use payment_gateway_sandbox.Store.Db.{
  Db, Env, WebhookEndpoint, EventData, new_id, pure, followed_by,
}
use payment_gateway_sandbox.Store.Error.{EngineError}
use payment_gateway_sandbox.Api.Error.{ApiError, missing}
use payment_gateway_sandbox.Api.Auth.Cache.{AuthCtx}
use payment_gateway_sandbox.Api.Auth.{require}
use payment_gateway_sandbox.Api.Handler.{path_id, checked-ends}
use payment_gateway_sandbox.Api.Routes.WebhookEndpoints.{disable, disable_found}
use payment_gateway_sandbox.Store.Deliveries.{WebhookDelivery, pending_row}
use payment_gateway_sandbox.Store.Rows.{
  find_row, update_rows, find_row-id, order_by, insert_ordered,
}
use payment_gateway_sandbox.Store.Outbox.{
  is_active, wants, active_for_merchant, active_rows, emit, fan_out, insert_event, insert_pending,
  enqueue_job,
}
use payment_gateway_sandbox.Store.Endpoints.{
  endpoint_key, find_endpoint, set_disabled, with_disabled_at, NoneOf, active_rows-NoneOf,
}

-- The deliveries to an endpoint.
unfoldable pub deliveries_to : ℕ → List WebhookDelivery → List WebhookDelivery
deliveries_to id [] = []
deliveries_to id (d ∷ ds) =
    if d.endpoint_id == id then d ∷ deliveries_to id ds else deliveries_to id ds

deliveries_to-append :
    (id : ℕ) (ds : List WebhookDelivery) (d : WebhookDelivery)
    → d.endpoint_id ≢ id
    → deliveries_to id (ds ++ d ∷ []) ≡ deliveries_to id ds
unfolding deliveries_to
deliveries_to-append id [] d h = ground arith
deliveries_to-append id (x ∷ xs) d h = ground (arith, deliveries_to-append id xs d h)

fan_out-deliveries :
    (env : Env) (event : ℕ) (event_type : String) (id : ℕ) (es : List WebhookEndpoint) (db : Db)
    → NoneOf id es
    → deliveries_to id (fan_out env event event_type es db).1.deliveries
      ≡ deliveries_to id db.deliveries
unfolding fan_out insert_pending enqueue_job new_id pending_row
fan_out-deliveries env event event_type id [] db h = refl
fan_out-deliveries env event event_type id (e ∷ es) db h =
    elim (Bool-cases (is_active e && wants event_type e)) [
      | inl w ↦ rw w (
          fan_out-deliveries env event event_type id es _ h.1
          ∙ deliveries_to-append id db.deliveries _ h.0)
      | inr w ↦ rw w (fan_out-deliveries env event event_type id es db h.1)
    ]

followed_by-pure :
    {A B : Type 0} (r : Result A EngineError) (b : B) (db : Db)
    → (followed_by (λ _. pure b) r db).1 ≡ db
followed_by-pure (ok _) b db = refl
followed_by-pure (err _) b db = refl

emit-deliveries :
    (env : Env) (es : List WebhookEndpoint) (merchant : ℕ) (event_type : String)
    (payload : EventData) (id : ℕ) (db : Db)
    → NoneOf id es
    → deliveries_to id (emit env es merchant event_type payload db).1.deliveries
      ≡ deliveries_to id db.deliveries
unfolding emit insert_event new_id
emit-deliveries env es merchant event_type payload id db h =
    ap (λ (d : Db). deliveries_to id d.deliveries)
      (followed_by-pure (fan_out env _ event_type es _).0 _ _)
    ∙ fan_out-deliveries env _ event_type id es _ h

-- The ids of a table, its primary key, are distinct.
abbrev pub IsKeyedById : List WebhookEndpoint → Type 0
IsKeyedById [] = Unit
IsKeyedById (e ∷ es) = NoneOf e.id es × IsKeyedById es

insert_ordered-NoneOf :
    (first : WebhookEndpoint → WebhookEndpoint → Bool) (id : ℕ) (r : WebhookEndpoint)
    (rs : List WebhookEndpoint)
    → r.id ≢ id
    → NoneOf id rs
    → NoneOf id (insert_ordered first r rs)
unfolding insert_ordered
insert_ordered-NoneOf first id r [] n h = (n, tt)
insert_ordered-NoneOf first id r (s ∷ rs) n h = elim (Bool-cases (first r s)) [
  | inl e ↦ rw e (n, h)
  | inr e ↦ rw e (h.0, insert_ordered-NoneOf first id r rs n h.1)
]

order_by-NoneOf :
    (first : WebhookEndpoint → WebhookEndpoint → Bool) (id : ℕ) (rs : List WebhookEndpoint)
    → NoneOf id rs
    → NoneOf id (order_by first rs)
unfolding order_by
order_by-NoneOf first id [] h = tt
order_by-NoneOf first id (r ∷ rs) h =
    insert_ordered-NoneOf first id r (order_by first rs) h.0 (order_by-NoneOf first id rs h.1)

active_for_merchant-NoneOf :
    (merchant id : ℕ) (es : List WebhookEndpoint)
    → NoneOf id (active_rows merchant es)
    → NoneOf id (active_for_merchant merchant es)
unfolding active_for_merchant
active_for_merchant-NoneOf merchant id es h = order_by-NoneOf _ id (active_rows merchant es) h

NoneOf-active_rows :
    (merchant id : ℕ) (es : List WebhookEndpoint)
    → NoneOf id es
    → NoneOf id (active_rows merchant es)
unfolding active_rows is_active
NoneOf-active_rows merchant id [] h = tt
NoneOf-active_rows merchant id (e ∷ es) h =
    elim (Bool-cases (e.merchant_id == merchant && is_active e)) [
      | inl a ↦ rw a (h.0, NoneOf-active_rows merchant id es h.1)
      | inr a ↦ rw a (NoneOf-active_rows merchant id es h.1)
    ]

NoneOf-eq : (i j : ℕ) (es : List WebhookEndpoint) → i ≡ j → NoneOf i es → NoneOf j es
NoneOf-eq i j [] p h = tt
NoneOf-eq i j (e ∷ es) p h = (λ q. h.0 (q ∙ sym p), NoneOf-eq i j es p h.1)

-- An endpoint that was disabled before is in no list of active ones.
inactive-NoneOf :
    (merchant id : ℕ) (e : WebhookEndpoint) (es : List WebhookEndpoint)
    → IsKeyedById es
    → find_row endpoint_key id es ≡ some e
    → is_active e ≡ false
    → NoneOf id (active_rows merchant es)
unfolding active_rows find_row
inactive-NoneOf merchant id e [] u f a = tt
inactive-NoneOf merchant id e (x ∷ xs) u f a = elim (Bool-cases (x.id == id)) [
  | inl i ↦
      (let same : is_active x ≡ false = ground (arith, a, f, i) in
        let idle : (x.merchant_id == merchant && is_active x) ≡ false = ground (arith, same) in
        let rest : NoneOf id xs = NoneOf-eq x.id id xs (ground (arith, i)) u.0 in
        rw idle (NoneOf-active_rows merchant id xs rest))
  | inr i ↦
      (let rest = inactive-NoneOf merchant id e xs u.1 (ground (arith, f, i)) a in
        elim (Bool-cases (x.merchant_id == merchant && is_active x)) [
          | inl w ↦ rw w (λ q. ground (arith, i), rest)
          | inr w ↦ rw w rest
        ])
]

-- An endpoint that `disable` has answered for is in no list of active ones.
abbrev Silenced : ℕ → ℕ → Result ℕ ApiError × Db → Type 0
Silenced merchant id x = x.0 ≡ ok id → NoneOf id (active_rows merchant x.1.endpoints)

disable_found-Silenced :
    (env : Env) (auth : AuthCtx) (merchant id id' : ℕ) (e : WebhookEndpoint) (db : Db)
    → IsKeyedById db.endpoints
    → find_row endpoint_key id' db.endpoints ≡ some e
    → Silenced merchant id (disable_found env auth id' e db)
unfolding disable_found set_disabled
disable_found-Silenced env auth merchant id id' e db u f =
    checked-ends (Silenced merchant id) (bail_if (not (e.merchant_id == auth.merchant_id)) missing)
      _ db (λ _ _. λ h. cc)
      (λ _ _. elim (Bool-cases (is_active e)) [
        | inl a ↦ rw a (λ h.
            NoneOf-eq id' id
              (active_rows merchant
                (update_rows endpoint_key id' (with_disabled_at (some env.now)) db.endpoints))
              (sym (find_row-id endpoint_key id' db.endpoints e f) ∙ cc)
              (active_rows-NoneOf merchant id' env.now db.endpoints))
        | inr a ↦ rw a (λ h.
            NoneOf-eq id' id (active_rows merchant db.endpoints)
              (sym (find_row-id endpoint_key id' db.endpoints e f) ∙ cc)
              (inactive-NoneOf merchant id' e db.endpoints u f a))
      ])

disable-Silenced :
    (env : Env) (parse_uuid : Bytes → Option ℕ) (auth : AuthCtx) (text : Bytes) (merchant id : ℕ)
    (db : Db)
    → IsKeyedById db.endpoints
    → Silenced merchant id (disable env parse_uuid auth text db)
unfolding disable find_endpoint
disable-Silenced env parse_uuid auth text merchant id db u =
    checked-ends (Silenced merchant id) (require webhooks_manage auth) _ db (λ _ _. λ h. cc)
      (λ _ _.
        checked-ends (Silenced merchant id) (path_id parse_uuid Id.webhook_endpoint text) _ db
          (λ _ _. λ h. cc)
          (λ id' _. elim (Option-cases (find_row endpoint_key id' db.endpoints)) [
            | inl n ↦ rw n (λ h. cc)
            | inr (e, f) ↦ rw f (disable_found-Silenced env auth merchant id id' e db u f)
          ]))

-- When `disable` has answered that an endpoint is disabled, where the ids of endpoints are distinct, no event
-- sent to the active endpoints of any merchant adds a delivery to it.
pub disabled_endpoint_is_silent :
    (env env' : Env) (parse_uuid : Bytes → Option ℕ) (auth : AuthCtx) (text : Bytes)
    (id merchant : ℕ) (event_type : String) (payload : EventData) (db : Db)
    → IsKeyedById db.endpoints
    → (disable env parse_uuid auth text db).0 ≡ ok id
    → let after = (disable env parse_uuid auth text db).1 in
      let sent =
        (emit env'
          (active_for_merchant merchant after.endpoints)
          merchant
          event_type
          payload
          after).1 in
      deliveries_to id sent.deliveries ≡ deliveries_to id after.deliveries
disabled_endpoint_is_silent env env' parse_uuid auth text id merchant event_type payload db u h =
    let after = (disable env parse_uuid auth text db).1 in
    emit-deliveries env' (active_for_merchant merchant after.endpoints) merchant event_type payload
      id after
      (active_for_merchant-NoneOf merchant id after.endpoints
        (disable-Silenced env parse_uuid auth text merchant id db u h))
