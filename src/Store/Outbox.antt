-- ===== src/Store/Outbox.antt =====
-- Events, deliveries and jobs on the caller's transaction (crates/engine/event.rs, with
-- crates/store/src/event.rs, webhook_delivery.rs and webhook_endpoint.rs).
use payment_gateway_sandbox.Prelude.{
  ℕ, String, Bool, true, false, none, some, List, [], ◌∷◌, ◌++◌, ◌&&◌, ◌||◌, ◌==◌, if◌then◌else◌,
  leb,
}
use payment_gateway_sandbox.Store.Rows.{order_by}
use payment_gateway_sandbox.Store.Db.{
  Env, Tx, ◌>>=◌, ◌>>◌, pure, modify, new_id, WebhookEndpoint, EventData,
}
use payment_gateway_sandbox.Store.Job.{Payload, delivery_payload, enqueue}
use payment_gateway_sandbox.Store.Deliveries.{pending_row}
use text.Mathlib.Text.{◌==◌ as str_eq}

-- `queue::scheduler::MAX_ATTEMPTS`
abbrev pub max_attempts : ℕ
max_attempts = 7

abbrev pub api_version : String
api_version = "2026-07-01"

-- `kinds::DELIVER_WEBHOOK` and `kinds::OPEN_DISPUTE`
abbrev pub deliver_webhook : String
deliver_webhook = "deliver_webhook"

abbrev pub open_dispute : String
open_dispute = "open_dispute"

unfoldable pub is_active : WebhookEndpoint → Bool
is_active e = elim e.disabled_at [ none ↦ true | some _ ↦ false ]

abbrev any_is : String → List String → Bool
any_is t [] = false
any_is t (e ∷ es) = if str_eq e t then true else any_is t es

abbrev is_empty : List String → Bool
is_empty [] = true
is_empty _ = false

unfoldable pub wants : String → WebhookEndpoint → Bool
wants event_type e = is_empty e.enabled_events || any_is event_type e.enabled_events

-- `list_active_for_merchant`
unfoldable pub active_rows : ℕ → List WebhookEndpoint → List WebhookEndpoint
unfolding is_active
active_rows merchant [] = []
active_rows merchant (e ∷ es) =
    if e.merchant_id == merchant && is_active e
    then e ∷ active_rows merchant es
    else active_rows merchant es

unfoldable pub active_for_merchant : ℕ → List WebhookEndpoint → List WebhookEndpoint
active_for_merchant merchant es =
    order_by (λ a b. leb a.created_at b.created_at) (active_rows merchant es)

-- `store::event::insert`
unfoldable pub insert_event : Env → ℕ → String → EventData → Tx ℕ
unfolding new_id
insert_event env merchant event_type payload = do
  id ← new_id env
  modify (λ db. record db {
    events =
        db.events
        ++ record {
          id = id;
          merchant_id = merchant;
          event_type = event_type;
          payload = payload;
          api_version = api_version;
          created_at = env.now;
        }
          ∷ [];
  })
  pure id

unfoldable pub insert_pending : Env → ℕ → ℕ → Tx ℕ
unfolding new_id pending_row
insert_pending env event endpoint = do
  id ← new_id env
  modify
      (λ db. record db { deliveries = db.deliveries ++ pending_row id event endpoint env.now ∷ [] })
  pure id

-- `store::job::enqueue` on the caller's transaction
unfoldable pub enqueue_job : Env → String → Payload → ℕ → ℕ → Tx (Unit {0})
unfolding new_id enqueue
enqueue_job env kind payload run_at attempts = do
  id ← new_id env
  modify (λ db. record db { jobs = enqueue id kind payload run_at attempts env.now db.jobs })

-- the loop of `emit`
unfoldable pub fan_out : Env → ℕ → String → List WebhookEndpoint → Tx (Unit {0})
fan_out env event event_type [] = pure tt
fan_out env event event_type (ep ∷ eps) =
    let rest = fan_out env event event_type eps in
    if is_active ep && wants event_type ep
    then (do
      delivery ← insert_pending env event ep.id
      enqueue_job env deliver_webhook (delivery_payload delivery event ep.id) env.now max_attempts
      rest)
    else rest

-- `event::emit`
unfoldable pub emit : Env → List WebhookEndpoint → ℕ → String → EventData → Tx ℕ
emit env endpoints merchant event_type payload = do
  event ← insert_event env merchant event_type payload
  fan_out env event event_type endpoints
  pure event
