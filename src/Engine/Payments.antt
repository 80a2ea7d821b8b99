-- ===== src/Engine/Payments.antt =====
-- Payments (crates/engine/payment.rs).
pub mod Untouched
pub mod Created
use payment_gateway_sandbox.Prelude.{ℕ, ◌+◌, String, Option, none, some, List, ◌==◌, not}
use payment_gateway_sandbox.Prelude.Int.{pos}
use payment_gateway_sandbox.Domain.Card.{card_details, assert_not_expired}
use payment_gateway_sandbox.Domain.Order.{Order, mark_attempted, mark_paid}
use payment_gateway_sandbox.Domain.OrderStatus
use payment_gateway_sandbox.Domain.Payment.{
  Payment, new_card_attempt, mark_requires_action, mark_authorized, mark_captured, mark_failed,
  capturable,
}
use payment_gateway_sandbox.Engine.Fees.{for_currency, compute}
use payment_gateway_sandbox.Engine.Posting.{post_capture}
use payment_gateway_sandbox.Store.Error.{
  validation, not_found, money_error, card_error, order_transition, payment_transition,
  order_is_terminal,
}
use payment_gateway_sandbox.Store.Db.{
  Env, Tx, ◌>>=◌, ◌>>◌, pure, lift, gets, throw_if, new_id, WebhookEndpoint, payment_event_data,
  order_event_data,
}
use payment_gateway_sandbox.Store.Job.{payment_payload}
use payment_gateway_sandbox.Store.Orders.{find_order, update_order_status}
use payment_gateway_sandbox.Store.Payments.{
  find_payment, insert_payment, update_payment_status, insert_attempt,
}
use payment_gateway_sandbox.Store.Ledger.{transaction}
use payment_gateway_sandbox.Store.Outbox.{emit, enqueue_job, open_dispute, active_for_merchant}

pub data AttemptOutcome : Type 0 where
  capture capture_then_dispute authorize : AttemptOutcome
  decline : String → String → AttemptOutcome
  require_action risk_hold : AttemptOutcome

pub record AttemptDecision : Type 0 where
  pub outcome : AttemptOutcome
  pub latency_ms : ℕ

-- `AttemptDecision::outcome_str`
unfoldable pub outcome_str : AttemptOutcome → String
outcome_str capture = "success"
outcome_str capture_then_dispute = "success"
outcome_str authorize = "authorized"
outcome_str (decline _ _) = "declined"
outcome_str require_action = "requires_action"
outcome_str risk_hold = "risk_hold"

-- `AttemptDecision::decline_code`
unfoldable pub decline_code : AttemptOutcome → Option String
decline_code (decline code _) = some code
decline_code _ = none

pub record CreatePaymentInput : Type 0 where
  pub order_id : ℕ
  pub card_number : List ℕ
  pub card_exp_month : ℕ
  pub card_exp_year : ℕ
  pub notes : List (String × String)

-- `settle`; the payment and the order come back as it leaves them.
unfoldable pub settle : Env → List WebhookEndpoint → Payment → Order → Tx (Payment × Order)
settle env endpoints payment order = do
  payment' ← lift payment_transition (mark_captured env.now payment)
  order' ← lift order_transition (mark_paid payment'.amount.minor order)
  update_payment_status payment'.id payment'.status payment'.captured_at payment'.amount_refunded
      none none
  update_order_status order'.id order'.status order'.amount_paid
  fees ← lift money_error (compute (for_currency payment'.amount.currency) payment'.amount)
  post_capture env payment'.merchant_id payment'.amount fees payment'.id
  captured_event ←
      emit env endpoints payment'.merchant_id "payment.captured"
        (payment_event_data payment' order')
  paid_event ← emit env endpoints payment'.merchant_id "order.paid" (order_event_data order')
  pure (payment', order')

-- The `match` on the outcome in `create`.
unfoldable pub apply_outcome :
    Env → List WebhookEndpoint → ℕ → AttemptOutcome → Payment → Order → Tx Payment
apply_outcome env endpoints merchant capture payment order = do
  settled ← settle env endpoints payment order
  pure settled.0
apply_outcome env endpoints merchant capture_then_dispute payment order = do
  settled ← settle env endpoints payment order
  enqueue_job env open_dispute (payment_payload payment.id) (env.now + 60) 3
  pure settled.0
apply_outcome env endpoints merchant authorize payment order = do
  payment' ← lift payment_transition (mark_authorized payment)
  update_payment_status payment'.id payment'.status none (pos 0) none none
  event ← emit env endpoints merchant "payment.authorized" (payment_event_data payment' order)
  pure payment'
apply_outcome env endpoints merchant (decline code description) payment order = do
  payment' ← lift payment_transition (mark_failed code description payment)
  update_payment_status payment'.id payment'.status none (pos 0) (some code) (some description)
  event ← emit env endpoints merchant "payment.failed" (payment_event_data payment' order)
  pure payment'
apply_outcome env endpoints merchant require_action payment order = do
  payment' ← lift payment_transition (mark_requires_action payment)
  update_payment_status payment'.id payment'.status none (pos 0) none none
  pure payment'
apply_outcome env endpoints merchant risk_hold payment order = do
  enqueue_job env "resolve_risk_review" (payment_payload payment.id) (env.now + 30) 3
  pure payment

-- The body of `PaymentService::create`, inside its transaction.
unfoldable pub create_body :
    Env → List WebhookEndpoint → ℕ → CreatePaymentInput → AttemptDecision → Tx Payment
create_body env endpoints merchant input decision = do
  order ← find_order input.order_id
  throw_if (not (order.merchant_id == merchant)) (not_found "order")
  throw_if (OrderStatus.is_terminal order.status) (validation "order" order_is_terminal)
  card ← lift card_error (
      card_details input.card_number (env.card_fingerprint input.card_number) input.card_exp_month
        input.card_exp_year)
  lift card_error (assert_not_expired card (env.year_month env.now))
  id ← new_id env
  let payment = new_card_attempt id order.id merchant order.amount card input.notes env.now
  order' ← lift order_transition (mark_attempted order)
  update_order_status order'.id order'.status order'.amount_paid
  insert_payment payment
  insert_attempt env id 1 (outcome_str decision.outcome) (decline_code decision.outcome)
      decision.latency_ms
  apply_outcome env endpoints merchant decision.outcome payment order'

-- `PaymentService::create`
unfoldable pub create_payment : Env → ℕ → CreatePaymentInput → AttemptDecision → Tx Payment
create_payment env merchant input decision = do
  endpoints ← gets (λ db. active_for_merchant merchant db.endpoints)
  transaction (create_body env endpoints merchant input decision)

-- The body of `PaymentService::capture`, inside its transaction.
unfoldable pub capture_body : Env → List WebhookEndpoint → ℕ → ℕ → Tx Payment
capture_body env endpoints merchant payment_id = do
  locked ← find_payment payment_id
  throw_if (not (locked.merchant_id == merchant)) (not_found "payment")
  c ← lift payment_transition (capturable locked)
  order ← find_order c.payment.order_id
  settled ← settle env endpoints c.payment order
  pure settled.0

-- `PaymentService::capture`
unfoldable pub capture_payment : Env → ℕ → ℕ → Tx Payment
capture_payment env merchant payment_id = do
  endpoints ← gets (λ db. active_for_merchant merchant db.endpoints)
  transaction (capture_body env endpoints merchant payment_id)

-- `PaymentService::get`
unfoldable pub get_payment : ℕ → ℕ → Tx Payment
get_payment merchant id = do
  payment ← find_payment id
  throw_if (not (payment.merchant_id == merchant)) (not_found "payment")
  pure payment
