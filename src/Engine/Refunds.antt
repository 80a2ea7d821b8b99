-- ===== src/Engine/Refunds.antt =====
-- Refunds (crates/engine/refund.rs).
pub mod Cap
use payment_gateway_sandbox.Prelude.{
  ℕ, String, Bool, true, false, Option, none, some, List, ltb, ◌==◌, not, if◌then◌else◌,
}
use payment_gateway_sandbox.Prelude.Int.{ℤ, pos, ◌+ℤ◌, ◌-ℤ◌, ltb_ℤ, leb_ℤ, wrap_i64}
use payment_gateway_sandbox.Domain.Money.{new_non_negative}
use payment_gateway_sandbox.Domain.Payment.{Payment, mark_refunded}
use payment_gateway_sandbox.Domain.PaymentStatus.{PaymentStatus, captured, refunded}
use payment_gateway_sandbox.Engine.Fees.{proportional_fee_refund}
use payment_gateway_sandbox.Engine.Posting.{post_refund}
use payment_gateway_sandbox.Store.Error.{
  EngineError, validation, not_found, money_error, payment_transition, reason_too_long,
  not_captured, already_fully_refunded, not_greater_than_zero, exceeds_refundable,
}
use payment_gateway_sandbox.Store.Db.{
  Db, Env, Tx, ◌>>=◌, ◌>>◌, pure, lift, gets, throw_if, new_id, WebhookEndpoint, refund_event_data,
  Refund, RefundStatus, processed,
}
use payment_gateway_sandbox.Store.Payments.{find_payment, update_payment_status}
use payment_gateway_sandbox.Store.Refunds.{insert_refund, sum_for_payment, find_refund, refunds_of}
use payment_gateway_sandbox.Store.Ledger.{transaction}
use payment_gateway_sandbox.Store.Outbox.{emit, active_for_merchant}
use Prim.Native.String.{len}

abbrev pub max_reason_length : ℕ
max_reason_length = 255

pub record CreateRefundInput : Type 0 where
  pub payment_id : ℕ
  pub amount_minor : Option ℤ
  pub reason : Option String

abbrev pub too_long : Option String → Bool
too_long none = false
too_long (some s) = ltb max_reason_length (len s)

abbrev pub is_refundable_status : PaymentStatus → Bool
is_refundable_status captured = true
is_refundable_status refunded = true
is_refundable_status _ = false

abbrev pub unwrap_or : Option ℤ → ℤ → ℤ
unwrap_or none d = d
unwrap_or (some a) d = a

-- The guards of `create` on the amount, under the lock: what has been refunded so far, and what this
-- refund is to be.
unfoldable pub refund_amount : Payment → Option ℤ → Tx (ℤ × ℤ)
refund_amount payment requested = do
  already_refunded ← sum_for_payment payment.id
  let remaining = wrap_i64 (payment.amount.minor -ℤ already_refunded)
  throw_if (leb_ℤ remaining (pos 0)) (validation "payment" already_fully_refunded)
  let amount_minor = unwrap_or requested remaining
  throw_if (leb_ℤ amount_minor (pos 0)) (validation "amount" not_greater_than_zero)
  throw_if (ltb_ℤ remaining amount_minor) (validation "amount" (exceeds_refundable remaining))
  pure (already_refunded, amount_minor)

-- The payment as the refund leaves it: `refunded` once the whole amount is, else only a higher total.
unfoldable pub refund_payment : ℤ → Payment → Tx Payment
refund_payment new_total payment =
    if leb_ℤ payment.amount.minor new_total
    then lift payment_transition (mark_refunded new_total payment)
    else pure (record payment { amount_refunded = new_total })

-- The body of `RefundService::create`, inside its transaction.
unfoldable pub create_refund_body : Env → List WebhookEndpoint → ℕ → CreateRefundInput → Tx Refund
create_refund_body env endpoints merchant input = do
  payment ← find_payment input.payment_id
  throw_if (not (payment.merchant_id == merchant)) (not_found "payment")
  throw_if (not (is_refundable_status payment.status))
      (validation "payment" (not_captured payment.status))
  amounts ← refund_amount payment input.amount_minor
  amount ← lift money_error (new_non_negative amounts.1 payment.amount.currency)
  let new_total = wrap_i64 (amounts.0 +ℤ amounts.1)
  id ← new_id env
  let refund : Refund = record {
    id = id;
    payment_id = payment.id;
    merchant_id = merchant;
    amount = amount;
    reason = input.reason;
    status = processed;
    created_at = env.now;
    processed_at = some env.now;
  }
  insert_refund refund
  fee_refund ← lift money_error (proportional_fee_refund payment.amount amounts.0 new_total)
  post_refund env merchant amount fee_refund id
  payment' ← refund_payment new_total payment
  update_payment_status payment'.id payment'.status payment'.captured_at payment'.amount_refunded
      none none
  event ← emit env endpoints merchant "refund.processed" (refund_event_data refund payment')
  pure refund

-- `RefundService::create`
unfoldable pub create_refund : Env → ℕ → CreateRefundInput → Tx Refund
create_refund env merchant input = do
  throw_if (too_long input.reason) (validation "reason" reason_too_long)
  endpoints ← gets (λ db. active_for_merchant merchant db.endpoints)
  transaction (create_refund_body env endpoints merchant input)

-- `RefundService::get`
unfoldable pub get_refund : ℕ → ℕ → Tx Refund
get_refund merchant id = do
  refund ← find_refund id
  throw_if (not (refund.merchant_id == merchant)) (not_found "refund")
  pure refund

-- `RefundService::list_for_payment`
unfoldable pub list_for_payment : ℕ → ℕ → Tx (List Refund)
list_for_payment merchant payment_id = do
  payment ← find_payment payment_id
  throw_if (not (payment.merchant_id == merchant)) (not_found "payment")
  gets (λ db. refunds_of payment_id db.refunds)
