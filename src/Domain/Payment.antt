-- ===== src/Domain/Payment.antt =====
-- Payments (crates/domain/src/payment.rs and payment_method.rs).
use payment_gateway_sandbox.Prelude.{ℕ, String, Bool, Option, none, some, List, if◌then◌else◌}
use payment_gateway_sandbox.Prelude.Int.{ℤ, pos, leb_ℤ}
use payment_gateway_sandbox.Prelude.Result.{Result, ok, err, ◌>>=◌}
use payment_gateway_sandbox.Domain.Money.{Money}
use payment_gateway_sandbox.Domain.Card.{CardDetails}
use payment_gateway_sandbox.Domain.Order.{floor_diff}
use payment_gateway_sandbox.Domain.PaymentStatus.{
  PaymentStatus, InvalidPaymentTransition, created, requires_action, authorized, captured, failed,
  refunded, transition, is_capturable,
}

pub data PaymentMethodType : Type 0 where
  card_method : PaymentMethodType

pub record Payment : Type 0 where
  pub id : ℕ
  pub order_id : ℕ
  pub merchant_id : ℕ
  pub amount : Money
  pub amount_refunded : ℤ
  pub method : PaymentMethodType
  pub card : Option CardDetails
  pub status : PaymentStatus
  pub error_code : Option String
  pub error_description : Option String
  pub notes : List (String × String)
  pub created_at : ℕ
  pub captured_at : Option ℕ

-- `Payment::new_card_attempt`; the id is the one that `PaymentId::new` draws.
abbrev pub new_card_attempt : ℕ → ℕ → ℕ → Money → CardDetails → List (String × String) → ℕ → Payment
new_card_attempt id order merchant amount card notes now = record {
  id = id;
  order_id = order;
  merchant_id = merchant;
  amount = amount;
  amount_refunded = pos 0;
  method = card_method;
  card = some card;
  status = created;
  error_code = none;
  error_description = none;
  notes = notes;
  created_at = now;
  captured_at = none;
}

unfoldable pub mark_requires_action : Payment → Result Payment InvalidPaymentTransition
mark_requires_action p = do s ← transition p.status requires_action; ok (record p { status = s })

unfoldable pub mark_authorized : Payment → Result Payment InvalidPaymentTransition
mark_authorized p = do s ← transition p.status authorized; ok (record p { status = s })

unfoldable pub mark_captured : ℕ → Payment → Result Payment InvalidPaymentTransition
mark_captured now p = do
  s ← transition p.status captured
  ok (record p { status = s; captured_at = some now })

unfoldable pub mark_failed : String → String → Payment → Result Payment InvalidPaymentTransition
mark_failed code description p = do
  s ← transition p.status failed
  ok (record p { status = s; error_code = some code; error_description = some description })

unfoldable pub mark_refunded : ℤ → Payment → Result Payment InvalidPaymentTransition
mark_refunded amount_refunded p = do
  s ← transition p.status refunded
  ok (record p { status = s; amount_refunded = amount_refunded })

unfoldable pub amount_refundable : Payment → ℤ
amount_refundable p = floor_diff p.amount.minor p.amount_refunded

unfoldable pub is_fully_refunded : Payment → Bool
is_fully_refunded p = leb_ℤ p.amount.minor p.amount_refunded

-- `Capturable`: a payment under the proof that it is authorized.
pub record Capturable : Type 0 where
  pub payment : Payment

-- `Capturable::try_from`
unfoldable pub capturable : Payment → Result Capturable InvalidPaymentTransition
unfolding is_capturable
capturable p =
    if is_capturable p.status
    then ok (record { payment = p })
    else err (record { from = p.status; to = captured })
