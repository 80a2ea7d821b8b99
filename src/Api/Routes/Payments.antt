-- ===== src/Api/Routes/Payments.antt =====
-- The routes of payments (crates/api/routes/payments.rs). The artificial delay is left out: it changes no
-- state and no answer.
pub mod Gate
pub mod Vocabulary
use payment_gateway_sandbox.Prelude.{
  ℕ, String, Bool, true, false, Option, none, some, List, if◌then◌else◌,
}
use payment_gateway_sandbox.Prelude.Bytes.{Bytes}
use payment_gateway_sandbox.Prelude.Result.{Result, ok, err}
use payment_gateway_sandbox.Domain.ApiKey.{payments_write, payments_read}
use payment_gateway_sandbox.Domain.Id.{order, payment}
use payment_gateway_sandbox.Domain.Order.{Order}
use payment_gateway_sandbox.Domain.Payment.{Payment}
use payment_gateway_sandbox.Domain.PaymentStatus.{PaymentStatus, failed}
use payment_gateway_sandbox.Store.Db.{Env}
use payment_gateway_sandbox.Engine.Orders.{get_order}
use payment_gateway_sandbox.Engine.Payments.{
  AttemptOutcome, AttemptDecision, CreatePaymentInput, create_payment, capture_payment, get_payment,
}
use payment_gateway_sandbox.Simulator.Cards.{
  Outcome, success, authorize, declined, requires_action, risk_hold, success_then_dispute,
  decline_str, decline_description,
}
use payment_gateway_sandbox.Simulator.{Decision, SimulatorError, decide}
use payment_gateway_sandbox.Api.Error.{ApiError, card_problem}
use payment_gateway_sandbox.Api.Validate.{cvc}
use payment_gateway_sandbox.Api.Auth.Cache.{AuthCtx}
use payment_gateway_sandbox.Api.Auth.{require}
use payment_gateway_sandbox.Api.Handler.{Handler, checked, serve, reply, path_id}

pub record CardRequest : Type 0 where
  pub number : Bytes
  pub exp_month : ℕ
  pub exp_year : ℕ
  pub cvc_code : Option Bytes

pub record CreatePaymentRequest : Type 0 where
  pub order_id : Bytes
  pub card : CardRequest
  pub notes : List (String × String)

unfoldable pub map_outcome : Outcome → AttemptOutcome
unfolding decline_str decline_description
map_outcome success = AttemptOutcome.capture
map_outcome success_then_dispute = AttemptOutcome.capture_then_dispute
map_outcome authorize = AttemptOutcome.authorize
map_outcome (declined code) = AttemptOutcome.decline (decline_str code) (decline_description code)
map_outcome requires_action = AttemptOutcome.require_action
map_outcome risk_hold = AttemptOutcome.risk_hold

unfoldable pub map_decision : Decision → AttemptDecision
unfolding map_outcome
map_decision d = record { outcome = map_outcome d.outcome; latency_ms = d.latency_ms }

abbrev pub check_cvc : Option Bytes → Result (Unit {0}) ApiError
check_cvc none = ok tt
check_cvc (some raw) = cvc raw

abbrev pub decided : Result Decision SimulatorError → Result Decision ApiError
decided (err e) = err (card_problem "card_not_in_test_set" none)
decided (ok d) = ok d

abbrev unwrap_code : Option String → String
unwrap_code none = "card_declined"
unwrap_code (some code) = code

abbrev pub is_failed : PaymentStatus → Bool
is_failed failed = true
is_failed _ = false

-- A failed payment is an answer of its own, after it is stored.
unfoldable pub created_reply : Payment → Result Payment ApiError
created_reply p =
    if is_failed p.status then err (card_problem (unwrap_code p.error_code) (some p.id)) else ok p

abbrev pub input_of : ℕ → CreatePaymentRequest → CreatePaymentInput
input_of order_id req = record {
  order_id = order_id;
  card_number = req.card.number;
  card_exp_month = req.card.exp_month;
  card_exp_year = req.card.exp_year;
  notes = req.notes;
}

-- `create` from the simulator's gate on
unfoldable pub create_gated : Env → AuthCtx → ℕ → CreatePaymentRequest → Order → Handler Payment
unfolding map_decision created_reply
create_gated env auth order_id req o = checked (decided (decide req.card.number o.amount)) (λ d.
    serve (create_payment env auth.merchant_id (input_of order_id req) (map_decision d))
      (λ p. reply (created_reply p)))

-- `create`
unfoldable pub create : Env → (Bytes → Option ℕ) → AuthCtx → CreatePaymentRequest → Handler Payment
unfolding create_gated
create env parse_uuid auth req = checked (require payments_write auth) (λ _.
    checked (check_cvc req.card.cvc_code) (λ _.
      checked (path_id parse_uuid order req.order_id) (λ order_id.
        serve (get_order auth.merchant_id order_id) (create_gated env auth order_id req))))

unfoldable pub retrieve : (Bytes → Option ℕ) → AuthCtx → Bytes → Handler Payment
retrieve parse_uuid auth id = checked (require payments_read auth) (λ _.
    checked (path_id parse_uuid payment id)
      (λ payment_id. serve (get_payment auth.merchant_id payment_id) (λ p. reply (ok p))))

unfoldable pub capture : Env → (Bytes → Option ℕ) → AuthCtx → Bytes → Handler Payment
capture env parse_uuid auth id = checked (require payments_write auth) (λ _.
    checked (path_id parse_uuid payment id)
      (λ payment_id. serve (capture_payment env auth.merchant_id payment_id) (λ p. reply (ok p))))
