-- ===== src/Store/Payments.antt =====
-- Payment persistence (crates/store/src/payment.rs and payment_attempt.rs) with the constraints of
-- the table (migrations/20260726095220_payments.up.sql). A row stands for the payment that was written to it;
-- Row says of which payments that is what is read.
pub mod Row
use payment_gateway_sandbox.Prelude.{
  ℕ, String, Bool, true, false, not, Option, none, some, List, [], ◌∷◌, ◌++◌, ◌&&◌, ◌==◌, leb,
  if◌then◌else◌,
}
use payment_gateway_sandbox.Prelude.Int.{ℤ, pos, leb_ℤ}
use payment_gateway_sandbox.Domain.Payment.{Payment}
use payment_gateway_sandbox.Domain.PaymentStatus.{PaymentStatus, captured, failed, refunded}
use payment_gateway_sandbox.Store.Error.{check_violation, store_error}
use payment_gateway_sandbox.Store.Db.{Env, Tx, ◌>>=◌, ◌>>◌, gets, modify, throw_if, new_id}
use payment_gateway_sandbox.Store.Orders.{or_not_found}
use payment_gateway_sandbox.Store.Rows.{find_row, update_rows, all_rows, order_by}

abbrev pub payment_id_of : Payment → ℕ
payment_id_of p = p.id

abbrev is_given {ℓ} : {A : Type ℓ} → Option A → Bool
is_given none = false
is_given (some _) = true

-- `pay_captured_at_consistency` and `pay_failure_has_code`
abbrev status_checks : PaymentStatus → Option ℕ → Option String → Bool
status_checks captured at code = is_given at
status_checks refunded at code = is_given at
status_checks failed at code = not (is_given at) && is_given code
status_checks _ at code = not (is_given at)

-- The CHECKs of the table, but for the shape of the currency's code.
unfoldable pub payment_checks : Payment → Bool
payment_checks p =
    leb_ℤ (pos 100) p.amount.minor
    && (leb_ℤ (pos 0) p.amount_refunded
        && (leb_ℤ p.amount_refunded p.amount.minor
            && status_checks p.status p.captured_at p.error_code))

-- `find_by_id` and `find_by_id_for_update`
unfoldable pub find_payment : ℕ → Tx Payment
unfolding find_row
find_payment id = do or_not_found "payment" (← gets (λ db. find_row payment_id_of id db.payments))

-- `insert`
unfoldable pub insert_payment : Payment → Tx (Unit {0})
insert_payment p = do
  throw_if (not (payment_checks p)) (store_error (check_violation "payments"))
  modify (λ db. record db { payments = db.payments ++ p ∷ [] })

abbrev pub with_payment_status :
    PaymentStatus → Option ℕ → ℤ → Option String → Option String → Payment → Payment
with_payment_status s at amount_refunded code description p = record p {
  status = s;
  captured_at = at;
  amount_refunded = amount_refunded;
  error_code = code;
  error_description = description;
}

-- `update_status`
unfoldable pub update_payment_status :
    ℕ → PaymentStatus → Option ℕ → ℤ → Option String → Option String → Tx (Unit {0})
update_payment_status id s at amount_refunded code description = do
  let f = with_payment_status s at amount_refunded code description
  fine ← gets (λ db. all_rows payment_id_of id (λ p. payment_checks (f p)) db.payments)
  throw_if (not fine) (store_error (check_violation "payments"))
  found ← or_not_found "payment" (← gets (λ db. find_row payment_id_of id db.payments))
  modify (λ db. record db { payments = update_rows payment_id_of id f db.payments })

-- `payment_attempt::insert`
unfoldable pub insert_attempt : Env → ℕ → ℕ → String → Option String → ℕ → Tx (Unit {0})
unfolding new_id
insert_attempt env payment attempt_number outcome decline_code latency_ms = do
  id ← new_id env
  modify (λ db. record db {
    attempts =
        db.attempts
        ++ record {
          id = id;
          payment_id = payment;
          attempt_number = attempt_number;
          outcome = outcome;
          decline_code = decline_code;
          latency_ms = latency_ms;
          created_at = env.now;
        }
          ∷ [];
  })

unfoldable pub payments_of : ℕ → List Payment → List Payment
payments_of order [] = []
payments_of order (p ∷ ps) =
    if p.order_id == order then p ∷ payments_of order ps else payments_of order ps

-- `list_for_order`, the latest first
unfoldable pub list_for_order : ℕ → List Payment → List Payment
unfolding payments_of
list_for_order order ps = order_by (λ a b. leb b.created_at a.created_at) (payments_of order ps)
