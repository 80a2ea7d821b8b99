-- ===== src/Store/Error.antt =====
-- Errors of the store (crates/store/src/error.rs) and of the engine (crates/engine/error.rs). The
-- text of a validation's reason is a constructor with the values that the text shows.
use payment_gateway_sandbox.Prelude.{String, Bool, true, false}
use payment_gateway_sandbox.Prelude.Int.{ℤ}
use payment_gateway_sandbox.Domain.Money.{MoneyError}
use payment_gateway_sandbox.Domain.Ledger.Account.{LedgerError}
use payment_gateway_sandbox.Domain.PaymentStatus.{PaymentStatus, InvalidPaymentTransition}
use payment_gateway_sandbox.Domain.OrderStatus.{InvalidOrderTransition}
use payment_gateway_sandbox.Domain.Card.{CardDetailsError}

pub data StoreError : Type 0 where
  row_not_found : String → StoreError
  conflict : String → StoreError
  ledger_integrity : StoreError
  check_violation : String → StoreError
  database : StoreError
  decode : String → StoreError

-- `StoreError::is_not_found`
unfoldable pub row_is_not_found : StoreError → Bool
row_is_not_found (row_not_found _) = true
row_is_not_found _ = false

pub data Reason : Type 0 where
  below_minimum too_many_notes receipt_too_long : Reason
  order_is_terminal : Reason
  reason_too_long : Reason
  not_captured : PaymentStatus → Reason
  already_fully_refunded not_greater_than_zero : Reason
  exceeds_refundable : ℤ → Reason

pub data EngineError : Type 0 where
  store_error : StoreError → EngineError
  money_error : MoneyError → EngineError
  ledger_error : LedgerError → EngineError
  order_transition : InvalidOrderTransition → EngineError
  payment_transition : InvalidPaymentTransition → EngineError
  card_error : CardDetailsError → EngineError
  validation : String → Reason → EngineError
  not_found : String → EngineError

-- `EngineError::is_not_found`
unfoldable pub is_not_found : EngineError → Bool
unfolding row_is_not_found
is_not_found (not_found _) = true
is_not_found (store_error e) = row_is_not_found e
is_not_found _ = false
