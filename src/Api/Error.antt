-- ===== src/Api/Error.antt =====
-- The error envelope (crates/api/error.rs). The text of a message is left out: it shows the values of
-- the error that it is made from.
use payment_gateway_sandbox.Prelude.{
  ℕ, String, ◌≡◌, ◌↔◌, refl, arith, Bool, true, ◌&&◌, ltb, leb, Option, none, some,
}
use payment_gateway_sandbox.Store.Error.{
  StoreError, row_not_found, conflict, EngineError, store_error, money_error, ledger_error,
  order_transition, payment_transition, card_error, validation, not_found, is_not_found,
  row_is_not_found,
}

pub record ApiError : Type 0 where
  pub status : ℕ
  pub err_type : String
  pub code : String
  pub param : Option String
  pub payment_id : Option ℕ
  pub retry_after_secs : Option ℕ

-- `ApiError::new`
abbrev pub new_error : ℕ → String → String → ApiError
new_error status err_type code = record {
  status = status;
  err_type = err_type;
  code = code;
  param = none;
  payment_id = none;
  retry_after_secs = none;
}

-- `ApiError::retry_after`
abbrev pub retry_after : ℕ → ApiError → ApiError
retry_after secs e = record e { retry_after_secs = some secs }

abbrev pub invalid_request : String → Option String → ApiError
invalid_request code param = record (new_error 400 "invalid_request_error" code) { param = param }

abbrev pub missing : ApiError
missing = new_error 404 "invalid_request_error" "resource_missing"

abbrev pub unauthorized : ApiError
unauthorized = new_error 401 "authentication_error" "invalid_api_key"

abbrev pub forbidden : ApiError
forbidden = new_error 403 "permission_error" "insufficient_scope"

abbrev pub conflicting : String → ApiError
conflicting code = new_error 409 "idempotency_error" code

abbrev pub payload_too_large : ApiError
payload_too_large = new_error 413 "invalid_request_error" "request_too_large"

-- `ApiError::card`
abbrev pub card_problem : String → Option ℕ → ApiError
card_problem code payment_id = record (new_error 402 "card_error" code) { payment_id = payment_id }

abbrev pub unavailable : ApiError
unavailable = record (new_error 503 "api_error" "service_unavailable") { retry_after_secs = some 1 }

-- `ApiError::timeout`
abbrev pub timed_out : ApiError
timed_out = retry_after 1 (new_error 504 "api_error" "request_timeout")

abbrev pub unsupported_media_type : ApiError
unsupported_media_type = new_error 415 "invalid_request_error" "unsupported_media_type"

abbrev pub internal : ApiError
internal = new_error 500 "api_error" "internal_error"

-- `StatusCode::is_server_error`
unfoldable pub is_server_error : ℕ → Bool
is_server_error s = leb 500 s && ltb s 600

unfoldable pub is_server_fault : ApiError → Bool
unfolding is_server_error
is_server_fault e = is_server_error e.status

-- `From<StoreError>`
unfoldable pub from_store : StoreError → ApiError
from_store (row_not_found _) = missing
from_store (conflict _) = conflicting "resource_already_exists"
from_store _ = internal

-- `From<EngineError>`
unfoldable pub from_engine : EngineError → ApiError
unfolding from_store
from_engine (not_found _) = missing
from_engine (store_error s) = from_store s
from_engine (validation field _) = invalid_request "parameter_invalid" (some field)
from_engine (card_error _) = card_problem "card_invalid" none
from_engine (order_transition _) = invalid_request "invalid_state" none
from_engine (payment_transition _) = invalid_request "invalid_state" none
from_engine (money_error _) = invalid_request "amount_invalid" (some "amount")
from_engine (ledger_error _) = internal

store-status :
    (s : StoreError)
    → ((is_server_fault (from_store s) ≡ true) ↔ (from_store s ≡ internal))
      × (((from_store s).status ≡ 404) ↔ (row_is_not_found s ≡ true))
unfolding is_server_fault from_store row_is_not_found
store-status (row_not_found _) = ((λ h. ground arith, λ h. ground arith), (λ h. refl, λ h. refl))
store-status (conflict _) =
    ((λ h. ground arith, λ h. ground arith), (λ h. ground arith, λ h. ground arith))
store-status _ = ((λ h. refl, λ h. ground arith), (λ h. ground arith, λ h. ground arith))

-- Whatever fails inside the engine, the answer is the server's fault exactly when it is the one generic
-- error, which shows nothing of the cause, and it is a 404 exactly for the errors that the engine itself
-- takes for "not found".
pub engine_errors_disclose_nothing :
    (e : EngineError)
    → ((is_server_fault (from_engine e) ≡ true) ↔ (from_engine e ≡ internal))
      × (((from_engine e).status ≡ 404) ↔ (is_not_found e ≡ true))
unfolding is_server_fault from_engine is_not_found
engine_errors_disclose_nothing (store_error s) = store-status s
engine_errors_disclose_nothing (not_found _) =
    ((λ h. ground arith, λ h. ground arith), (λ h. refl, λ h. refl))
engine_errors_disclose_nothing (ledger_error _) =
    ((λ h. refl, λ h. ground arith), (λ h. ground arith, λ h. ground arith))
engine_errors_disclose_nothing _ =
    ((λ h. ground arith, λ h. ground arith), (λ h. ground arith, λ h. ground arith))
