-- ===== src/Webhooks/Delivery.antt =====
-- What a sending comes to (crates/webhooks/delivery.rs). The request itself, its clock and the reading of
-- bytes as text are the HTTP library's and the standard library's.
use payment_gateway_sandbox.Prelude.{
  ℕ, String, Bool, ◌&&◌, Option, none, some, ltb, leb, if◌then◌else◌,
}
use payment_gateway_sandbox.Prelude.Bytes.{Bytes}
use payment_gateway_sandbox.Store.Listing.{take}

pub data SendOutcome : Type 0 where
  delivered : ℕ → String → ℕ → SendOutcome
  failed : Option ℕ → Option String → ℕ → String → SendOutcome

-- What the HTTP library returns: a response, or an error of which the program asks whether it is a
-- time-out.
pub data HttpResult : Type 0 where
  responded : ℕ → Bytes → HttpResult
  request_error : Bool → String → HttpResult

abbrev pub i32_max : ℕ
i32_max = 2147483647

-- `i32::try_from(…).unwrap_or(i32::MAX)`
abbrev pub duration_of : ℕ → ℕ
duration_of elapsed = if leb elapsed i32_max then elapsed else i32_max

abbrev pub is_success_status : ℕ → Bool
is_success_status status = leb 200 status && ltb status 300

-- The end of `send`: `lossy` is `String::from_utf8_lossy`, and the status is left out of the text of the
-- error.
unfoldable pub send_outcome : (Bytes → String) → ℕ → ℕ → HttpResult → SendOutcome
send_outcome lossy max_response_bytes elapsed (responded status bytes) =
    let body = lossy (take max_response_bytes bytes) in
    if is_success_status status
    then delivered status body (duration_of elapsed)
    else failed (some status) (some body) (duration_of elapsed) "endpoint returned"
send_outcome lossy max_response_bytes elapsed (request_error timed_out e) =
    failed none none (duration_of elapsed) (if timed_out then "request timed out" else e)
