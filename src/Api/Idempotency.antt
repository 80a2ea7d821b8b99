-- ===== src/Api/Idempotency.antt =====
-- The idempotency middleware (crates/api/middleware/idempotency.rs). The handler behind it, the JSON
-- library and SHA-256 are parameters.
pub mod Fingerprint
pub mod Runs
pub mod Once
pub mod Steps
pub mod Replay
pub mod Abandoned
use payment_gateway_sandbox.Prelude.{
  ℕ, ◌+◌, ◌≡◌, ◌≤◌, ◌⊎◌, refl, arith, Bool, true, false, Bool-cases, not, ◌&&◌, Option, none, some,
  List, [], ◌∷◌, ◌++◌, ltb, leb, ◌==◌, if◌then◌else◌, inl, inr,
}
use payment_gateway_sandbox.Prelude.Int.{ℤ, pos, negsuc}
use payment_gateway_sandbox.Prelude.Lists.{length}
use payment_gateway_sandbox.Prelude.Bytes.{Bytes}
use payment_gateway_sandbox.Prelude.Result.{Result, ok, err, ◌>>=◌}
use payment_gateway_sandbox.Api.Error.{
  ApiError, internal, unavailable, payload_too_large, conflicting, retry_after, is_server_error,
}
use payment_gateway_sandbox.Api.Validate.{idempotency_key}
use payment_gateway_sandbox.Store.Idempotency.{
  KeyRow, AcquireOutcome, acquired, replay, mismatch, in_flight, acquire, complete, release,
}

pub data Method : Type 0 where
  get head options post put patch delete : Method

-- `is_mutating`
unfoldable pub is_mutating : Method → Bool
is_mutating post = true
is_mutating put = true
is_mutating patch = true
is_mutating delete = true
is_mutating _ = false

unfoldable pub method_name : Method → Bytes
method_name get = b'G' ∷ b'E' ∷ b'T' ∷ []
method_name head = b'H' ∷ b'E' ∷ b'A' ∷ b'D' ∷ []
method_name options = b'O' ∷ b'P' ∷ b'T' ∷ b'I' ∷ b'O' ∷ b'N' ∷ b'S' ∷ []
method_name post = b'P' ∷ b'O' ∷ b'S' ∷ b'T' ∷ []
method_name put = b'P' ∷ b'U' ∷ b'T' ∷ []
method_name patch = b'P' ∷ b'A' ∷ b'T' ∷ b'C' ∷ b'H' ∷ []
method_name delete = b'D' ∷ b'E' ∷ b'L' ∷ b'E' ∷ b'T' ∷ b'E' ∷ []

-- A request as it comes to the middleware: the key as `header_value` reads it, and the merchant of the
-- `AuthCtx`, if the layer of authentication has run.
pub record Request : Type 0 where
  pub method : Method
  pub path : Bytes
  pub key_header : Option Bytes
  pub merchant : Option ℕ
  pub body : Bytes

pub record Response : Type 0 where
  pub status : ℕ
  pub body : Bytes
  pub replayed : Bool

-- What the middleware takes from libraries and from the configuration.
pub record Gate (Json : Type 0) : Type 0 where
  pub parse : Bytes → Option Json
  pub print : Json → Bytes
  pub null : Json
  pub sha256_hex : Bytes → Bytes
  pub max_body_bytes : ℕ
  pub max_recorded_response_bytes : ℕ
  pub idempotency_ttl : ℕ

-- `format!("{} {}", req.method(), req.uri().path())`
unfoldable pub endpoint_of : Method → Bytes → Bytes
unfolding method_name
endpoint_of m path = method_name m ++ 32 ∷ path

-- What `fingerprint` hashes.
unfoldable pub preimage : Bytes → Bytes → Bytes
preimage endpoint body = endpoint ++ 0 ∷ body

-- `u16::try_from`, then `StatusCode::from_u16`, which takes 100 to 999
abbrev pub http_status : ℤ → ℕ
http_status (pos n) = if leb 100 n && leb n 999 then n else 200
http_status (negsuc n) = 200

module _ {Json : Type 0} (gate : Gate Json) where
  unfoldable pub fingerprint : Bytes → Bytes → Bytes
  unfolding preimage
  fingerprint endpoint body = gate.sha256_hex (preimage endpoint body)

  abbrev pub or_null : Option Json → Json
  or_null none = gate.null
  or_null (some j) = j

  -- `replay`
  unfoldable pub replayed_response : ℤ → Option Json → Response
  replayed_response status body = record {
    status = http_status status;
    body = gate.print (or_null body);
    replayed = true;
  }

  -- What is done with a request: it is answered at once, run without a key, or run under a key.
  pub data Verdict : Type 0 where
    answer : Result Response ApiError → Verdict
    unguarded : Verdict
    run : ℕ → Bytes → Verdict

  -- the `match` on the outcome
  abbrev pub verdict_of : ℕ → Bytes → AcquireOutcome Json → Verdict
  verdict_of merchant key (replay status body) = answer (ok (replayed_response status body))
  verdict_of merchant key mismatch = answer (err (conflicting "idempotency_key_reused"))
  verdict_of merchant key in_flight =
      answer (err (retry_after 1 (conflicting "idempotency_key_in_flight")))
  verdict_of merchant key acquired = run merchant key

  -- `stored` is whether the statement on the table of keys got through.
  abbrev pub admit_as :
      Bool → ℕ → Request → Bytes → Option ℕ → List (KeyRow Json) → Verdict × List (KeyRow Json)
  admit_as stored now req key none table = (answer (err internal), table)
  admit_as stored now req key (some merchant) table =
      let endpoint = endpoint_of req.method req.path in
      if ltb gate.max_body_bytes (length req.body)
      then (answer (err payload_too_large), table)
      else if stored
      then (let got =
            acquire merchant key endpoint (fingerprint endpoint req.body)
              (now + gate.idempotency_ttl) now table in
          (verdict_of merchant key got.0, got.1))
      else (answer (err unavailable), table)

  abbrev pub admit_key :
      Bool → ℕ → Request → Result Bytes ApiError → List (KeyRow Json) → Verdict × List (KeyRow Json)
  admit_key stored now req (err e) table = (answer (err e), table)
  admit_key stored now req (ok key) table = admit_as stored now req key req.merchant table

  abbrev pub admit_header :
      Bool → ℕ → Request → Option Bytes → List (KeyRow Json) → Verdict × List (KeyRow Json)
  admit_header stored now req none table = (unguarded, table)
  admit_header stored now req (some raw) table =
      admit_key stored now req (idempotency_key raw) table

  -- `guarded` up to the handler
  unfoldable pub admit : Bool → ℕ → Request → List (KeyRow Json) → Verdict × List (KeyRow Json)
  unfolding is_mutating endpoint_of fingerprint replayed_response
  admit stored now req table =
      if is_mutating req.method
      then admit_header stored now req req.key_header table
      else (unguarded, table)

  -- whether `record` keeps the response for later requests
  abbrev pub is_recorded : Response → Bool
  is_recorded response =
      leb (length response.body) gate.max_recorded_response_bytes
      && not (is_server_error response.status)

  -- `record`: what becomes of the handler's response. A statement that fails is only logged.
  unfoldable pub record_response :
      Bool → ℕ → Bytes → Response → List (KeyRow Json) → Response × List (KeyRow Json)
  record_response stored merchant key response table =
      if ltb gate.max_recorded_response_bytes (length response.body)
      then (record response { body = [] }, (if stored then release merchant key table else table))
      else if is_server_error response.status
      then (response, (if stored then release merchant key table else table))
      else (
        response,
        (if stored
            then complete merchant key (pos response.status) (or_null (gate.parse response.body))
                table
            else table),
      )
