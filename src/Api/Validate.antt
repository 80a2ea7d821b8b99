-- ===== src/Api/Validate.antt =====
-- Validation at the edge (crates/api/validate.rs). A text is the list of its bytes.
use payment_gateway_sandbox.Prelude.{
  ℕ, Bool, true, false, not, ◌&&◌, ◌||◌, ltb, leb, ◌==◌, Option, none, some, List, [], ◌∷◌,
  if◌then◌else◌,
}
use payment_gateway_sandbox.Prelude.Lists.{length}
use payment_gateway_sandbox.Prelude.Result.{Result, ok, err, ◌>>=◌, ◌>>◌, bail_if, ok_or}
use payment_gateway_sandbox.Prelude.Bytes.{Bytes, eq_bytes, all_bytes, split_once}
use payment_gateway_sandbox.Domain.Card.{is_ascii_digit}
use payment_gateway_sandbox.Api.Error.{ApiError, card_problem, invalid_request}

abbrev pub max_url_len : ℕ
max_url_len = 2048

abbrev pub max_enabled_events : ℕ
max_enabled_events = 32

abbrev pub max_event_type_len : ℕ
max_event_type_len = 64

abbrev pub min_idempotency_key_len : ℕ
min_idempotency_key_len = 8

abbrev pub max_idempotency_key_len : ℕ
max_idempotency_key_len = 255

abbrev pub in_range : ℕ → ℕ → ℕ → Bool
in_range lo hi n = leb lo n && leb n hi

unfoldable pub cvc : Bytes → Result (Unit {0}) ApiError
unfolding all_bytes
cvc raw =
    if in_range 3 4 (length raw) && all_bytes is_ascii_digit raw
    then ok tt
    else err (card_problem "incorrect_cvc" none)

-- What the `url` library says of a text that it parses: the parts that are looked at, and the text
-- that it prints.
pub record Url : Type 0 where
  pub scheme : Bytes
  pub has_host : Bool
  pub username : Bytes
  pub has_password : Bool
  pub has_fragment : Bool
  pub to_string : Bytes

abbrev pub url_invalid : ApiError
url_invalid = invalid_request "url_invalid" (some "url")

abbrev is_http : Bytes → Bool
is_http s =
    eq_bytes s (b'h' ∷ b't' ∷ b't' ∷ b'p' ∷ [])
    || eq_bytes s (b'h' ∷ b't' ∷ b't' ∷ b'p' ∷ b's' ∷ [])

abbrev is_empty : Bytes → Bool
is_empty [] = true
is_empty _ = false

-- `webhook_url`, over what `Url::parse` returns
unfoldable pub webhook_url : (Bytes → Option Url) → Bytes → Result Bytes ApiError
unfolding eq_bytes
webhook_url parse raw = do
  bail_if (ltb max_url_len (length raw)) url_invalid
  url ← ok_or (parse raw) url_invalid
  bail_if (not (is_http url.scheme)) url_invalid
  bail_if (not url.has_host) url_invalid
  bail_if (not (is_empty url.username) || url.has_password) url_invalid
  bail_if url.has_fragment url_invalid
  ok url.to_string

abbrev is_event_byte : ℕ → Bool
is_event_byte b = in_range b'a' b'z' b || (b == b'.' || b == b'_')

abbrev both_given : Option (Bytes × Bytes) → Bool
both_given none = false
both_given (some (resource, action)) = not (is_empty resource) && not (is_empty action)

-- `resource.action`
unfoldable pub shaped : Bytes → Bool
unfolding split_once all_bytes
shaped event =
    leb (length event) max_event_type_len
    && (both_given (split_once b'.' event) && all_bytes is_event_byte event)

unfoldable pub seen_in : Bytes → List Bytes → Bool
unfolding eq_bytes
seen_in e [] = false
seen_in e (s ∷ ss) = if eq_bytes e s then true else seen_in e ss

abbrev pub enabled_events_invalid : ApiError
enabled_events_invalid = invalid_request "enabled_events_invalid" (some "enabled_events")

-- the loop, with the events seen so far
unfoldable pub check_events : List Bytes → List Bytes → Result (Unit {0}) ApiError
check_events seen [] = ok tt
check_events seen (e ∷ es) = do
  bail_if (seen_in e seen) enabled_events_invalid
  bail_if (not (shaped e)) enabled_events_invalid
  check_events (e ∷ seen) es

unfoldable pub enabled_events : List Bytes → Result (Unit {0}) ApiError
enabled_events events = do
  bail_if (ltb max_enabled_events (length events)) enabled_events_invalid
  check_events [] events

-- `u8::is_ascii_graphic`
abbrev pub is_graphic : ℕ → Bool
is_graphic b = in_range 33 126 b

unfoldable pub idempotency_key : Bytes → Result Bytes ApiError
idempotency_key raw =
    if in_range min_idempotency_key_len max_idempotency_key_len (length raw)
      && all_bytes is_graphic raw
    then ok raw
    else err (invalid_request "idempotency_key_invalid" none)
