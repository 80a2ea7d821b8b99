-- ===== src/Crypto/Signing.antt =====
-- The signatures of webhooks and of the checkout (crates/crypto/src/signing.rs). HMAC-SHA256 and the
-- hexadecimal coding are libraries; a text is the list of its characters.
pub mod Header
pub mod Window
pub mod Verify
pub mod Handoff
use payment_gateway_sandbox.Prelude.{
  ℕ, ◌+◌, ◌≡◌, Bool, true, false, not, Option, none, some, List, [], ◌∷◌, ◌++◌, if◌then◌else◌,
}
use payment_gateway_sandbox.Prelude.Int.{ℤ, pos, pos_part, neg_part, ◌-ℤ◌, ltb_ℤ, wrap_i64}
use payment_gateway_sandbox.Prelude.Bytes.{Bytes, eq_bytes, split_once}
use payment_gateway_sandbox.Prelude.Text.{trim, split}
use payment_gateway_sandbox.Prelude.Text.Decimal.{print_i64, parse_i64}
use payment_gateway_sandbox.Prelude.Result.{Result, ok, err, ◌>>=◌, ◌>>◌, ok_or, bail_if}

-- What is taken from the libraries: the MAC of a text under a key, and the hexadecimal coding.
pub record Libraries : Type 0 where
  pub hmac_sha256 : Bytes → Bytes → Bytes
  pub hex_encode : Bytes → Bytes
  pub hex_decode : Bytes → Option Bytes

-- `DEFAULT_TOLERANCE_SECS`
abbrev pub default_tolerance_secs : ℤ
default_tolerance_secs = pos 300

pub data SignatureError : Type 0 where
  malformed_header mismatch : SignatureError
  timestamp_out_of_range : ℤ → ℤ → SignatureError

-- What the MAC of a webhook is taken of.
unfoldable pub signed_text : ℤ → Bytes → Bytes
signed_text timestamp payload = print_i64 timestamp ++ b'.' ∷ payload

-- What the MAC of a handoff is taken of.
unfoldable pub handoff_text : Bytes → Bytes → Bytes
handoff_text order_id payment_id = order_id ++ b'|' ∷ payment_id

-- `i64::abs`, which leaves i64::MIN as it is in a release build
unfoldable pub abs_i64 : ℤ → ℤ
unfolding wrap_i64
abs_i64 a = wrap_i64 (pos (pos_part a + neg_part a))

-- The arms on the key of one part.
abbrev pub timestamp_after : Bytes → Bytes → Option ℤ → Option ℤ
timestamp_after k v timestamp = if eq_bytes k (b't' ∷ []) then parse_i64 v else timestamp

abbrev pub signature_after : Bytes → Bytes → Option Bytes → Option Bytes
signature_after k v signature = if eq_bytes k (b'v' ∷ b'1' ∷ []) then some v else signature

-- The `match` after the loop.
abbrev pub both : Option ℤ → Option Bytes → Result (ℤ × Bytes) SignatureError
both (some t) (some s) = ok (t, s)
both _ _ = err malformed_header

-- The loop of `parse_header`.
unfoldable pub parse_parts :
    Option ℤ → Option Bytes → List Bytes → Result (ℤ × Bytes) SignatureError
unfolding trim split_once eq_bytes parse_i64
parse_parts timestamp signature [] = both timestamp signature
parse_parts timestamp signature (part ∷ parts) = do
  kv ← ok_or (split_once b'=' (trim part)) malformed_header
  parse_parts (timestamp_after kv.0 kv.1 timestamp) (signature_after kv.0 kv.1 signature) parts

unfoldable pub parse_header : Bytes → Result (ℤ × Bytes) SignatureError
unfolding split parse_parts
parse_header header = parse_parts none none (split b',' header)

module _ (lib : Libraries) where
  unfoldable pub compute : Bytes → ℤ → Bytes → Bytes
  unfolding signed_text
  compute secret timestamp payload =
      lib.hex_encode (lib.hmac_sha256 secret (signed_text timestamp payload))

  unfoldable pub build_header : Bytes → ℤ → Bytes → Bytes
  unfolding compute
  build_header secret timestamp payload =
      b't' ∷ b'=' ∷ print_i64 timestamp
      ++ b',' ∷ b'v' ∷ b'1' ∷ b'=' ∷ compute secret timestamp payload

  -- `verify_slice` accepts exactly the MAC itself.
  abbrev pub verify_slice : Bytes → Bytes → Result (Unit {0}) SignatureError
  verify_slice mac provided = bail_if (not (eq_bytes mac provided)) mismatch

  unfoldable pub verify : Bytes → Bytes → Bytes → ℤ → ℤ → Result (Unit {0}) SignatureError
  unfolding parse_header abs_i64 signed_text eq_bytes
  verify secret header payload now_unix tolerance_secs = do
    parsed ← parse_header header
    let drift = abs_i64 (wrap_i64 (now_unix -ℤ parsed.0))
    bail_if (ltb_ℤ tolerance_secs drift) (timestamp_out_of_range drift tolerance_secs)
    provided ← ok_or (lib.hex_decode parsed.1) malformed_header
    verify_slice (lib.hmac_sha256 secret (signed_text parsed.0 payload)) provided

  unfoldable pub sign_handoff : Bytes → Bytes → Bytes → Bytes
  unfolding handoff_text
  sign_handoff secret_key order_id payment_id =
      lib.hex_encode (lib.hmac_sha256 secret_key (handoff_text order_id payment_id))

  unfoldable pub verify_handoff : Bytes → Bytes → Bytes → Bytes → Result (Unit {0}) SignatureError
  unfolding handoff_text eq_bytes
  verify_handoff secret_key order_id payment_id provided = do
    bytes ← ok_or (lib.hex_decode provided) malformed_header
    verify_slice (lib.hmac_sha256 secret_key (handoff_text order_id payment_id)) bytes

  -- `random` is what the operating system fills the 32 bytes with.
  unfoldable pub generate_webhook_secret : Bytes → Bytes
  generate_webhook_secret random = b'w' ∷ b'h' ∷ b's' ∷ b'e' ∷ b'c' ∷ b'_' ∷ lib.hex_encode random
