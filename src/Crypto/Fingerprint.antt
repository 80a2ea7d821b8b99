-- ===== src/Crypto/Fingerprint.antt =====
-- The fingerprint of a card number (crates/crypto/src/fingerprint.rs).
use payment_gateway_sandbox.Prelude.Bytes.{Bytes}
use payment_gateway_sandbox.Domain.Card.{digits_of}
use payment_gateway_sandbox.Store.Listing.{take}
use payment_gateway_sandbox.Crypto.Signing.{Libraries}

unfoldable pub card_fingerprint : Libraries → Bytes → Bytes → Bytes
unfolding digits_of take
card_fingerprint lib pepper card_number =
    take 32 (lib.hex_encode (lib.hmac_sha256 pepper (digits_of card_number)))
