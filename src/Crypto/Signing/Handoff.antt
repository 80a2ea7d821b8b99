-- ===== src/Crypto/Signing/Handoff.antt =====
-- What a signature of the checkout proves.
use payment_gateway_sandbox.Prelude.{◌≡◌, ◌↔◌, refl, ◌∙◌, arith, true}
use payment_gateway_sandbox.Prelude.Bytes.{
  Bytes, eq_bytes_refl, eq_bytes_sound, lacks, split_unique,
}
use payment_gateway_sandbox.Prelude.Result.{ok}
use payment_gateway_sandbox.Crypto.Signing.{
  Libraries, handoff_text, sign_handoff, verify_handoff, verify_slice,
}
use payment_gateway_sandbox.Crypto.Signing.Verify.{IsHexCoding}

verify_handoff-sign_handoff :
    (lib : Libraries) (secret order payment order' payment' : Bytes)
    → IsHexCoding lib
    → verify_handoff lib secret order' payment' (sign_handoff lib secret order payment)
      ≡ verify_slice lib
          (lib.hmac_sha256 secret (handoff_text order' payment'))
          (lib.hmac_sha256 secret (handoff_text order payment))
unfolding verify_handoff sign_handoff
verify_handoff-sign_handoff lib secret order payment order' payment' hex =
    rw (hex.decodes (lib.hmac_sha256 secret (handoff_text order payment))) refl

handoff_text_injective :
    (o p o' p' : Bytes)
    → lacks b'|' o ≡ true
    → lacks b'|' o' ≡ true
    → handoff_text o p ≡ handoff_text o' p'
    → (o ≡ o') × (p ≡ p')
unfolding handoff_text
handoff_text_injective o p o' p' h h' e = split_unique b'|' o o' p p' h h' e

-- The signature of an order and a payment is accepted for exactly this order and this payment, where order
-- ids have no bar and HMAC tells the two signed texts apart.
pub handoff_accepted_iff :
    (lib : Libraries) (secret order payment order' payment' : Bytes)
    → IsHexCoding lib
    → lacks b'|' order ≡ true
    → lacks b'|' order' ≡ true
    → (lib.hmac_sha256 secret (handoff_text order' payment')
          ≡ lib.hmac_sha256 secret (handoff_text order payment)
        → handoff_text order' payment' ≡ handoff_text order payment)
    → (verify_handoff lib secret order' payment' (sign_handoff lib secret order payment) ≡ ok tt)
      ↔ ((order' ≡ order) × (payment' ≡ payment))
handoff_accepted_iff lib secret order payment order' payment' hex l l' mac_injective =
    let mac = lib.hmac_sha256 secret (handoff_text order payment) in
    let mac' = lib.hmac_sha256 secret (handoff_text order' payment') in
    let same = verify_handoff-sign_handoff lib secret order payment order' payment' hex in
    (
      λ h.
          handoff_text_injective order' payment' order payment l' l
            (mac_injective (eq_bytes_sound mac' mac (ground (arith, h, same)))),
      λ (o, p). same ∙ rw (o, p) (rw (eq_bytes_refl mac) refl),
    )
