-- ===== src/Tests/Signatures.antt =====
-- The theorems on signatures at concrete texts.
use payment_gateway_sandbox.Prelude.{
  ℕ, zero, suc, ◌≡◌, ◌⊎◌, ◌↔◌, refl, arith, inl, true, Option, none, some, [], ◌∷◌, ◌++◌, ◌==◌,
  if◌then◌else◌,
}
use payment_gateway_sandbox.Prelude.Int.{ℤ, pos, ◌+ℤ◌}
use payment_gateway_sandbox.Prelude.Bytes.{Bytes, all_bytes, all_bytes}
use payment_gateway_sandbox.Prelude.Text.{characters}
use payment_gateway_sandbox.Prelude.Result.{ok, err}
use payment_gateway_sandbox.Crypto.Signing.{
  Libraries, mismatch, build_header, verify, signed_text, handoff_text, sign_handoff,
  verify_handoff, parse_header,
}
use payment_gateway_sandbox.Crypto.Signing.Header.{is_hex_digit}
use payment_gateway_sandbox.Crypto.Signing.Window.{InWindow, far_past}
use payment_gateway_sandbox.Crypto.Signing.Verify.{
  IsHexCoding, verify_accepts, verify-build_header, tampered_payload_mismatches,
}
use payment_gateway_sandbox.Crypto.Signing.Handoff.{handoff_accepted_iff}

-- A coding of numbers with the digits a and 0: a number of letters a in front of each 0.
abbrev tally : ℕ → Bytes → Bytes
tally zero rest = b'0' ∷ rest
tally (suc n) rest = b'a' ∷ tally n rest

unfoldable pub tallies : Bytes → Bytes
tallies [] = []
tallies (n ∷ ns) = tally n (tallies ns)

abbrev one_more : Option Bytes → Option Bytes
one_more none = none
one_more (some []) = none
one_more (some (n ∷ ns)) = some (suc n ∷ ns)

abbrev onto_zero : Option Bytes → Option Bytes
onto_zero none = none
onto_zero (some ns) = some (0 ∷ ns)

unfoldable pub untally : Bytes → Option Bytes
untally [] = some []
untally (c ∷ cs) =
    let rest = untally cs in
    if c == b'a' then one_more rest else if c == b'0' then onto_zero rest else none

untally-tally :
    (n : ℕ) (s : Bytes) (ns : Bytes) → untally s ≡ some ns → untally (tally n s) ≡ some (n ∷ ns)
unfolding untally
untally-tally zero s ns h = rw h refl
untally-tally (suc n) s ns h = rw (untally-tally n s ns h) refl

untally-tallies : (ns : Bytes) → untally (tallies ns) ≡ some ns
unfolding tallies untally
untally-tallies [] = refl
untally-tallies (n ∷ ns) = untally-tally n (tallies ns) ns (untally-tallies ns)

tally-hex :
    (n : ℕ) (s : Bytes)
    → all_bytes is_hex_digit s ≡ true
    → all_bytes is_hex_digit (tally n s) ≡ true
unfolding all_bytes
tally-hex zero s h = rw h refl
tally-hex (suc n) s h = rw (tally-hex n s h) refl

tallies-hex : (ns : Bytes) → all_bytes is_hex_digit (tallies ns) ≡ true
unfolding tallies all_bytes
tallies-hex [] = refl
tallies-hex (n ∷ ns) = tally-hex n (tallies ns) (tallies-hex ns)

-- A MAC that shows its text behind the key.
abbrev pub open_libraries : Libraries
open_libraries = record {
  hmac_sha256 = λ key text. key ++ text;
  hex_encode = tallies;
  hex_decode = untally;
}

pub open_libraries-IsHexCoding : IsHexCoding open_libraries
open_libraries-IsHexCoding = record { decodes = untally-tallies; writes = tallies-hex }

abbrev pub webhook_secret : Bytes
webhook_secret = characters "whsec"

abbrev body : Bytes
body = characters "{}"

append_injective : (s a b : Bytes) → s ++ a ≡ s ++ b → a ≡ b
append_injective [] a b h = h
append_injective (x ∷ xs) a b h = append_injective xs a b (ground (arith, h))

signed_at_1000 :
    verify open_libraries webhook_secret
      (build_header open_libraries webhook_secret (pos 1000) body)
      body
      (pos 1100)
      (pos 300)
    ≡ ok tt
unfolding ◌+ℤ◌
signed_at_1000 =
    (verify-build_header open_libraries webhook_secret body (pos 1000) (pos 1100) (pos 300)
        open_libraries-IsHexCoding (omega arith) (refl, omega arith) (refl, omega arith)).1
      (inl (omega arith, omega arith))

verify-build_header_example :
    (verify open_libraries webhook_secret
        (build_header open_libraries webhook_secret (pos 1000) body)
        body
        (pos 1100)
        (pos 300)
      ≡ ok tt)
    ↔ (InWindow (pos 1100) (pos 1000) (pos 300) ⊎ (pos 1000 ≡ far_past (pos 1100)))
verify-build_header_example =
    verify-build_header open_libraries webhook_secret body (pos 1000) (pos 1100) (pos 300)
      open_libraries-IsHexCoding (omega arith) (refl, omega arith) (refl, omega arith)

verify_accepts_example :
    let header = build_header open_libraries webhook_secret (pos 1000) body in
    (t : ℤ) × (s : Bytes) × (parse_header header ≡ ok (t, s))
    × (untally s ≡ some (webhook_secret ++ signed_text t body))
    × (InWindow (pos 1100) t (pos 300) ⊎ (t ≡ far_past (pos 1100)))
verify_accepts_example =
    verify_accepts open_libraries webhook_secret
      (build_header open_libraries webhook_secret (pos 1000) body) body (pos 1100) (pos 300)
      (refl, omega arith) (refl, omega arith) signed_at_1000

tampered_example :
    verify open_libraries webhook_secret
      (build_header open_libraries webhook_secret (pos 1000) body)
      (characters "[]")
      (pos 1100)
      (pos 300)
    ≡ err mismatch
unfolding ◌+ℤ◌
tampered_example =
    tampered_payload_mismatches open_libraries webhook_secret body (characters "[]") (pos 1000)
      (pos 1100) (pos 300) open_libraries-IsHexCoding (omega arith) (refl, omega arith)
      (refl, omega arith) (omega arith, omega arith)
      (append_injective webhook_secret (signed_text (pos 1000) (characters "[]"))
        (signed_text (pos 1000) body))
      (λ h. ground (arith, h))

handoff_example :
    (verify_handoff open_libraries webhook_secret
        (characters "o1")
        (characters "p2")
        (sign_handoff open_libraries webhook_secret (characters "o1") (characters "p1"))
      ≡ ok tt)
    ↔ ((characters "o1" ≡ characters "o1") × (characters "p2" ≡ characters "p1"))
unfolding all_bytes
handoff_example =
    handoff_accepted_iff open_libraries webhook_secret (characters "o1") (characters "p1")
      (characters "o1") (characters "p2") open_libraries-IsHexCoding refl refl
      (append_injective webhook_secret (handoff_text (characters "o1") (characters "p2"))
        (handoff_text (characters "o1") (characters "p1")))
