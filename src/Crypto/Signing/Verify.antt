-- ===== src/Crypto/Signing/Verify.antt =====
-- What `verify` accepts: the MAC of the body at the header's own timestamp, and a timestamp in the window.
use payment_gateway_sandbox.Prelude.{
  ◌≡◌, ◌≢◌, ◌↔◌, ◌⊎◌, refl, ◌∙◌, sym, arith, true, false, Bool-cases, Option-cases, not, none, some,
  ◌==◌, inl, inr,
}
use payment_gateway_sandbox.Prelude.Int.{ℤ, ◌-ℤ◌, IsI64, wrap_i64}
use payment_gateway_sandbox.Prelude.Bytes.{
  Bytes, eq_bytes, eq_bytes_refl, eq_bytes_sound, all_bytes, split_unique,
}
use payment_gateway_sandbox.Prelude.Text.{split, all_bytes-imp}
use payment_gateway_sandbox.Prelude.Text.Decimal.{
  print_i64, parse_i64-print_i64, print_i64-numeral, is_numeral,
}
use payment_gateway_sandbox.Prelude.Result.{Result, ok, err, ◌>>=◌, ◌>>◌, ok_or, bail_if, >>=-eq-ok}
use payment_gateway_sandbox.Crypto.Signing.{
  Libraries, SignatureError, malformed_header, mismatch, timestamp_out_of_range, signed_text,
  abs_i64, parse_header, build_header, compute, verify, verify_slice,
}
use payment_gateway_sandbox.Crypto.Signing.Header.{is_hex_digit, parse_header-build_header}
use payment_gateway_sandbox.Crypto.Signing.Window.{
  InWindow, IsModest, far_past, late, late-window, window-late, parse_parts-IsI64,
}

-- The hexadecimal library: what it writes it reads back, and it writes digits and the letters a to f.
pub record IsHexCoding (lib : Libraries) : Type 0 where
  pub decodes : (b : Bytes) → lib.hex_decode (lib.hex_encode b) ≡ some b
  pub writes : (b : Bytes) → all_bytes is_hex_digit (lib.hex_encode b) ≡ true

-- `verify` from the parts of the header on.
abbrev after_parse :
    Libraries → Bytes → Bytes → ℤ → ℤ → ℤ × Bytes → Result (Unit {0}) SignatureError
after_parse lib secret payload now tolerance parsed =
    bail_if (late now parsed.0 tolerance)
      (timestamp_out_of_range (abs_i64 (wrap_i64 (now -ℤ parsed.0))) tolerance)
    >> (ok_or (lib.hex_decode parsed.1) malformed_header >>= λ provided.
        verify_slice lib (lib.hmac_sha256 secret (signed_text parsed.0 payload)) provided)

accepted_parts :
    (lib : Libraries) (secret payload : Bytes) (now tolerance t : ℤ) (s : Bytes)
    → after_parse lib secret payload now tolerance (t, s) ≡ ok tt
    → (lib.hex_decode s ≡ some (lib.hmac_sha256 secret (signed_text t payload)))
      × (late now t tolerance ≡ false)
accepted_parts lib secret payload now tolerance t s h = elim (Option-cases (lib.hex_decode s)) [
  | inl e ↦ ground arith
  | inr (b, e) ↦ ground (arith, eq_bytes_sound (lib.hmac_sha256 secret (signed_text t payload)) b)
]

parse_header-IsI64 :
    (header : Bytes) (t : ℤ) (s : Bytes) → parse_header header ≡ ok (t, s) → IsI64 t
unfolding parse_header
parse_header-IsI64 header t s h = parse_parts-IsI64 none none (split b',' header) t s tt h

-- `verify` lets through only a header whose signature is the MAC of this very body at the header's own
-- timestamp, and whose timestamp is within the tolerance of the clock, in either direction, or is the one
-- timestamp that lies 2 ^ 63 seconds back. Clock and tolerance are below 2 ^ 62.
pub verify_accepts :
    (lib : Libraries) (secret header payload : Bytes) (now tolerance : ℤ)
    → IsModest now
    → IsModest tolerance
    → verify lib secret header payload now tolerance ≡ ok tt
    → (t : ℤ) × (s : Bytes) × (parse_header header ≡ ok (t, s))
      × (lib.hex_decode s ≡ some (lib.hmac_sha256 secret (signed_text t payload)))
      × (InWindow now t tolerance ⊎ (t ≡ far_past now))
unfolding verify
verify_accepts lib secret header payload now tolerance n m h =
    let (parsed, p, rest) =
      >>=-eq-ok (parse_header header) (after_parse lib secret payload now tolerance) h in
    let (mac, fine) = accepted_parts lib secret payload now tolerance parsed.0 parsed.1 rest in
    let fits = parse_header-IsI64 header parsed.0 parsed.1 p in
    (parsed.0, parsed.1, p, mac, late-window now parsed.0 tolerance n m fits fine)

-- A header that was built for a payload at a 64-bit timestamp is accepted with the same secret and
-- payload exactly when the timestamp is within the tolerance of the clock, or 2 ^ 63 seconds back.
pub verify-build_header :
    (lib : Libraries) (secret payload : Bytes) (t now tolerance : ℤ)
    → IsHexCoding lib
    → IsI64 t
    → IsModest now
    → IsModest tolerance
    → (verify lib secret (build_header lib secret t payload) payload now tolerance ≡ ok tt)
      ↔ (InWindow now t tolerance ⊎ (t ≡ far_past now))
unfolding verify compute
verify-build_header lib secret payload t now tolerance hex i n m =
    let mac = lib.hmac_sha256 secret (signed_text t payload) in
    let read : parse_header (build_header lib secret t payload) ≡ ok (t, lib.hex_encode mac) =
      parse_header-build_header lib secret t payload i (hex.writes mac) in
    (
      λ h.
          late-window now t tolerance n m i
            (accepted_parts lib secret payload now tolerance t (lib.hex_encode mac)
              (rw read at h)).1,
      λ w. rw read (
          rw (window-late now t tolerance n m w)
            (rw (hex.decodes mac) (rw (eq_bytes_refl mac) refl))),
    )

-- The text that is signed determines the timestamp and the payload.
pub signed_text_injective :
    (t t' : ℤ) (p p' : Bytes)
    → IsI64 t
    → IsI64 t'
    → signed_text t p ≡ signed_text t' p'
    → (t ≡ t') × (p ≡ p')
unfolding signed_text
signed_text_injective t t' p p' i i' e =
    let lacks_dot = λ (a : ℤ).
      all_bytes-imp is_numeral (λ x. not (x == b'.')) (print_i64 a) (λ c h. ground arith)
        (print_i64-numeral a) in
    let s = split_unique b'.' (print_i64 t) (print_i64 t') p p' (lacks_dot t) (lacks_dot t') e in
    let back : some t ≡ some t' =
      sym (parse_i64-print_i64 t i) ∙ rw (s.0) (parse_i64-print_i64 t' i') in
    ((cc), s.1)

-- In the window, the header of one payload is refused with another payload, as a mismatch, where HMAC tells
-- the two signed texts apart.
pub tampered_payload_mismatches :
    (lib : Libraries) (secret payload payload' : Bytes) (t now tolerance : ℤ)
    → IsHexCoding lib
    → IsI64 t
    → IsModest now
    → IsModest tolerance
    → InWindow now t tolerance
    → (lib.hmac_sha256 secret (signed_text t payload')
          ≡ lib.hmac_sha256 secret (signed_text t payload)
        → signed_text t payload' ≡ signed_text t payload)
    → payload' ≢ payload
    → verify lib secret (build_header lib secret t payload) payload' now tolerance ≡ err mismatch
unfolding verify compute
tampered_payload_mismatches lib secret payload payload' t now tolerance hex i n m w mac_injective
      differ =
    let mac = lib.hmac_sha256 secret (signed_text t payload) in
    let mac' = lib.hmac_sha256 secret (signed_text t payload') in
    let read : parse_header (build_header lib secret t payload) ≡ ok (t, lib.hex_encode mac) =
      parse_header-build_header lib secret t payload i (hex.writes mac) in
    rw read (
      rw (window-late now t tolerance n m (inl w)) (
        rw (hex.decodes mac) (elim (Bool-cases (eq_bytes mac' mac)) [
          | inl e ↦ absurd (
              differ
                (signed_text_injective t t payload' payload i i
                  (mac_injective (eq_bytes_sound mac' mac e))).1)
          | inr e ↦ rw e refl
        ])))
