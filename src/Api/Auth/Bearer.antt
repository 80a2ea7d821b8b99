-- ===== src/Api/Auth/Bearer.antt =====
-- Which tokens pass the checks before the lookup.
use payment_gateway_sandbox.Prelude.{◌≡◌, ◌↔◌, refl, arith, Bool, true, false, [], ◌∷◌, ◌++◌, ltb}
use payment_gateway_sandbox.Prelude.Lists.{length}
use payment_gateway_sandbox.Prelude.Bytes.{Bytes, eq_bytes, all_bytes, starts_with, split_once}
use payment_gateway_sandbox.Prelude.Result.{ok}
use payment_gateway_sandbox.Domain.Card.{drop}
use payment_gateway_sandbox.Api.Auth.{
  secret_prefix, is_well_formed, is_hex, is_test_key, validate_shape, trim_start, trim_end, trim,
  to_lower, bearer_token, extract_bearer, shaped_token,
}

-- What a text starts with it is made of, and the rest.
starts_with-append : (p s : Bytes) → starts_with (p ++ s) p ≡ true
unfolding starts_with
starts_with-append [] s = refl
starts_with-append (x ∷ xs) s = ground (arith, starts_with-append xs s)

starts_with-split : (s p : Bytes) → starts_with s p ≡ true → s ≡ p ++ drop (length p) s
unfolding starts_with
starts_with-split s [] h = refl
starts_with-split [] (y ∷ ys) h = cc
starts_with-split (x ∷ xs) (y ∷ ys) h = ground (arith, starts_with-split xs ys)

validate_shape-ok :
    (token : Bytes)
    → validate_shape token ≡ ok tt
    → (starts_with token secret_prefix ≡ true) × (is_well_formed (drop 8 token) ≡ true)
unfolding validate_shape is_test_key
validate_shape-ok token h = ground arith

validate_shape-secret :
    (body : Bytes) → is_well_formed body ≡ true → validate_shape (secret_prefix ++ body) ≡ ok tt
unfolding validate_shape is_test_key starts_with
validate_shape-secret body w = rw w refl

-- A token passes exactly when it is the secret prefix with 32 to 128 hexadecimal digits after it.
pub validate_shape_iff :
    (token : Bytes)
    → (validate_shape token ≡ ok tt)
      ↔ ((body : Bytes) × (token ≡ secret_prefix ++ body) × (is_well_formed body ≡ true))
validate_shape_iff token = (
  λ h.
      let (p, w) = validate_shape-ok token h in
      (drop 8 token, starts_with-split token secret_prefix p, w),
  λ (body, e, w). rw e (validate_shape-secret body w),
)

-- The blanks that a text does not have at its end.
trim_end-hex : (s : Bytes) → all_bytes is_hex s ≡ true → trim_end s ≡ s
unfolding trim_end all_bytes
trim_end-hex [] h = refl
trim_end-hex (x ∷ []) h = ground arith
trim_end-hex (x ∷ y ∷ ys) h =
    let rest : trim_end (y ∷ ys) ≡ y ∷ ys = trim_end-hex (y ∷ ys) (ground arith) in rw rest refl

abbrev pub bearer_header : Bytes → Bytes
bearer_header token = b'B' ∷ b'e' ∷ b'a' ∷ b'r' ∷ b'e' ∷ b'r' ∷ 32 ∷ token

-- One header with the scheme and a token of the right shape, of readable text, gives that token.
pub shaped_token-bearer_header :
    (is_text : Bytes → Bool) (body : Bytes)
    → is_well_formed body ≡ true
    → is_text (bearer_header (secret_prefix ++ body)) ≡ true
    → shaped_token is_text (bearer_header (secret_prefix ++ body) ∷ []) ≡ ok (secret_prefix ++ body)
unfolding shaped_token extract_bearer bearer_token trim trim_start trim_end to_lower split_once
    eq_bytes
shaped_token-bearer_header is_text [] w t = ground arith
shaped_token-bearer_header is_text (x ∷ xs) w t =
    let short : ltb 512 (length (bearer_header (secret_prefix ++ x ∷ xs))) ≡ false = ground arith in
    let kept : trim_end (x ∷ xs) ≡ x ∷ xs = trim_end-hex (x ∷ xs) (ground arith) in
    rw (short, t, kept) (rw kept (rw (validate_shape-secret (x ∷ xs) w) refl))
