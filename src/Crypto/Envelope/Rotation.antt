-- ===== src/Crypto/Envelope/Rotation.antt =====
-- What is encrypted is read back, also after its key was rotated.
use payment_gateway_sandbox.Prelude.{
  ℕ, zero, suc, ◌≡◌, refl, ap, sym, ◌∙◌, arith, false, Option-cases, inl, inr, some, [], ◌∷◌, ◌++◌,
  ltb,
}
use payment_gateway_sandbox.Prelude.Lists.{length, length-append}
use payment_gateway_sandbox.Prelude.Bytes.{Bytes}
use payment_gateway_sandbox.Prelude.Result.{ok, >>=-eq-ok}
use payment_gateway_sandbox.Domain.Card.{drop}
use payment_gateway_sandbox.Store.Listing.{take}
use payment_gateway_sandbox.Crypto.Envelope.{
  Cipher, Envelope, Drawn, parse_key, seal, unseal, open_with, encrypt, decrypt, rewrap,
}

-- The cipher decrypts what it encrypted, under the same key and nonce.
abbrev pub Deciphers : Cipher → Type 0
Deciphers c =
    (key nonce text : Bytes) (out : Bytes)
    → c.aes_encrypt key nonce text ≡ some out
    → c.aes_decrypt key nonce out ≡ some text

take-prefix : (k : ℕ) (xs ys : Bytes) → length xs ≡ k → take k (xs ++ ys) ≡ xs
unfolding take
take-prefix zero [] ys h = refl
take-prefix (suc k) [] ys h = absurd (omega arith)
take-prefix zero (x ∷ xs) ys h = absurd (omega arith)
take-prefix (suc k) (x ∷ xs) ys h = ground (arith, take-prefix k xs ys)

drop-prefix : (k : ℕ) (xs ys : Bytes) → length xs ≡ k → drop k (xs ++ ys) ≡ ys
drop-prefix zero [] ys h = refl
drop-prefix (suc k) [] ys h = absurd (omega arith)
drop-prefix zero (x ∷ xs) ys h = absurd (omega arith)
drop-prefix (suc k) (x ∷ xs) ys h = drop-prefix k xs ys (omega arith)

seal-ok :
    (c : Cipher) (key nonce text sealed : Bytes)
    → seal c nonce key text ≡ ok sealed
    → (out : Bytes) × (c.aes_encrypt key nonce text ≡ some out) × (sealed ≡ nonce ++ out)
unfolding seal
seal-ok c key nonce text sealed h = elim (Option-cases (c.aes_encrypt key nonce text)) [
  | inl e ↦ ground arith
  | inr (out, e) ↦ (out, e, ground arith)
]

-- What was sealed is opened with the same key.
unseal-seal :
    (c : Cipher) (key nonce text sealed : Bytes)
    → Deciphers c
    → length nonce ≡ 12
    → seal c nonce key text ≡ ok sealed
    → unseal c key sealed ≡ ok text
unfolding unseal
unseal-seal c key nonce text sealed deciphers n h =
    let (out, e, s) = seal-ok c key nonce text sealed h in
    let long : ltb (length (nonce ++ out)) 12 ≡ false = ground (arith, length-append nonce out) in
    rw s (
      rw long (
        rw (take-prefix 12 nonce out n, drop-prefix 12 nonce out n)
          (rw (deciphers key nonce text out e) refl)))

decrypt-unwrapped :
    (c : Cipher) (kek key dek : Bytes) (envelope : Envelope)
    → parse_key c kek ≡ ok key
    → unseal c key envelope.wrapped_dek ≡ ok dek
    → decrypt c kek envelope ≡ open_with c envelope.ciphertext dek
unfolding decrypt
decrypt-unwrapped c kek key dek envelope k u = rw k (rw u refl)

-- `encrypt` gives an envelope from which `decrypt` reads the text back with the same key, where the random
-- key has 32 bytes and both nonces have 12.
pub decrypt-encrypt :
    (c : Cipher) (drawn : Drawn) (kek text : Bytes) (envelope : Envelope)
    → Deciphers c
    → (length drawn.dek ≡ 32) × (length drawn.data_nonce ≡ 12) × (length drawn.key_nonce ≡ 12)
    → encrypt c drawn kek text ≡ ok envelope
    → decrypt c kek envelope ≡ ok text
unfolding encrypt open_with
decrypt-encrypt c drawn kek text envelope deciphers sizes h =
    let (key, k, h1) = >>=-eq-ok (parse_key c kek) _ h in
    let (ciphertext, s, h2) = >>=-eq-ok (seal c drawn.data_nonce drawn.dek text) _ h1 in
    let (wrapped, w, h3) = >>=-eq-ok (seal c drawn.key_nonce key drawn.dek) _ h2 in
    let parts : (envelope.ciphertext ≡ ciphertext) × (envelope.wrapped_dek ≡ wrapped) =
      ground arith in
    let dek = unseal-seal c key drawn.key_nonce drawn.dek wrapped deciphers sizes.2 w in
    let opened : unseal c key envelope.wrapped_dek ≡ ok drawn.dek =
      ap (unseal c key) parts.1 ∙ dek in
    decrypt-unwrapped c kek key drawn.dek envelope k opened
    ∙ ap (λ (t : Bytes). open_with c t drawn.dek) parts.0
    ∙ rw sizes.0 (unseal-seal c drawn.dek drawn.data_nonce text ciphertext deciphers sizes.1 s)

-- After the key of any envelope was rotated, the new key reads what the old one read, or fails as it did, and
-- the ciphertext is the same.
pub decrypt-rewrap :
    (c : Cipher) (nonce old new : Bytes) (envelope rotated : Envelope)
    → Deciphers c
    → length nonce ≡ 12
    → rewrap c nonce old new envelope ≡ ok rotated
    → (decrypt c new rotated ≡ decrypt c old envelope) × (rotated.ciphertext ≡ envelope.ciphertext)
unfolding rewrap
decrypt-rewrap c nonce old new envelope rotated deciphers n h =
    let (old_key, k, h1) = >>=-eq-ok (parse_key c old) _ h in
    let (new_key, k', h2) = >>=-eq-ok (parse_key c new) _ h1 in
    let (dek, u, h3) = >>=-eq-ok (unseal c old_key envelope.wrapped_dek) _ h2 in
    let (wrapped, w, h4) = >>=-eq-ok (seal c nonce new_key dek) _ h3 in
    let parts : (rotated.ciphertext ≡ envelope.ciphertext) × (rotated.wrapped_dek ≡ wrapped) =
      ground arith in
    let dek' = unseal-seal c new_key nonce dek wrapped deciphers n w in
    let opened : unseal c new_key rotated.wrapped_dek ≡ ok dek =
      ap (unseal c new_key) parts.1 ∙ dek' in
    (
      decrypt-unwrapped c new new_key dek rotated k' opened
          ∙ ap (λ (t : Bytes). open_with c t dek) parts.0
          ∙ sym (decrypt-unwrapped c old old_key dek envelope k u),
      parts.0,
    )
