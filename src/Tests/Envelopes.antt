-- ===== src/Tests/Envelopes.antt =====
-- The theorems on encrypted records, seeded keys and rows of payments at concrete values.
use payment_gateway_sandbox.Prelude.{ℕ, zero, suc, ◌*◌, ◌/◌, ◌≡◌, refl, arith, some, [], ◌∷◌, ◌++◌}
use mathlib.Core.Path.{subst}
use payment_gateway_sandbox.Prelude.Int.{pos}
use payment_gateway_sandbox.Prelude.Bytes.{Bytes}
use payment_gateway_sandbox.Prelude.Text.{characters}
use payment_gateway_sandbox.Prelude.Result.{ok, err}
use payment_gateway_sandbox.Domain.Id.{strip_prefix, strip_prefix-append}
use payment_gateway_sandbox.Domain.Money.{money, inr, code}
use payment_gateway_sandbox.Domain.Card.{CardDetails, visa}
use payment_gateway_sandbox.Domain.Payment.{Payment, new_card_attempt}
use payment_gateway_sandbox.Domain.PaymentStatus.{captured}
use payment_gateway_sandbox.Store.Error.{decode}
use payment_gateway_sandbox.Store.Payments.Row.{
  NotesJson, Notes, stored_and_read, row_of_payment, into_payment, money_from_columns,
  money_to_columns, as_i16, to_unsigned,
}
use payment_gateway_sandbox.Store.Payments.Row.RoundTrip.{payment_reads_back}
use payment_gateway_sandbox.Crypto.Envelope.{Cipher, Envelope, Drawn, encrypt, decrypt, rewrap}
use payment_gateway_sandbox.Crypto.Envelope.Rotation.{Deciphers, decrypt-encrypt, decrypt-rewrap}

-- A cipher that writes the key and the nonce in front of the text.
abbrev open_cipher : Cipher
open_cipher = record {
  aes_encrypt = λ key nonce text. some ((key ++ nonce) ++ text);
  aes_decrypt = λ key nonce text. strip_prefix (key ++ nonce) text;
  hex_encode = λ bytes. bytes;
  hex_decode = λ text. some text;
}

open_cipher-Deciphers : Deciphers open_cipher
open_cipher-Deciphers key nonce text out h =
    let same : (key ++ nonce) ++ text ≡ out = ground (arith, h) in
    subst (λ (x : Bytes). strip_prefix (key ++ nonce) x ≡ some text) same
      (strip_prefix-append (key ++ nonce) text)

abbrev copies : ℕ → ℕ → Bytes
copies zero x = []
copies (suc n) x = x ∷ copies n x

abbrev old_kek : Bytes
old_kek = copies 32 b'a'

abbrev new_kek : Bytes
new_kek = copies 32 b'b'

abbrev drawn : Drawn
drawn = record { dek = copies 32 7; data_nonce = copies 12 1; key_nonce = copies 12 2 }

abbrev secret_text : Bytes
secret_text = characters "4242"

abbrev stored_envelope : Envelope
stored_envelope = record {
  ciphertext = drawn.data_nonce ++ ((drawn.dek ++ drawn.data_nonce) ++ secret_text);
  wrapped_dek = drawn.key_nonce ++ ((old_kek ++ drawn.key_nonce) ++ drawn.dek);
}

abbrev rotated_envelope : Envelope
rotated_envelope = record stored_envelope {
  wrapped_dek = copies 12 3 ++ ((new_kek ++ copies 12 3) ++ drawn.dek);
}

encrypts : encrypt open_cipher drawn old_kek secret_text ≡ ok stored_envelope
unfolding encrypt
encrypts = refl

decrypt-encrypt_example : decrypt open_cipher old_kek stored_envelope ≡ ok secret_text
decrypt-encrypt_example =
    decrypt-encrypt open_cipher drawn old_kek secret_text stored_envelope open_cipher-Deciphers
      (refl, refl, refl) encrypts

rewraps : rewrap open_cipher (copies 12 3) old_kek new_kek stored_envelope ≡ ok rotated_envelope
unfolding rewrap strip_prefix
rewraps = refl

decrypt-rewrap_example :
    (decrypt open_cipher new_kek rotated_envelope ≡ decrypt open_cipher old_kek stored_envelope)
    × (rotated_envelope.ciphertext ≡ stored_envelope.ciphertext)
decrypt-rewrap_example =
    decrypt-rewrap open_cipher (copies 12 3) old_kek new_kek stored_envelope rotated_envelope
      open_cipher-Deciphers refl rewraps

-- Notes kept as they are.
abbrev plain_notes : NotesJson Notes
plain_notes = record { to_value = λ n. some n; from_value = λ n. some n }

abbrev late_card : CardDetails
late_card = record {
  last4 = characters "4242";
  brand = visa;
  exp_month = 12;
  exp_year = 40000;
  fingerprint = "fp";
}

abbrev late_payment : Payment
late_payment = new_card_attempt 1 2 9 (money (pos 10000) inr) late_card [] 0

-- A time in nanoseconds, of which microseconds are kept.
abbrev micros : ℕ → ℕ
micros t = t / 1000 * 1000

abbrev card : CardDetails
card = record late_card { exp_year = 2030 }

abbrev paid_payment : Payment
paid_payment = record (new_card_attempt 1 2 9 (money (pos 10000) inr) card [] 1234567) {
  status = captured;
  captured_at = some 2345678;
}

reads_back_example :
    stored_and_read plain_notes micros paid_payment
    ≡ ok (record paid_payment { created_at = 1234000; captured_at = some 2345000 })
reads_back_example =
    payment_reads_back plain_notes micros paid_payment [] refl refl (omega arith, omega arith)

-- A card of the year 40000 cannot be read.
late_card_unreadable :
    stored_and_read plain_notes micros late_payment ≡ err (decode "payment.card_exp_year")
unfolding row_of_payment into_payment money_from_columns money_to_columns as_i16 to_unsigned code
late_card_unreadable = refl
