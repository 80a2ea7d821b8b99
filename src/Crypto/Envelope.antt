-- ===== src/Crypto/Envelope.antt =====
-- Envelope encryption (crates/crypto/src/encryption.rs). AES-256-GCM and the hexadecimal coding are
-- libraries, and what the operating system draws at random is an argument.
pub mod Rotation
use payment_gateway_sandbox.Prelude.{
  ℕ, Bool, not, Option, none, some, List, [], ◌∷◌, ◌++◌, ltb, ◌==◌, if◌then◌else◌,
}
use payment_gateway_sandbox.Prelude.Lists.{length}
use payment_gateway_sandbox.Prelude.Bytes.{Bytes}
use payment_gateway_sandbox.Prelude.Result.{Result, ok, err, ◌>>=◌, ◌>>◌, ok_or, bail_if}
use payment_gateway_sandbox.Domain.Card.{drop}
use payment_gateway_sandbox.Store.Listing.{take}

-- The cipher: a key, a nonce and a text, and what comes out, if anything.
pub record Cipher : Type 0 where
  pub aes_encrypt : Bytes → Bytes → Bytes → Option Bytes
  pub aes_decrypt : Bytes → Bytes → Bytes → Option Bytes
  pub hex_encode : Bytes → Bytes
  pub hex_decode : Bytes → Option Bytes

pub data EncryptionError : Type 0 where
  invalid_key_length : ℕ → EncryptionError
  invalid_key_encoding encrypt_failed decrypt_failed malformed_ciphertext : EncryptionError

abbrev pub nonce_len : ℕ
nonce_len = 12

pub record Envelope : Type 0 where
  pub ciphertext : Bytes
  pub wrapped_dek : Bytes

-- What is drawn for one envelope.
pub record Drawn : Type 0 where
  pub dek : Bytes
  pub data_nonce : Bytes
  pub key_nonce : Bytes

module _ (c : Cipher) where
  unfoldable pub parse_key : Bytes → Result Bytes EncryptionError
  parse_key hex_key = do
    bytes ← ok_or (c.hex_decode hex_key) invalid_key_encoding
    bail_if (not (length bytes == 32)) (invalid_key_length (length bytes))
    ok bytes

  unfoldable pub seal : Bytes → Bytes → Bytes → Result Bytes EncryptionError
  seal nonce key plaintext = do
    ciphertext ← ok_or (c.aes_encrypt key nonce plaintext) encrypt_failed
    ok (nonce ++ ciphertext)

  -- `open`
  unfoldable pub unseal : Bytes → Bytes → Result Bytes EncryptionError
  unfolding take
  unseal key sealed = do
    bail_if (ltb (length sealed) nonce_len) malformed_ciphertext
    ok_or (c.aes_decrypt key (take nonce_len sealed) (drop nonce_len sealed)) decrypt_failed

  unfoldable pub encrypt : Drawn → Bytes → Bytes → Result Envelope EncryptionError
  unfolding parse_key seal
  encrypt drawn kek_hex plaintext = do
    kek ← parse_key kek_hex
    ciphertext ← seal drawn.data_nonce drawn.dek plaintext
    wrapped_dek ← seal drawn.key_nonce kek drawn.dek
    ok (record { ciphertext = ciphertext; wrapped_dek = wrapped_dek })

  -- `decrypt` from the unwrapped key on.
  unfoldable pub open_with : Bytes → Bytes → Result Bytes EncryptionError
  unfolding unseal
  open_with ciphertext dek = do
    bail_if (not (length dek == 32)) malformed_ciphertext
    unseal dek ciphertext

  unfoldable pub decrypt : Bytes → Envelope → Result Bytes EncryptionError
  unfolding parse_key unseal open_with
  decrypt kek_hex envelope = do
    kek ← parse_key kek_hex
    dek ← unseal kek envelope.wrapped_dek
    open_with envelope.ciphertext dek

  unfoldable pub rewrap : Bytes → Bytes → Bytes → Envelope → Result Envelope EncryptionError
  unfolding parse_key unseal seal
  rewrap key_nonce old_kek_hex new_kek_hex envelope = do
    old_kek ← parse_key old_kek_hex
    new_kek ← parse_key new_kek_hex
    dek ← unseal old_kek envelope.wrapped_dek
    wrapped_dek ← seal key_nonce new_kek dek
    ok (record { ciphertext = envelope.ciphertext; wrapped_dek = wrapped_dek })

  unfoldable pub generate_kek : Bytes → Bytes
  generate_kek random = c.hex_encode random
