-- ===== src/Crypto/ApiKey.antt =====
-- Keys of the API (crates/crypto/src/api_key.rs) and the digest behind them (digest.rs). SHA-256, the
-- hexadecimal coding and Argon2 are libraries, and what is drawn at random is an argument.
use payment_gateway_sandbox.Prelude.{
  ℕ, String, Bool, Option, none, some, [], ◌∷◌, ◌++◌, ◌==◌, if◌then◌else◌,
}
use payment_gateway_sandbox.Prelude.Bytes.{Bytes}
use payment_gateway_sandbox.Prelude.Result.{Result, ok, err, ◌>>=◌}

pub data KeyError : Type 0 where
  hashing malformed_hash : String → KeyError

pub record GeneratedKey : Type 0 where
  pub plaintext : Bytes
  pub hash : Bytes

pub record Hashing : Type 0 where
  pub sha256 : Bytes → Bytes
  pub hex_encode : Bytes → Bytes

-- The Argon2 library: a hash of a text with a salt, the reading of a stored hash, and its comparison.
pub record Argon2 (PasswordHash : Type 0) : Type 0 where
  pub hash_password : Bytes → Bytes → Result Bytes String
  pub read_hash : Bytes → Result PasswordHash String
  pub verify_password : Bytes → PasswordHash → Bool

module _ (lib : Hashing) where
  -- `digest::sha256_hex`
  unfoldable pub sha256_hex : Bytes → Bytes
  sha256_hex bytes = lib.hex_encode (lib.sha256 bytes)

  unfoldable pub lookup_hash : Bytes → Bytes
  unfolding sha256_hex
  lookup_hash plaintext = sha256_hex plaintext

  unfoldable pub generate : Bytes → Bytes → GeneratedKey
  unfolding lookup_hash
  generate key_prefix random =
      let plaintext = key_prefix ++ b'_' ∷ lib.hex_encode random in
      record { plaintext = plaintext; hash = lookup_hash plaintext }

module _ {PasswordHash : Type 0} (argon : Argon2 PasswordHash) where
  abbrev as_hashing : Result Bytes String → Result Bytes KeyError
  as_hashing (ok h) = ok h
  as_hashing (err e) = err (hashing e)

  unfoldable pub hash : Bytes → Bytes → Result Bytes KeyError
  hash salt plaintext = as_hashing (argon.hash_password salt plaintext)

  abbrev as_malformed : Result PasswordHash String → Result PasswordHash KeyError
  as_malformed (ok h) = ok h
  as_malformed (err e) = err (malformed_hash e)

  -- `verify`
  unfoldable pub verify_key : Bytes → Bytes → Result Bool KeyError
  verify_key plaintext stored_hash = do
    parsed ← as_malformed (argon.read_hash stored_hash)
    ok (argon.verify_password plaintext parsed)

-- The parts around the last underscore: `rfind`, `split_at` and the slice behind it.
abbrev split_here : Option (Bytes × Bytes) → ℕ → Bytes → Option (Bytes × Bytes)
split_here none c cs = if c == b'_' then some ([], cs) else none
split_here (some (a, b)) c cs = some (c ∷ a, b)

unfoldable pub rsplit : Bytes → Option (Bytes × Bytes)
rsplit [] = none
rsplit (c ∷ cs) = split_here (rsplit cs) c cs

abbrev both_full : Bytes × Bytes → Option (Bytes × Bytes)
both_full ([], b) = none
both_full (a ∷ more, []) = none
both_full (a ∷ more, b ∷ bs) = some (a ∷ more, b ∷ bs)

abbrev full_parts : Option (Bytes × Bytes) → Option (Bytes × Bytes)
full_parts none = none
full_parts (some parts) = both_full parts

unfoldable pub split_prefix : Bytes → Option (Bytes × Bytes)
unfolding rsplit
split_prefix key = full_parts (rsplit key)
