-- ===== src/Tests/Seeds.antt =====
-- The seeded key at a concrete run of the seed command.
use payment_gateway_sandbox.Prelude.{ℕ, zero, suc, ◌≡◌, refl, true, none, [], ◌∷◌}
use payment_gateway_sandbox.Prelude.Bytes.{Bytes, all_bytes, eq_bytes}
use payment_gateway_sandbox.Prelude.Text.{characters}
use payment_gateway_sandbox.Prelude.Result.{ok}
use payment_gateway_sandbox.Domain.Merchant.{Merchant}
use payment_gateway_sandbox.Crypto.ApiKey.{Hashing, generate, lookup_hash}
use payment_gateway_sandbox.Store.Rows.{find_row}
use payment_gateway_sandbox.Store.ApiKeys.{find_active_by_hash, row_of}
use payment_gateway_sandbox.Api.Auth.{answered, authenticate, ctx_of, is_hex}
use payment_gateway_sandbox.Api.Auth.Bearer.{bearer_header}
use payment_gateway_sandbox.Api.Auth.Cache.{AuthCache, with_settings, lookup}
use payment_gateway_sandbox.Server.Seed.{
  SeedEnv, Seeded, Tables, run, secret_of, publishable_of, demo_email, demo_name,
}
use payment_gateway_sandbox.Server.Seed.Access.{seeded_key_authenticates}

-- Bytes are their own digest and their own coding.
abbrev open_hashing : Hashing
open_hashing = record { sha256 = λ bytes. bytes; hex_encode = λ bytes. bytes }

abbrev copies : ℕ → ℕ → Bytes
copies zero x = []
copies (suc n) x = x ∷ copies n x

abbrev seed_env : SeedEnv
seed_env = record {
  now = 1000;
  merchant_uuid = 9;
  secret_uuid = 1;
  publishable_uuid = 2;
  secret_random = copies 64 b'a';
  publishable_random = copies 64 b'b';
}

abbrev demo : Merchant
demo = record {
  id = 9;
  name = demo_name;
  email = demo_email;
  checkout_allowed_domains = [];
  created_at = 1000;
}

abbrev printed : Seeded
printed = record {
  merchant = demo;
  secret_key = generate open_hashing (characters "sk_test") (copies 64 b'a');
  publishable_key = generate open_hashing (characters "pk_test") (copies 64 b'b');
}

abbrev same_text : Bytes → Bytes
same_text text = text

abbrev empty_tables : Tables
empty_tables = record { merchants = []; keys = [] }

abbrev seeded_tables : Tables
seeded_tables = record {
  merchants = demo ∷ [];
  keys =
      row_of (secret_of open_hashing same_text seed_env demo)
      ∷ row_of (publishable_of open_hashing same_text seed_env demo)
      ∷ [];
}

seeds : run open_hashing same_text seed_env empty_tables ≡ (ok printed, seeded_tables)
unfolding run all_bytes find_row eq_bytes
seeds = refl

hexadecimal : all_bytes is_hex (copies 64 b'a') ≡ true
unfolding all_bytes
hexadecimal = refl

abbrev no_cache : AuthCache
no_cache = with_settings 50 10 60

unseen : lookup printed.secret_key.hash 1001 no_cache ≡ none
unfolding lookup
unseen = refl

seeded_key_example :
    (authenticate
      (λ text. true)
      (lookup_hash open_hashing)
      (bearer_header printed.secret_key.plaintext ∷ [])
      1001
      (λ hash. answered (find_active_by_hash hash seeded_tables.keys))
      no_cache).answer
    ≡ ok (ctx_of (secret_of open_hashing same_text seed_env demo))
seeded_key_example =
    seeded_key_authenticates open_hashing same_text seed_env (λ text. true) empty_tables
      seeded_tables printed no_cache 1001 hexadecimal refl refl unseen seeds
