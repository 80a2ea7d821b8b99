-- ===== src/Tests/Access.antt =====
-- The theorems on authentication, ids and errors at concrete values.
use payment_gateway_sandbox.Prelude.{
  ℕ, ◌+◌, ◌≡◌, ◌≢◌, ◌≤◌, ◌<◌, ◌⊎◌, refl, arith, none, some, List, [], ◌∷◌, ◌++◌, ltb, if◌then◌else◌,
}
use payment_gateway_sandbox.Prelude.Bytes.{Bytes, eq_bytes}
use payment_gateway_sandbox.Prelude.Result.{ok, err}
use payment_gateway_sandbox.Domain.ApiKey.{ApiKey, secret, payments_read}
use payment_gateway_sandbox.Store.Error.{row_is_not_found, row_not_found}
use payment_gateway_sandbox.Store.ApiKeys.{ApiKeyRow, find_active, revoke_key, revoke_rows}
use payment_gateway_sandbox.Api.Auth.Cache.{with_settings, resolved}
use payment_gateway_sandbox.Api.Auth.{Lookup, answered, ctx_of, resolve, secret_prefix}
use payment_gateway_sandbox.Api.Auth.Fresh.{
  Operation, request, operate_all, verdict, answer_of, answers_are_fresh, revocation_takes_effect,
}

abbrev hash_1 : Bytes
hash_1 = b'h' ∷ b'1' ∷ []

abbrev key_1 : ApiKey
key_1 = record {
  id = 1;
  merchant_id = 9;
  kind = secret;
  label = "default";
  scopes = payments_read ∷ [];
  secret_hash = hash_1;
  last_used_at = none;
  revoked_at = none;
  created_at = 0;
}

-- A key that is there until it is revoked at 1000.
abbrev truth_1 : ℕ → Bytes → Lookup
truth_1 t hash = answered (if ltb t 1000 then ok key_1 else err (row_not_found "api_key"))

-- A request at 990, before the revocation.
abbrev seen : List Operation
seen = request hash_1 990 ∷ []

answers_are_fresh_example :
    (t : ℕ) × ((resolve hash_1 1003
        (truth_1 1003 hash_1)
        (operate_all truth_1 seen (with_settings 50 10 60))).answer
      ≡ answer_of (verdict (truth_1 t hash_1)))
    × ((t ≡ 1003) ⊎ (1003 < t + 50))
answers_are_fresh_example = answers_are_fresh truth_1 50 10 60 seen hash_1 1003

revoked_from_1000 : (t : ℕ) → 1000 ≤ t → verdict (truth_1 t hash_1) ≢ some (resolved (ctx_of key_1))
unfolding row_is_not_found
revoked_from_1000 t h = ground arith

revocation_takes_effect_example :
    (resolve hash_1 1050
      (truth_1 1050 hash_1)
      (operate_all truth_1 seen (with_settings 50 10 60))).answer
    ≢ ok (ctx_of key_1)
revocation_takes_effect_example =
    revocation_takes_effect truth_1 50 10 60 seen hash_1 1000 1050 (ctx_of key_1) revoked_from_1000
      (omega arith)

abbrev short_token : Bytes
short_token = secret_prefix ++ b'a' ∷ b'1' ∷ []

-- A uuid's text as one byte.
abbrev print_digit : ℕ → Bytes
print_digit u = (48 + u) ∷ []

abbrev row_of_key : ℕ → ℕ → ApiKeyRow
row_of_key id merchant = record {
  id = id;
  merchant_id = merchant;
  kind = secret;
  label = "default";
  scopes = [];
  secret_hash = hash_1;
  last_used_at = none;
  revoked_at = none;
  created_at = 0;
}

after_revocation :
    find_active hash_1 (revoke_key 9 1 1000 (row_of_key 1 9 ∷ row_of_key 2 9 ∷ [])).1
    ≡ some (row_of_key 2 9)
unfolding find_active revoke_key revoke_rows eq_bytes
after_revocation = refl
