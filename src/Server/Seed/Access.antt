-- ===== src/Server/Seed/Access.antt =====
-- The key that the seed command prints opens the API for the merchant that it prints.
use payment_gateway_sandbox.Prelude.{
  ℕ, ◌≡◌, refl, ap, sym, ◌∙◌, arith, Bool, true, none, some, List, [], ◌∷◌, inl, inr,
}
use mathlib.Core.Path.{subst}
use payment_gateway_sandbox.Prelude.Lists.{length}
use payment_gateway_sandbox.Prelude.Bytes.{Bytes, all_bytes}
use payment_gateway_sandbox.Prelude.Text.{characters}
use payment_gateway_sandbox.Prelude.Result.{Result, ok, err, Result-cases}
use payment_gateway_sandbox.Domain.ApiKey.{ApiKey, new_api_key, secret}
use payment_gateway_sandbox.Domain.Merchant.{Merchant, MerchantError, new_merchant}
use payment_gateway_sandbox.Store.Error.{StoreError}
use payment_gateway_sandbox.Store.Merchants.{find_by_email, insert_merchant}
use payment_gateway_sandbox.Store.ApiKeys.{
  ApiKeyRow, insert_key, row_of, row_into_domain, find_active, find_active_by_hash,
}
use payment_gateway_sandbox.Store.ApiKeys.Lookup.{
  find_active-insert_key, find_active-insert_key_after, from_strings-to_strings,
}
use payment_gateway_sandbox.Crypto.ApiKey.{Hashing, GeneratedKey, generate, lookup_hash}
use payment_gateway_sandbox.Api.Auth.{
  Lookup, answered, authenticate, ctx_of, is_hex, is_well_formed, resolve, shaped_token,
}
use payment_gateway_sandbox.Api.Auth.Cache.{AuthCache, lookup}
use payment_gateway_sandbox.Api.Auth.Bearer.{bearer_header, shaped_token-bearer_header}
use payment_gateway_sandbox.Server.Seed.{
  SeedEnv, Seeded, Tables, stored, with_new, secret_of, publishable_of, seed_keys, run, demo_email,
  demo_name,
}

-- A key comes back from its row.
row_into_domain-row_of : (key : ApiKey) → row_into_domain (row_of key) ≡ key
unfolding row_into_domain row_of
row_into_domain-row_of key = rw (from_strings-to_strings key.scopes) refl

find_active_by_hash-row_of :
    (hash : Bytes) (key : ApiKey) (table : List ApiKeyRow)
    → find_active hash table ≡ some (row_of key)
    → find_active_by_hash hash table ≡ ok key
unfolding find_active_by_hash
find_active_by_hash-row_of hash key table h = rw h (ap ok (row_into_domain-row_of key))

-- A request with a well-shaped token, which the cache does not know and the table knows as a secret key.
authenticate-known :
    (is_text : Bytes → Bool) (hash_of : Bytes → Bytes) (headers : List Bytes) (token : Bytes)
    (find : Bytes → Lookup) (cache : AuthCache) (now : ℕ) (key : ApiKey)
    → shaped_token is_text headers ≡ ok token
    → lookup (hash_of token) now cache ≡ none
    → find (hash_of token) ≡ answered (ok key)
    → key.kind ≡ secret
    → (authenticate is_text hash_of headers now find cache).answer ≡ ok (ctx_of key)
unfolding authenticate resolve
authenticate-known is_text hash_of headers token find cache now key s l f k =
    rw s (rw l (rw f (rw k refl)))

module _ (lib : Hashing) (lower : Bytes → Bytes) (env : SeedEnv) where
  abbrev sk : GeneratedKey
  sk = generate lib (characters "sk_test") env.secret_random

  -- What a run leaves: the printed key is stored for the printed merchant.
  abbrev Leaves : Seeded → Tables → Type 0
  Leaves seeded after =
      (seeded.secret_key ≡ sk)
      × (find_active sk.hash after.keys ≡ some (row_of (secret_of lib lower env seeded.merchant)))

  second_stored :
      (m : Merchant) (t after : Tables) (seeded : Seeded) (r : Result (Unit {0}) StoreError)
      (keys : List ApiKeyRow)
      → insert_key (publishable_of lib lower env m) t.keys ≡ (r, keys)
      → find_active sk.hash t.keys ≡ some (row_of (secret_of lib lower env m))
      → stored r
          (record t { keys = keys })
          (λ t'. (
            ok (record {
              merchant = m;
              secret_key = sk;
              publishable_key = generate lib (characters "pk_test") env.publishable_random;
            }),
            t',
          ))
        ≡ (ok seeded, after)
      → Leaves seeded after
  second_stored m t after seeded (err e) keys i f h = cc
  second_stored m t after seeded (ok u) keys i f h =
      let parts : (m ≡ seeded.merchant) × (seeded.secret_key ≡ sk) × (after.keys ≡ keys) =
        ground arith in
      (
        parts.1,
        ap (λ (ks : List ApiKeyRow). find_active sk.hash ks) parts.2
            ∙ find_active-insert_key_after sk.hash (publishable_of lib lower env m) t.keys keys
                (row_of (secret_of lib lower env m)) i f
            ∙ ap (λ (x : Merchant). some (row_of (secret_of lib lower env x))) parts.0,
      )

  first_stored :
      (m : Merchant) (tables after : Tables) (seeded : Seeded) (r : Result (Unit {0}) StoreError)
      (keys : List ApiKeyRow)
      → insert_key (secret_of lib lower env m) tables.keys ≡ (r, keys)
      → stored r
          (record tables { keys = keys })
          (λ t.
            let second = insert_key (publishable_of lib lower env m) t.keys in
            stored second.0
              (record t { keys = second.1 })
              (λ t'. (
                ok (record {
                  merchant = m;
                  secret_key = sk;
                  publishable_key = generate lib (characters "pk_test") env.publishable_random;
                }),
                t',
              )))
        ≡ (ok seeded, after)
      → Leaves seeded after
  unfolding new_api_key
  first_stored m tables after seeded (err e) keys i h = cc
  first_stored m tables after seeded (ok u) keys i h =
      let t : Tables = record tables { keys = keys } in
      let second = insert_key (publishable_of lib lower env m) keys in
      second_stored m t after seeded second.0 second.1 refl
        (find_active-insert_key (secret_of lib lower env m) tables.keys keys i refl) h

  seed_keys-Leaves :
      (m : Merchant) (tables after : Tables) (seeded : Seeded)
      → seed_keys lib lower env m tables ≡ (ok seeded, after)
      → Leaves seeded after
  unfolding seed_keys
  seed_keys-Leaves m tables after seeded h =
      let first = insert_key (secret_of lib lower env m) tables.keys in
      first_stored m tables after seeded first.0 first.1 refl h

  inserted_Leaves :
      (m : Merchant) (r : Result (Unit {0}) StoreError) (tables after : Tables) (seeded : Seeded)
      → stored r tables (seed_keys lib lower env m) ≡ (ok seeded, after)
      → Leaves seeded after
  inserted_Leaves m (err e) tables after seeded h = cc
  inserted_Leaves m (ok u) tables after seeded h = seed_keys-Leaves m tables after seeded h

  created_Leaves :
      (r : Result Merchant MerchantError) (tables after : Tables) (seeded : Seeded)
      → with_new lib lower env r (seed_keys lib lower env) tables ≡ (ok seeded, after)
      → Leaves seeded after
  created_Leaves (err e) tables after seeded h = cc
  created_Leaves (ok m) tables after seeded h =
      let out = insert_merchant lower m tables.merchants in
      inserted_Leaves m out.0 (record tables { merchants = out.1 }) after seeded h

  run-Leaves :
      (tables after : Tables) (seeded : Seeded)
      → run lib lower env tables ≡ (ok seeded, after)
      → Leaves seeded after
  unfolding run
  run-Leaves tables after seeded h =
      elim (Result-cases (find_by_email lower demo_email tables.merchants)) [
        | inl (m, e) ↦ seed_keys-Leaves m tables after seeded (rw e at h)
        | inr (x, e) ↦
            created_Leaves (new_merchant env.merchant_uuid demo_name demo_email env.now) tables
              after seeded (rw e at h)
      ]

  -- After a seed that came through, a request with the printed secret key is let through as the printed
  -- merchant, where 32 bytes are drawn at random, whose hexadecimal text has 64 digits, and the cache does not know the
  -- key yet.
  pub seeded_key_authenticates :
      (is_text : Bytes → Bool) (tables after : Tables) (seeded : Seeded) (cache : AuthCache)
      (now : ℕ)
      → all_bytes is_hex (lib.hex_encode env.secret_random) ≡ true
      → length (lib.hex_encode env.secret_random) ≡ 64
      → is_text (bearer_header seeded.secret_key.plaintext) ≡ true
      → lookup seeded.secret_key.hash now cache ≡ none
      → run lib lower env tables ≡ (ok seeded, after)
      → let out =
          authenticate is_text
            (lookup_hash lib)
            (bearer_header seeded.secret_key.plaintext ∷ [])
            now
            (λ hash. answered (find_active_by_hash hash after.keys))
            cache in
        out.answer ≡ ok (ctx_of (secret_of lib lower env seeded.merchant))
  unfolding generate new_api_key
  seeded_key_authenticates is_text tables after seeded cache now hex long text fresh h =
      let (printed, kept) = run-Leaves tables after seeded h in
      let well : is_well_formed (lib.hex_encode env.secret_random) ≡ true = rw long (rw hex refl) in
      let key : seeded.secret_key.plaintext ≡ sk.plaintext =
        ap (λ (k : GeneratedKey). k.plaintext) printed in
      let hash : seeded.secret_key.hash ≡ sk.hash = ap (λ (k : GeneratedKey). k.hash) printed in
      let hashed : lookup_hash lib seeded.secret_key.plaintext ≡ sk.hash =
        ap (lookup_hash lib) key in
      let shaped =
        subst (λ (t : Bytes). shaped_token is_text (bearer_header t ∷ []) ≡ ok t) (sym key)
          (shaped_token-bearer_header is_text (lib.hex_encode env.secret_random) well
            (subst (λ (t : Bytes). is_text (bearer_header t) ≡ true) key text)) in
      let unknown : lookup (lookup_hash lib seeded.secret_key.plaintext) now cache ≡ none =
        subst (λ (k : Bytes). lookup k now cache ≡ none) (hash ∙ sym hashed) fresh in
      let known : find_active_by_hash (lookup_hash lib seeded.secret_key.plaintext) after.keys
          ≡ ok (secret_of lib lower env seeded.merchant) =
        ap (λ (k : Bytes). find_active_by_hash k after.keys) hashed
        ∙ find_active_by_hash-row_of sk.hash (secret_of lib lower env seeded.merchant) after.keys
            kept in
      authenticate-known is_text (lookup_hash lib) (bearer_header seeded.secret_key.plaintext ∷ [])
        seeded.secret_key.plaintext (λ k. answered (find_active_by_hash k after.keys)) cache now
        (secret_of lib lower env seeded.merchant) shaped unknown (ap answered known) refl
