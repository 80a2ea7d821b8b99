-- ===== src/Server/Seed.antt =====
-- The seed command (crates/sandbox-server/src/seed.rs): a demo merchant with a secret and a publishable key.
-- Ids, the clock and what is drawn at random are arguments; what is printed is the result.
pub mod Access
use payment_gateway_sandbox.Prelude.{ℕ, String, ◌≡◌, none, List}
use payment_gateway_sandbox.Prelude.Bytes.{Bytes}
use payment_gateway_sandbox.Prelude.Text.{characters}
use payment_gateway_sandbox.Prelude.Result.{Result, ok, err}
use payment_gateway_sandbox.Domain.ApiKey.{ApiKey, ApiKeyKind, secret, publishable, new_api_key}
use payment_gateway_sandbox.Domain.Merchant.{Merchant, MerchantError, new_merchant}
use payment_gateway_sandbox.Store.Error.{StoreError}
use payment_gateway_sandbox.Store.Merchants.{find_by_email, insert_merchant}
use payment_gateway_sandbox.Store.ApiKeys.{ApiKeyRow, insert_key}
use payment_gateway_sandbox.Crypto.ApiKey.{Hashing, GeneratedKey, generate}

abbrev pub demo_email : Bytes
demo_email = characters "demo@sandbox.local"

abbrev pub demo_name : Bytes
demo_name = characters "Demo Merchant"

pub record SeedEnv : Type 0 where
  pub now : ℕ
  pub merchant_uuid : ℕ
  pub secret_uuid : ℕ
  pub publishable_uuid : ℕ
  pub secret_random : Bytes
  pub publishable_random : Bytes

-- The tables that the command writes.
pub record Tables : Type 0 where
  pub merchants : List Merchant
  pub keys : List ApiKeyRow

pub data SeedError : Type 0 where
  merchant_error : MerchantError → SeedError
  store_error : StoreError → SeedError

pub record Seeded : Type 0 where
  pub merchant : Merchant
  pub secret_key : GeneratedKey
  pub publishable_key : GeneratedKey

abbrev pub Step : Type 0 → Type 0
Step A = Tables → Result A SeedError × Tables

-- `?` on an error of the store
abbrev pub stored :
    {A : Type 0} → Result (Unit {0}) StoreError → Tables → Step A → Result A SeedError × Tables
stored (err e) tables next = (err (store_error e), tables)
stored (ok _) tables next = next tables

module _ (lib : Hashing) (lower : Bytes → Bytes) (env : SeedEnv) where
  abbrev pub with_new : Result Merchant MerchantError → (Merchant → Step Seeded) → Step Seeded
  with_new (err e) next tables = (err (merchant_error e), tables)
  with_new (ok m) next tables =
      let out = insert_merchant lower m tables.merchants in
      stored out.0 (record tables { merchants = out.1 }) (next m)

  -- The `match` on the demo merchant.
  abbrev pub with_merchant : Result Merchant StoreError → (Merchant → Step Seeded) → Step Seeded
  with_merchant (ok existing) next tables = next existing tables
  with_merchant (err _) next tables =
      with_new (new_merchant env.merchant_uuid demo_name demo_email env.now) next tables

  abbrev pub secret_of : Merchant → ApiKey
  secret_of m =
      new_api_key env.secret_uuid m.id secret "seeded"
        (generate lib (characters "sk_test") env.secret_random).hash env.now

  abbrev pub publishable_of : Merchant → ApiKey
  publishable_of m =
      new_api_key env.publishable_uuid m.id publishable "seeded"
        (generate lib (characters "pk_test") env.publishable_random).hash env.now

  -- `run` from the merchant on
  unfoldable pub seed_keys : Merchant → Step Seeded
  unfolding new_api_key generate insert_key
  seed_keys m tables =
      let first = insert_key (secret_of m) tables.keys in
      stored first.0 (record tables { keys = first.1 })
        (λ t.
          let second = insert_key (publishable_of m) t.keys in
          stored second.0 (record t { keys = second.1 })
            (λ t'. (
              ok (record {
                merchant = m;
                secret_key = generate lib (characters "sk_test") env.secret_random;
                publishable_key = generate lib (characters "pk_test") env.publishable_random;
              }),
              t',
            )))

  -- `run`
  unfoldable pub run : Step Seeded
  unfolding seed_keys find_by_email new_merchant insert_merchant
  run tables = with_merchant (find_by_email lower demo_email tables.merchants) seed_keys tables
