-- ===== src/Domain/ApiKey.antt =====
-- API keys and their scopes (crates/domain/src/api_key.rs).
use payment_gateway_sandbox.Prelude.{
  ℕ, String, ◌≡◌, arith, Bool, true, false, not, ◌||◌, Option, none, some, List, [], ◌∷◌, Enum,
  ◌=?◌,
}
use payment_gateway_sandbox.Prelude.Bytes.{Bytes}

pub data ApiKeyKind : Type 0 where
  secret publishable : ApiKeyKind

-- `ApiKeyKind::prefix`
unfoldable pub kind_prefix : ApiKeyKind → String
kind_prefix secret = "sk_test"
kind_prefix publishable = "pk_test"

pub data Scope : Type 0 where
  orders_read orders_write payments_read payments_write refunds_write webhooks_manage : Scope

abbrev pub Scope_index : Scope → ℕ
Scope_index orders_read = 0
Scope_index orders_write = 1
Scope_index payments_read = 2
Scope_index payments_write = 3
Scope_index refunds_write = 4
Scope_index webhooks_manage = 5

pub Scope_index_injective : (a b : Scope) → Scope_index a ≡ Scope_index b → a ≡ b
Scope_index_injective a b h = ground arith

instance abbrev pub Scope_enum : Enum Scope
Scope_enum = record { discriminant = Scope_index; discriminant_injective = Scope_index_injective }

-- `Scope::as_str`
unfoldable pub scope_str : Scope → String
scope_str orders_read = "orders:read"
scope_str orders_write = "orders:write"
scope_str payments_read = "payments:read"
scope_str payments_write = "payments:write"
scope_str refunds_write = "refunds:write"
scope_str webhooks_manage = "webhooks:manage"

abbrev pub full_access : List Scope
full_access =
    orders_read ∷ orders_write ∷ payments_read ∷ payments_write ∷ refunds_write ∷ webhooks_manage
    ∷ []

abbrev pub publishable_default : List Scope
publishable_default = []

pub record ApiKey : Type 0 where
  pub id : ℕ
  pub merchant_id : ℕ
  pub kind : ApiKeyKind
  pub label : String
  pub scopes : List Scope
  pub secret_hash : Bytes
  pub last_used_at : Option ℕ
  pub revoked_at : Option ℕ
  pub created_at : ℕ

-- The `match` in `ApiKey::new`.
unfoldable pub default_scopes : ApiKeyKind → List Scope
default_scopes secret = full_access
default_scopes publishable = publishable_default

-- `ApiKey::new`
unfoldable pub new_api_key : ℕ → ℕ → ApiKeyKind → String → Bytes → ℕ → ApiKey
unfolding default_scopes
new_api_key id merchant kind label secret_hash now = record {
  id = id;
  merchant_id = merchant;
  kind = kind;
  label = label;
  scopes = default_scopes kind;
  secret_hash = secret_hash;
  last_used_at = none;
  revoked_at = none;
  created_at = now;
}

-- `scopes.contains(&scope)`
unfoldable pub has : Scope → List Scope → Bool
has s [] = false
has s (t ∷ ts) = t =? s || has s ts

unfoldable pub has_scope : Scope → ApiKey → Bool
unfolding has
has_scope s key = has s key.scopes

abbrev pub is_set : Option ℕ → Bool
is_set none = false
is_set (some _) = true

unfoldable pub is_revoked : ApiKey → Bool
is_revoked key = is_set key.revoked_at

unfoldable pub is_active : ApiKey → Bool
unfolding is_revoked
is_active key = not (is_revoked key)

-- The time that stays, or the new one: `COALESCE(revoked_at, now)`.
abbrev pub or_now : ℕ → Option ℕ → Option ℕ
or_now now none = some now
or_now now (some t) = some t

-- `ApiKey::revoke`
unfoldable pub revoke : ℕ → ApiKey → ApiKey
revoke now key = record key { revoked_at = or_now now key.revoked_at }

unfoldable pub record_use : ℕ → ApiKey → ApiKey
record_use now key = record key { last_used_at = some now }
