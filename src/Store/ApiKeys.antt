-- ===== src/Store/ApiKeys.antt =====
-- The table of API keys (crates/store/src/api_key.rs), with scopes in their text form
-- (crates/store/src/types.rs).
pub mod Lookup
use payment_gateway_sandbox.Prelude.{
  ℕ, String, ◌≡◌, refl, ◌∙◌, arith, Bool, false, Bool-cases, inl, inr, not, ◌&&◌, ◌||◌, Option,
  none, some, List, [], ◌∷◌, ◌++◌, ◌==◌, if◌then◌else◌, leb, map,
}
use payment_gateway_sandbox.Prelude.Bytes.{Bytes, eq_bytes, eq_bytes_refl}
use payment_gateway_sandbox.Prelude.Result.{Result, ok, err}
use payment_gateway_sandbox.Store.Error.{StoreError, row_not_found, conflict}
use payment_gateway_sandbox.Store.Rows.{order_by}
use payment_gateway_sandbox.Domain.ApiKey.{
  Scope, orders_read, orders_write, payments_read, payments_write, refunds_write, webhooks_manage,
  scope_str, ApiKeyKind, ApiKey, is_set, or_now,
}
use text.Mathlib.Text.{◌==◌ as str_eq}

unfoldable pub parse_scope : String → Option Scope
parse_scope s =
    if str_eq s "orders:read"
    then some orders_read
    else if str_eq s "orders:write"
    then some orders_write
    else if str_eq s "payments:read"
    then some payments_read
    else if str_eq s "payments:write"
    then some payments_write
    else if str_eq s "refunds:write"
    then some refunds_write
    else if str_eq s "webhooks:manage"
    then some webhooks_manage
    else none

-- `scopes::to_strings`
unfoldable pub to_strings : List Scope → List String
unfolding scope_str
to_strings [] = []
to_strings (s ∷ ss) = scope_str s ∷ to_strings ss

abbrev pub onto : Option Scope → List Scope → List Scope
onto none ss = ss
onto (some s) ss = s ∷ ss

-- `scopes::from_strings`: an unknown text is left out.
unfoldable pub from_strings : List String → List Scope
unfolding parse_scope
from_strings [] = []
from_strings (s ∷ ss) = onto (parse_scope s) (from_strings ss)

pub record ApiKeyRow : Type 0 where
  pub id : ℕ
  pub merchant_id : ℕ
  pub kind : ApiKeyKind
  pub label : String
  pub scopes : List String
  pub secret_hash : Bytes
  pub last_used_at : Option ℕ
  pub revoked_at : Option ℕ
  pub created_at : ℕ

-- `into_domain`
unfoldable pub row_into_domain : ApiKeyRow → ApiKey
unfolding from_strings
row_into_domain r = record {
  id = r.id;
  merchant_id = r.merchant_id;
  kind = r.kind;
  label = r.label;
  scopes = from_strings r.scopes;
  secret_hash = r.secret_hash;
  last_used_at = r.last_used_at;
  revoked_at = r.revoked_at;
  created_at = r.created_at;
}

-- The row of a key, as `insert` writes it.
unfoldable pub row_of : ApiKey → ApiKeyRow
unfolding to_strings
row_of key = record {
  id = key.id;
  merchant_id = key.merchant_id;
  kind = key.kind;
  label = key.label;
  scopes = to_strings key.scopes;
  secret_hash = key.secret_hash;
  last_used_at = key.last_used_at;
  revoked_at = key.revoked_at;
  created_at = key.created_at;
}

abbrev pub clashes : ApiKey → List ApiKeyRow → Bool
clashes key [] = false
clashes key (r ∷ rs) = r.id == key.id || eq_bytes r.secret_hash key.secret_hash || clashes key rs

-- `insert`; the primary key and the unique index on `secret_hash` refuse a second row.
unfoldable pub insert_key : ApiKey → List ApiKeyRow → Result (Unit {0}) StoreError × List ApiKeyRow
unfolding row_of
insert_key key table =
    if clashes key table
    then (err (conflict "api_keys"), table)
    else (ok tt, table ++ row_of key ∷ [])

-- `WHERE secret_hash = $1 AND revoked_at IS NULL`
unfoldable pub find_active : Bytes → List ApiKeyRow → Option ApiKeyRow
find_active hash [] = none
find_active hash (r ∷ rs) =
    if eq_bytes r.secret_hash hash && not (is_set r.revoked_at) then some r else find_active hash rs

abbrev found : Option ApiKeyRow → Result ApiKey StoreError
found none = err (row_not_found "api_key")
found (some r) = ok (row_into_domain r)

unfoldable pub find_active_by_hash : Bytes → List ApiKeyRow → Result ApiKey StoreError
unfolding row_into_domain
find_active_by_hash hash table = found (find_active hash table)

abbrev pub is_key_of : ℕ → ℕ → ApiKeyRow → Bool
is_key_of merchant id r = r.id == id && r.merchant_id == merchant

unfoldable pub revoke_rows : ℕ → ℕ → ℕ → List ApiKeyRow → List ApiKeyRow
revoke_rows merchant id now [] = []
revoke_rows merchant id now (r ∷ rs) =
    (if is_key_of merchant id r then record r { revoked_at = or_now now r.revoked_at } else r)
    ∷ revoke_rows merchant id now rs

unfoldable pub any_key : ℕ → ℕ → List ApiKeyRow → Bool
any_key merchant id [] = false
any_key merchant id (r ∷ rs) = is_key_of merchant id r || any_key merchant id rs

-- `revoke`: no row affected is an error.
unfoldable pub revoke_key :
    ℕ → ℕ → ℕ → List ApiKeyRow → Result (Unit {0}) StoreError × List ApiKeyRow
unfolding revoke_rows any_key
revoke_key merchant id now table = (
  (if any_key merchant id table then ok tt else err (row_not_found "api_key")),
  revoke_rows merchant id now table,
)

unfoldable pub touch_last_used : ℕ → ℕ → List ApiKeyRow → List ApiKeyRow
touch_last_used id now [] = []
touch_last_used id now (r ∷ rs) =
    (if r.id == id then record r { last_used_at = some now } else r) ∷ touch_last_used id now rs

unfoldable pub keys_of : ℕ → List ApiKeyRow → List ApiKeyRow
keys_of merchant [] = []
keys_of merchant (r ∷ rs) =
    if r.merchant_id == merchant then r ∷ keys_of merchant rs else keys_of merchant rs

-- `list_for_merchant`, the newest first
unfoldable pub list_keys : ℕ → List ApiKeyRow → List ApiKey
unfolding keys_of row_into_domain
list_keys merchant table =
    map row_into_domain (order_by (λ a b. leb b.created_at a.created_at) (keys_of merchant table))
