-- ===== src/Store/ApiKeys/Lookup.antt =====
-- Which keys are found after keys were inserted and revoked.
use payment_gateway_sandbox.Prelude.{
  ℕ, ◌≡◌, refl, ◌∙◌, arith, false, Bool-cases, inl, inr, not, ◌&&◌, none, some, List, [], ◌∷◌, ◌++◌,
  if◌then◌else◌,
}
use payment_gateway_sandbox.Prelude.Bytes.{Bytes, eq_bytes, eq_bytes_refl}
use payment_gateway_sandbox.Prelude.Result.{ok}
use payment_gateway_sandbox.Domain.ApiKey.{
  Scope, orders_read, orders_write, payments_read, payments_write, refunds_write, webhooks_manage,
  scope_str, ApiKey, is_set,
}
use payment_gateway_sandbox.Store.ApiKeys.{
  parse_scope, to_strings, from_strings, ApiKeyRow, row_of, clashes, insert_key, find_active,
  is_key_of, revoke_rows, revoke_key,
}

parse_scope-scope_str : (s : Scope) → parse_scope (scope_str s) ≡ some s
unfolding parse_scope scope_str
parse_scope-scope_str orders_read = refl
parse_scope-scope_str orders_write = refl
parse_scope-scope_str payments_read = refl
parse_scope-scope_str payments_write = refl
parse_scope-scope_str refunds_write = refl
parse_scope-scope_str webhooks_manage = refl

-- Scopes come back from their text form, in order.
pub from_strings-to_strings : (ss : List Scope) → from_strings (to_strings ss) ≡ ss
unfolding from_strings to_strings
from_strings-to_strings [] = refl
from_strings-to_strings (s ∷ ss) = rw (parse_scope-scope_str s, from_strings-to_strings ss) refl

-- After a merchant's key is revoked, what a hash finds is another row: its id is another, or it is another
-- merchant's.
pub revoke_key-find_active :
    (merchant id now : ℕ) (hash : Bytes) (table : List ApiKeyRow) (r : ApiKeyRow)
    → find_active hash (revoke_key merchant id now table).1 ≡ some r
    → is_key_of merchant id r ≡ false
unfolding find_active revoke_key revoke_rows
revoke_key-find_active merchant id now hash [] r h = cc
revoke_key-find_active merchant id now hash (x ∷ xs) r h =
    ground (arith, revoke_key-find_active merchant id now hash xs r)

find_active-clashes :
    (key : ApiKey) (table : List ApiKeyRow)
    → clashes key table ≡ false
    → find_active key.secret_hash table ≡ none
unfolding find_active
find_active-clashes key [] h = refl
find_active-clashes key (r ∷ rs) h = ground (arith, find_active-clashes key rs)

find_active-append :
    (hash : Bytes) (table : List ApiKeyRow) (r : ApiKeyRow)
    → find_active hash table ≡ none
    → find_active hash (table ++ r ∷ [])
      ≡ (if eq_bytes r.secret_hash hash && not (is_set r.revoked_at) then some r else none)
unfolding find_active
find_active-append hash [] r h = refl
find_active-append hash (x ∷ xs) r h = ground (arith, find_active-append hash xs r)

find_active-keep :
    (hash : Bytes) (table : List ApiKeyRow) (r s : ApiKeyRow)
    → find_active hash table ≡ some s
    → find_active hash (table ++ r ∷ []) ≡ some s
unfolding find_active
find_active-keep hash [] r s h = cc
find_active-keep hash (x ∷ xs) r s h = ground (arith, find_active-keep hash xs r s)

-- A key that was inserted, and is not revoked, is found by its hash.
pub find_active-insert_key :
    (key : ApiKey) (table after : List ApiKeyRow)
    → insert_key key table ≡ (ok tt, after)
    → key.revoked_at ≡ none
    → find_active key.secret_hash after ≡ some (row_of key)
unfolding insert_key row_of
find_active-insert_key key table after h e = elim (Bool-cases (clashes key table)) [
  | inl c ↦ ground arith
  | inr c ↦
      let same : table ++ row_of key ∷ [] ≡ after = ground arith in
      rw (← same) (
        find_active-append key.secret_hash table (row_of key) (find_active-clashes key table c)
        ∙ rw (e, eq_bytes_refl key.secret_hash) refl)
]

-- It is still found after another key was inserted.
pub find_active-insert_key_after :
    (hash : Bytes) (key : ApiKey) (table after : List ApiKeyRow) (s : ApiKeyRow)
    → insert_key key table ≡ (ok tt, after)
    → find_active hash table ≡ some s
    → find_active hash after ≡ some s
unfolding insert_key
find_active-insert_key_after hash key table after s h f = elim (Bool-cases (clashes key table)) [
  | inl c ↦ ground arith
  | inr c ↦
      let same : table ++ row_of key ∷ [] ≡ after = ground arith in
      rw (← same) (find_active-keep hash table (row_of key) s f)
]
