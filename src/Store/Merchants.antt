-- ===== src/Store/Merchants.antt =====
-- The table of merchants (crates/store/src/merchant.rs), with the CHECKs and the unique index of
-- migrations/20260726093649_merchants.up.sql. `lower` is the database's.
use payment_gateway_sandbox.Prelude.{
  ℕ, ◌≡◌, refl, arith, Bool, true, false, Bool-cases, Option-cases, not, ◌&&◌, Option, none, some,
  List, [], ◌∷◌, ◌++◌, ◌==◌, if◌then◌else◌, inl, inr,
}
use payment_gateway_sandbox.Prelude.Bytes.{Bytes, eq_bytes, all_bytes, split_once}
use payment_gateway_sandbox.Prelude.Text.{trim, trim_end, trim_start}
use payment_gateway_sandbox.Prelude.Result.{Result, ok, err}
use payment_gateway_sandbox.Domain.Merchant.{
  Merchant, new_merchant, is_plausible_email, is_empty, contains_char,
}
use payment_gateway_sandbox.Store.Error.{StoreError, row_not_found, conflict, check_violation}
use payment_gateway_sandbox.Store.Rows.{find_row, update_rows, is_found}

abbrev pub merchant_id_of : Merchant → ℕ
merchant_id_of m = m.id

-- `btrim(name) <> ''`
abbrev pub is_name : Bytes → Bool
is_name name = not (all_bytes (λ c. c == 32) name)

abbrev dotted : Option (Bytes × Bytes) → Bool
dotted none = false
dotted (some (_, rest)) = contains_char b'.' rest

-- `email LIKE '%@%.%'`
unfoldable pub is_email_shape : Bytes → Bool
unfolding split_once contains_char
is_email_shape email = dotted (split_once b'@' email)

module _ (lower : Bytes → Bytes) where
  -- `WHERE lower(email) = lower($1)`
  unfoldable pub find_email : Bytes → List Merchant → Option Merchant
  find_email email [] = none
  find_email email (m ∷ ms) =
      if eq_bytes (lower m.email) (lower email) then some m else find_email email ms

  unfoldable pub insert_merchant :
      Merchant → List Merchant → Result (Unit {0}) StoreError × List Merchant
  unfolding find_email is_email_shape
  insert_merchant m table =
      if not (is_name m.name)
      then (err (check_violation "merchants_name_not_empty"), table)
      else if not (is_email_shape m.email)
      then (err (check_violation "merchants_email_shape"), table)
      else if is_found merchant_id_of (find_row merchant_id_of m.id table)
      then (err (conflict "merchants_pkey"), table)
      else if is_found merchant_id_of (find_email m.email table)
      then (err (conflict "merchants_email_idx"), table)
      else (ok tt, table ++ m ∷ [])

  abbrev or_missing : Option Merchant → Result Merchant StoreError
  or_missing none = err (row_not_found "merchant")
  or_missing (some m) = ok m

  unfoldable pub find_by_email : Bytes → List Merchant → Result Merchant StoreError
  unfolding find_email
  find_by_email email table = or_missing (find_email email table)

abbrev found_merchant : Option Merchant → Result Merchant StoreError
found_merchant none = err (row_not_found "merchant")
found_merchant (some m) = ok m

-- `find_by_id`
unfoldable pub find_merchant : ℕ → List Merchant → Result Merchant StoreError
find_merchant id table = found_merchant (find_row merchant_id_of id table)

-- No row affected is an error.
unfoldable pub update_checkout_domains :
    ℕ → List Bytes → List Merchant → Result (Unit {0}) StoreError × List Merchant
update_checkout_domains id domains table =
    if is_found merchant_id_of (find_row merchant_id_of id table)
    then (
      ok tt,
      update_rows merchant_id_of id (λ m. record m { checkout_allowed_domains = domains }) table,
    )
    else (err (row_not_found "merchant"), table)

and_rest : (a b : Bool) → (a && b) ≡ true → b ≡ true
and_rest true b h = h
and_rest false b h = cc

trim_end-spaces : (s : Bytes) → all_bytes (λ c. c == 32) s ≡ true → trim_end s ≡ []
unfolding trim_end all_bytes
trim_end-spaces [] h = refl
trim_end-spaces (c ∷ cs) h = elim (Bool-cases (c == 32)) [
  | inl e ↦
      let ih : trim_end cs ≡ [] =
        trim_end-spaces cs (and_rest (c == 32) (all_bytes (λ x. x == 32) cs) h) in
      rw ih (rw e refl)
  | inr e ↦ cc (rw e at h)
]

trim-spaces : (s : Bytes) → all_bytes (λ c. c == 32) s ≡ true → trim s ≡ []
unfolding trim trim_start
trim-spaces s h = rw (trim_end-spaces s h) refl

named : (name : Bytes) → is_empty (trim name) ≡ false → is_name name ≡ true
named name h = elim (Bool-cases (all_bytes (λ c. c == 32) name)) [
  | inl e ↦ ground (arith, trim-spaces name e)
  | inr e ↦ rw e refl
]

shaped : (email : Bytes) → is_plausible_email email ≡ true → is_email_shape email ≡ true
unfolding is_plausible_email is_email_shape
shaped email h = elim (Option-cases (split_once b'@' email)) [
  | inl e ↦ ground arith
  | inr (p, e) ↦ rw e (ground arith)
]

-- A merchant that the domain accepts passes the CHECKs of the table: it is stored, unless a row has its id
-- or its email.
pub insert_merchant-new_merchant :
    (lower : Bytes → Bytes) (id : ℕ) (name email : Bytes) (now : ℕ) (m : Merchant)
    (table : List Merchant)
    → new_merchant id name email now ≡ ok m
    → find_row merchant_id_of id table ≡ none
    → find_email lower email table ≡ none
    → insert_merchant lower m table ≡ (ok tt, table ++ m ∷ [])
unfolding new_merchant insert_merchant
insert_merchant-new_merchant lower id name email now m table h i e =
    elim (Bool-cases (is_empty (trim name))) [
      | inl b ↦ ground arith
      | inr b ↦ elim (Bool-cases (is_plausible_email email)) [
        | inl p ↦ ground (arith, named name b, shaped email p)
        | inr p ↦ ground arith
      ]
    ]
