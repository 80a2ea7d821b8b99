-- ===== src/Store/Endpoints.antt =====
-- The statements on webhook endpoints (crates/store/src/webhook_endpoint.rs) that the API runs, with the CHECK
-- of migrations/20260726102247_webhook_endpoints.up.sql on their URL.
use payment_gateway_sandbox.Prelude.{
  ℕ, ◌+◌, ◌≡◌, ◌≢◌, ◌≤◌, refl, arith, Bool, Bool-cases, inl, inr, not, ◌&&◌, ◌||◌, Option, none,
  some, List, [], ◌∷◌, ◌++◌, leb, ◌==◌, if◌then◌else◌,
}
use payment_gateway_sandbox.Prelude.Lists.{length, All}
use payment_gateway_sandbox.Prelude.Bytes.{Bytes, starts_with}
use payment_gateway_sandbox.Prelude.Text.{characters}
use payment_gateway_sandbox.Store.Error.{store_error, row_not_found, conflict, check_violation}
use payment_gateway_sandbox.Store.Db.{
  Tx, ◌>>=◌, ◌>>◌, pure, throw, throw_if, gets, modify, WebhookEndpoint,
}
use payment_gateway_sandbox.Store.Rows.{find_row, update_rows, is_found, order_by, insert_ordered}
use payment_gateway_sandbox.Store.Outbox.{is_active, active_rows, active_for_merchant}

abbrev pub endpoint_key : WebhookEndpoint → ℕ
endpoint_key e = e.id

unfoldable pub lower_ascii : Bytes → Bytes
lower_ascii [] = []
lower_ascii (c ∷ cs) = (if leb b'A' c && leb c b'Z' then c + 32 else c) ∷ lower_ascii cs

-- `url ~* '^https?://'`
unfoldable pub is_url_shape : Bytes → Bool
unfolding lower_ascii starts_with
is_url_shape url =
    starts_with (lower_ascii url) (characters "http://")
    || starts_with (lower_ascii url) (characters "https://")

unfoldable pub insert_endpoint : WebhookEndpoint → Tx (Unit {0})
unfolding is_url_shape
insert_endpoint ep = do
  throw_if (not (is_url_shape ep.url)) (store_error (check_violation "webhook_url_shape"))
  rows ← gets (λ db. db.endpoints)
  throw_if (is_found endpoint_key (find_row endpoint_key ep.id rows))
      (store_error (conflict "webhook_endpoints_pkey"))
  modify (λ db. record db { endpoints = db.endpoints ++ ep ∷ [] })

abbrev or_missing : Option WebhookEndpoint → Tx WebhookEndpoint
or_missing none = throw (store_error (row_not_found "webhook_endpoint"))
or_missing (some e) = pure e

-- `find_by_id`
unfoldable pub find_endpoint : ℕ → Tx WebhookEndpoint
find_endpoint id db = or_missing (find_row endpoint_key id db.endpoints) db

abbrev pub with_disabled_at : Option ℕ → WebhookEndpoint → WebhookEndpoint
with_disabled_at at e = record e { disabled_at = at }

unfoldable pub set_disabled : ℕ → Option ℕ → Tx (Unit {0})
set_disabled id at =
    modify (λ db. record db {
      endpoints = update_rows endpoint_key id (with_disabled_at at) db.endpoints;
    })

length-insert_ordered :
    (first : WebhookEndpoint → WebhookEndpoint → Bool) (r : WebhookEndpoint)
    (rs : List WebhookEndpoint)
    → length (insert_ordered first r rs) ≡ length rs + 1
unfolding insert_ordered
length-insert_ordered first r [] = refl
length-insert_ordered first r (s ∷ rs) = ground (arith, length-insert_ordered first r rs)

length-order_by :
    (first : WebhookEndpoint → WebhookEndpoint → Bool) (rs : List WebhookEndpoint)
    → length (order_by first rs) ≡ length rs
unfolding order_by
length-order_by first [] = refl
length-order_by first (r ∷ rs) =
    omega (arith, length-insert_ordered first r (order_by first rs), length-order_by first rs)

pub length-active_for_merchant :
    (merchant : ℕ) (es : List WebhookEndpoint)
    → length (active_for_merchant merchant es) ≡ length (active_rows merchant es)
unfolding active_for_merchant
length-active_for_merchant merchant es = length-order_by _ (active_rows merchant es)

-- A new row adds one active endpoint at most, and to its merchant only.
pub active_rows-append :
    (merchant : ℕ) (es : List WebhookEndpoint) (e : WebhookEndpoint)
    → length (active_rows merchant (es ++ e ∷ []))
      ≡ length (active_rows merchant es)
        + (if e.merchant_id == merchant && is_active e then 1 else 0)
unfolding active_rows is_active
active_rows-append merchant [] e = ground arith
active_rows-append merchant (x ∷ xs) e = ground (arith, active_rows-append merchant xs e)

-- Disabling adds none, and leaves none of the id.
pub active_rows-disabled :
    (merchant id now : ℕ) (es : List WebhookEndpoint)
    → length (active_rows merchant (update_rows endpoint_key id (with_disabled_at (some now)) es))
      ≤ length (active_rows merchant es)
unfolding active_rows is_active update_rows
active_rows-disabled merchant id now [] = omega arith
active_rows-disabled merchant id now (x ∷ xs) =
    ground (arith, active_rows-disabled merchant id now xs)

abbrev pub NoneOf : ℕ → List WebhookEndpoint → Type 0
NoneOf id es = All (λ (e : WebhookEndpoint). e.id ≢ id) es

pub active_rows-NoneOf :
    (merchant id now : ℕ) (es : List WebhookEndpoint)
    → NoneOf id
        (active_rows merchant (update_rows endpoint_key id (with_disabled_at (some now)) es))
unfolding active_rows is_active update_rows
active_rows-NoneOf merchant id now [] = tt
active_rows-NoneOf merchant id now (x ∷ xs) =
    let ih = active_rows-NoneOf merchant id now xs in
    elim (Bool-cases (x.id == id)) [
      | inl e ↦ elim (Bool-cases (x.merchant_id == merchant)) [
        | inl m ↦ rw e (rw m ih)
        | inr m ↦ rw e (rw m ih)
      ]
      | inr e ↦ elim (Bool-cases (x.merchant_id == merchant && is_active x)) [
        | inl a ↦ rw e (rw a (λ h. ground arith, ih))
        | inr a ↦ rw e (rw a ih)
      ]
    ]
