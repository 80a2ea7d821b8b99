-- ===== src/Store/Orders.antt =====
-- Order persistence (crates/store/src/order.rs) with the constraints of its table
-- (migrations/20260726094843_orders.up.sql).
use payment_gateway_sandbox.Prelude.{
  ℕ, String, Bool, true, false, not, Option, none, some, List, [], ◌∷◌, ◌++◌, ◌&&◌, ◌==◌,
  if◌then◌else◌,
}
use payment_gateway_sandbox.Prelude.Int.{ℤ, pos, leb_ℤ}
use payment_gateway_sandbox.Domain.Order.{Order}
use payment_gateway_sandbox.Domain.OrderStatus.{OrderStatus}
use payment_gateway_sandbox.Store.Error.{row_not_found, conflict, check_violation, store_error}
use payment_gateway_sandbox.Store.Db.{Tx, ◌>>=◌, ◌>>◌, pure, throw, gets, modify, throw_if}
use payment_gateway_sandbox.Store.Rows.{find_row, update_rows, all_rows}
use text.Mathlib.Text.{◌==◌ as str_eq}

abbrev pub order_id_of : Order → ℕ
order_id_of o = o.id

-- The CHECKs `orders_amount_positive` and `orders_amount_paid_bounds`.
unfoldable pub order_checks : Order → Bool
order_checks o =
    leb_ℤ (pos 100) o.amount.minor
    && (leb_ℤ (pos 0) o.amount_paid && leb_ℤ o.amount_paid o.amount.minor)

abbrev pub or_not_found : {A : Type 0} → String → Option A → Tx A
or_not_found what none = throw (store_error (row_not_found what))
or_not_found what (some a) = pure a

-- `find_by_id` and `find_by_id_for_update`, which reads the same row under its lock
unfoldable pub find_order : ℕ → Tx Order
unfolding find_row
find_order id = do or_not_found "order" (← gets (λ db. find_row order_id_of id db.orders))

-- `orders_merchant_receipt_idx`: a merchant's receipts are unique where they are given.
abbrev same_receipt : Option String → Option String → Bool
same_receipt (some a) (some b) = str_eq a b
same_receipt _ _ = false

unfoldable pub receipt_taken : ℕ → Option String → List Order → Bool
receipt_taken merchant receipt [] = false
receipt_taken merchant receipt (o ∷ os) =
    if o.merchant_id == merchant && same_receipt o.receipt receipt
    then true
    else receipt_taken merchant receipt os

-- `insert`
unfoldable pub insert_order : Order → Tx (Unit {0})
unfolding order_checks receipt_taken
insert_order o = do
  throw_if (not (order_checks o)) (store_error (check_violation "orders"))
  taken ← gets (λ db. receipt_taken o.merchant_id o.receipt db.orders)
  throw_if taken (store_error (conflict "orders_merchant_receipt_idx"))
  modify (λ db. record db { orders = db.orders ++ o ∷ [] })

abbrev pub with_order_status : OrderStatus → ℤ → Order → Order
with_order_status s paid o = record o { status = s; amount_paid = paid }

-- `update_status`
unfoldable pub update_order_status : ℕ → OrderStatus → ℤ → Tx (Unit {0})
update_order_status id s paid = do
  fine ←
      gets
        (λ db. all_rows order_id_of id (λ o. order_checks (with_order_status s paid o)) db.orders)
  throw_if (not fine) (store_error (check_violation "orders"))
  found ← or_not_found "order" (← gets (λ db. find_row order_id_of id db.orders))
  modify
      (λ db. record db { orders = update_rows order_id_of id (with_order_status s paid) db.orders })
