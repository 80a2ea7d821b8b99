-- ===== src/Engine/Orders.antt =====
-- Orders (crates/engine/order.rs).
use payment_gateway_sandbox.Prelude.{
  ℕ, String, Bool, false, Option, none, some, List, ltb, ◌==◌, not, if◌then◌else◌,
}
use payment_gateway_sandbox.Prelude.Lists.{length}
use payment_gateway_sandbox.Prelude.Int.{ℤ, pos, ltb_ℤ}
use payment_gateway_sandbox.Domain.Money.{Currency, new_non_negative}
use payment_gateway_sandbox.Domain.Order.{Order, new_order}
use payment_gateway_sandbox.Store.Error.{
  validation, not_found, money_error, below_minimum, too_many_notes, receipt_too_long,
}
use payment_gateway_sandbox.Store.Db.{Env, Tx, ◌>>=◌, ◌>>◌, pure, lift, gets, throw_if, new_id}
use payment_gateway_sandbox.Store.Orders.{find_order, insert_order}
use payment_gateway_sandbox.Store.Listing.{list_orders}
use Prim.Native.String.{len}

abbrev pub min_amount_minor : ℤ
min_amount_minor = pos 100

abbrev pub max_list_limit : ℤ
max_list_limit = pos 200

pub record CreateOrderInput : Type 0 where
  pub amount_minor : ℤ
  pub currency : Currency
  pub receipt : Option String
  pub notes : List (String × String)

abbrev longer_than : ℕ → Option String → Bool
longer_than n none = false
longer_than n (some s) = ltb n (len s)

-- `OrderService::create`
unfoldable pub create_order : Env → ℕ → CreateOrderInput → Tx Order
unfolding new_id insert_order
create_order env merchant input = do
  throw_if (ltb_ℤ input.amount_minor min_amount_minor) (validation "amount" below_minimum)
  throw_if (ltb 15 (length input.notes)) (validation "notes" too_many_notes)
  throw_if (longer_than 40 input.receipt) (validation "receipt" receipt_too_long)
  amount ← lift money_error (new_non_negative input.amount_minor input.currency)
  id ← new_id env
  let order = new_order id merchant amount input.receipt input.notes env.now
  insert_order order
  pure order

-- `OrderService::get`
unfoldable pub get_order : ℕ → ℕ → Tx Order
get_order merchant id = do
  order ← find_order id
  throw_if (not (order.merchant_id == merchant)) (not_found "order")
  pure order

-- The limit that `OrderService::list` asks the store for: `clamp(1, MAX_LIST_LIMIT)`.
unfoldable pub list_limit : ℤ → ℤ
list_limit limit =
    if ltb_ℤ limit (pos 1)
    then pos 1
    else if ltb_ℤ max_list_limit limit
    then max_list_limit
    else limit

-- `OrderService::list`
unfoldable pub list_orders_page : ℕ → Option ℕ → ℤ → Tx (List Order)
unfolding list_limit
list_orders_page merchant before limit =
    gets (λ db. list_orders merchant before (list_limit limit) db)
