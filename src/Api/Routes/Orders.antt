-- ===== src/Api/Routes/Orders.antt =====
-- The routes of orders (crates/api/routes/orders.rs).
pub mod Pages
use payment_gateway_sandbox.Prelude.{ℕ, String, Option, none, some, List}
use payment_gateway_sandbox.Prelude.Int.{ℤ}
use payment_gateway_sandbox.Prelude.Bytes.{Bytes}
use payment_gateway_sandbox.Prelude.Result.{Result, ok, err}
use payment_gateway_sandbox.Domain.ApiKey.{orders_write, orders_read}
use payment_gateway_sandbox.Domain.Id
use payment_gateway_sandbox.Domain.Money.{Currency, MoneyError, currency_from_str}
use payment_gateway_sandbox.Domain.Order.{Order}
use payment_gateway_sandbox.Store.Db.{Env, Db}
use payment_gateway_sandbox.Store.Listing.{order_time}
use payment_gateway_sandbox.Engine.Orders.{
  CreateOrderInput, create_order, get_order, list_orders_page,
}
use payment_gateway_sandbox.Api.Error.{ApiError, invalid_request}
use payment_gateway_sandbox.Api.Auth.Cache.{AuthCtx}
use payment_gateway_sandbox.Api.Auth.{require}
use payment_gateway_sandbox.Api.Handler.{Handler, checked, serve, reply, path_id}
use payment_gateway_sandbox.Api.Pagination.{
  PageSizes, ListParams, Page, resolve, fetch_limit, finish,
}

pub record CreateOrderRequest : Type 0 where
  pub amount : ℤ
  pub currency : String
  pub receipt : Option String
  pub notes : List (String × String)

abbrev read_currency : Result Currency MoneyError → Result Currency ApiError
read_currency (ok c) = ok c
read_currency (err _) = err (invalid_request "currency_invalid" (some "currency"))

unfoldable pub create : Env → AuthCtx → CreateOrderRequest → Handler Order
create env auth req = checked (require orders_write auth) (λ _.
    checked (read_currency (currency_from_str req.currency)) (λ currency.
      serve
        (create_order env auth.merchant_id (record {
          amount_minor = req.amount;
          currency = currency;
          receipt = req.receipt;
          notes = req.notes;
        }))
        (λ o. reply (ok o))))

unfoldable pub retrieve : (Bytes → Option ℕ) → AuthCtx → Bytes → Handler Order
retrieve parse_uuid auth id = checked (require orders_read auth) (λ _.
    checked (path_id parse_uuid Id.order id)
      (λ order_id. serve (get_order auth.merchant_id order_id) (λ o. reply (ok o))))

-- `list`
unfoldable pub list_page :
    (Bytes → Option ℕ)
    → (ℕ → Option Bytes)
    → PageSizes
    → AuthCtx
    → ListParams
    → Handler (Page Order)
unfolding finish fetch_limit
list_page parse_time format_time sizes auth params = checked (require orders_read auth) (λ _.
    checked (resolve parse_time sizes params) (λ page.
      serve (list_orders_page auth.merchant_id page.before (fetch_limit page))
        (λ rows. reply (ok (finish format_time order_time page rows)))))
