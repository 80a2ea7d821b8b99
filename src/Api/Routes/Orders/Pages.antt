-- ===== src/Api/Routes/Orders/Pages.antt =====
-- A merchant's orders, page by page.
use payment_gateway_sandbox.Prelude.{
  ℕ, suc, ◌≡◌, ◌≤◌, ap, ◌∙◌, refl, arith, true, Option, none, some,
}
use payment_gateway_sandbox.Prelude.Int.{pos, leb_ℤ, ◌+ℤ◌}
use payment_gateway_sandbox.Prelude.Lists.{length}
use payment_gateway_sandbox.Prelude.Bytes.{Bytes}
use payment_gateway_sandbox.Prelude.Result.{Result, ok}
use payment_gateway_sandbox.Domain.ApiKey.{orders_read}
use payment_gateway_sandbox.Domain.Order.{Order}
use payment_gateway_sandbox.Store.Db.{Db}
use payment_gateway_sandbox.Store.Listing.{
  order_time, orders_of, newest_first, newest_first-older, list_orders, listing,
}
use payment_gateway_sandbox.Engine.Orders.{list_orders_page, list_limit}
use payment_gateway_sandbox.Api.Error.{ApiError}
use payment_gateway_sandbox.Api.Auth.Scopes.{contains}
use payment_gateway_sandbox.Api.Auth.Cache.{AuthCtx}
use payment_gateway_sandbox.Api.Auth.{require}
use payment_gateway_sandbox.Api.Pagination.{
  PageRequest, PageSizes, Page, resolve, resolve_before, resolve_limit, fetch_limit,
}
use payment_gateway_sandbox.Api.Handler.{checked-ok}
use payment_gateway_sandbox.Api.Pagination.Walk.{Falling, walk, walk_from, page_of}
use payment_gateway_sandbox.Api.Routes.Orders.{list_page}

-- What a client gets for a limit and a cursor.
abbrev pub order_page :
    (Bytes → Option ℕ)
    → (ℕ → Option Bytes)
    → PageSizes
    → AuthCtx
    → Db
    → ℕ
    → Option Bytes
    → Result (Page Order) ApiError
order_page parse_time format_time sizes auth db n text =
    (list_page parse_time format_time sizes auth (record { limit = some (pos n); before = text })
      db).0

fetch_limit_lem :
    (n : ℕ) (before : Option ℕ)
    → n ≤ 199
    → fetch_limit (record { limit = pos n; before = before }) ≡ pos (suc n)
unfolding fetch_limit ◌+ℤ◌
fetch_limit_lem n before h = ground arith

list_limit_lem : (n : ℕ) → n ≤ 199 → list_limit (pos (suc n)) ≡ pos (suc n)
unfolding list_limit
list_limit_lem n h = ground arith

resolve_lem :
    (parse_time : Bytes → Option ℕ) (sizes : PageSizes) (n : ℕ) (text : Option Bytes)
    (before : Option ℕ)
    → 1 ≤ n
    → leb_ℤ (pos n) sizes.max_page_size ≡ true
    → resolve_before parse_time text ≡ ok before
    → resolve parse_time sizes (record { limit = some (pos n); before = text })
      ≡ ok (record { limit = pos n; before = before })
unfolding resolve resolve_limit
resolve_lem parse_time sizes n text before h m r =
    let low : leb_ℤ (pos 1) (pos n) ≡ true = ground arith in rw (low, m, r) refl

require_lem :
    (auth : AuthCtx) → contains auth.scopes orders_read ≡ true → require orders_read auth ≡ ok tt
unfolding require
require_lem auth h = rw h refl

order_page_lem :
    (parse_time : Bytes → Option ℕ) (format_time : ℕ → Option Bytes) (sizes : PageSizes)
    (auth : AuthCtx) (db : Db) (n : ℕ) (text : Option Bytes) (before : Option ℕ)
    → contains auth.scopes orders_read ≡ true
    → (1 ≤ n) × (n ≤ 199)
    → leb_ℤ (pos n) sizes.max_page_size ≡ true
    → resolve_before parse_time text ≡ ok before
    → order_page parse_time format_time sizes auth db n text
      ≡ ok (
          page_of format_time order_time n
            (newest_first order_time (orders_of auth.merchant_id db.orders))
            before)
unfolding list_page list_orders_page list_orders listing
order_page_lem parse_time format_time sizes auth db n text before s b m r =
    let request : PageRequest = record { limit = pos n; before = before } in
    ap (λ (x : Result (Page Order) ApiError × Db). x.0)
      (checked-ok (require orders_read auth) tt _ db (require_lem auth s)
        ∙ checked-ok (resolve parse_time sizes (record { limit = some (pos n); before = text }))
            request _ db (resolve_lem parse_time sizes n text before b.0 m r))
    ∙ rw
        (
          fetch_limit_lem n before b.1,
          list_limit_lem n b.1,
          newest_first-older order_time before (orders_of auth.merchant_id db.orders),
        )
        refl

-- A client with the scope for it that asks for pages of 1 to 199 orders, within the configured maximum, and
-- follows the cursors, comes to an end after at most one page more than there are orders, with every order of
-- the merchant once and the newest first: where no two of them have one time, and a printed time is read back.
pub walk-order_page :
    (parse_time : Bytes → Option ℕ) (format_time : ℕ → Option Bytes) (sizes : PageSizes)
    (auth : AuthCtx) (db : Db) (n : ℕ)
    → contains auth.scopes orders_read ≡ true
    → (1 ≤ n) × (n ≤ 199)
    → leb_ℤ (pos n) sizes.max_page_size ≡ true
    → ((t : ℕ) → (s : Bytes) × (format_time t ≡ some s) × (parse_time s ≡ some t))
    → Falling order_time (newest_first order_time (orders_of auth.merchant_id db.orders))
    → let all = newest_first order_time (orders_of auth.merchant_id db.orders) in
      walk (order_page parse_time format_time sizes auth db n) (suc (length all)) none
      ≡ some (ok all)
unfolding resolve_before
walk-order_page parse_time format_time sizes auth db n s b m dates f =
    let all = newest_first order_time (orders_of auth.merchant_id db.orders) in
    walk_from parse_time format_time order_time n all
      (order_page parse_time format_time sizes auth db n) (suc (length all)) none none b.0 dates
      (λ text before r. order_page_lem parse_time format_time sizes auth db n text before s b m r)
      refl f (omega arith)
