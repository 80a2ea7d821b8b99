-- ===== src/Api/Routes/Events.antt =====
-- The route of events (crates/api/routes/events.rs).
use payment_gateway_sandbox.Prelude.{ℕ, Option}
use payment_gateway_sandbox.Prelude.Bytes.{Bytes}
use payment_gateway_sandbox.Prelude.Result.{ok}
use payment_gateway_sandbox.Domain.ApiKey.{payments_read}
use payment_gateway_sandbox.Store.Db.{Event, gets}
use payment_gateway_sandbox.Store.Listing.{event_time, list_events}
use payment_gateway_sandbox.Api.Auth.Cache.{AuthCtx}
use payment_gateway_sandbox.Api.Auth.{require}
use payment_gateway_sandbox.Api.Handler.{Handler, checked, serve, reply}
use payment_gateway_sandbox.Api.Pagination.{
  PageSizes, ListParams, Page, resolve, fetch_limit, finish,
}

-- `list`
unfoldable pub list_page :
    (Bytes → Option ℕ)
    → (ℕ → Option Bytes)
    → PageSizes
    → AuthCtx
    → ListParams
    → Handler (Page Event)
unfolding finish fetch_limit
list_page parse_time format_time sizes auth params = checked (require payments_read auth) (λ _.
    checked (resolve parse_time sizes params) (λ page.
      serve (gets (λ db. list_events auth.merchant_id page.before (fetch_limit page) db))
        (λ rows. reply (ok (finish format_time event_time page rows)))))
