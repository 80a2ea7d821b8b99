-- ===== src/Api/Routes/Refunds.antt =====
-- The routes of refunds (crates/api/routes/refunds.rs).
use payment_gateway_sandbox.Prelude.{ℕ, String, Option, List}
use payment_gateway_sandbox.Prelude.Int.{ℤ}
use payment_gateway_sandbox.Prelude.Bytes.{Bytes}
use payment_gateway_sandbox.Prelude.Result.{ok}
use payment_gateway_sandbox.Domain.ApiKey.{refunds_write, payments_read}
use payment_gateway_sandbox.Domain.Id
use payment_gateway_sandbox.Store.Db.{Env, Refund}
use payment_gateway_sandbox.Engine.Refunds.{create_refund, get_refund, list_for_payment}
use payment_gateway_sandbox.Api.Auth.Cache.{AuthCtx}
use payment_gateway_sandbox.Api.Auth.{require}
use payment_gateway_sandbox.Api.Handler.{Handler, checked, serve, reply, path_id}

pub record CreateRefundRequest : Type 0 where
  pub payment_id : Bytes
  pub amount : Option ℤ
  pub reason : Option String

unfoldable pub create : Env → (Bytes → Option ℕ) → AuthCtx → CreateRefundRequest → Handler Refund
create env parse_uuid auth req = checked (require refunds_write auth) (λ _.
    checked (path_id parse_uuid Id.payment req.payment_id) (λ payment_id.
      serve
        (create_refund env auth.merchant_id
          (record { payment_id = payment_id; amount_minor = req.amount; reason = req.reason }))
        (λ r. reply (ok r))))

unfoldable pub retrieve : (Bytes → Option ℕ) → AuthCtx → Bytes → Handler Refund
retrieve parse_uuid auth id = checked (require payments_read auth) (λ _.
    checked (path_id parse_uuid Id.refund id)
      (λ refund_id. serve (get_refund auth.merchant_id refund_id) (λ r. reply (ok r))))

-- `list`; every refund of the payment is on the one page.
unfoldable pub list_refunds : (Bytes → Option ℕ) → AuthCtx → Bytes → Handler (List Refund)
list_refunds parse_uuid auth payment_text = checked (require payments_read auth) (λ _.
    checked (path_id parse_uuid Id.payment payment_text)
      (λ payment_id. serve (list_for_payment auth.merchant_id payment_id) (λ rs. reply (ok rs))))
