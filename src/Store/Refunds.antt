-- ===== src/Store/Refunds.antt =====
-- Refund persistence (crates/store/src/refund.rs).
use payment_gateway_sandbox.Prelude.{
  ℕ, Bool, true, false, not, Option, none, some, List, [], ◌∷◌, ◌++◌, ◌&&◌, ◌==◌, leb,
  if◌then◌else◌,
}
use payment_gateway_sandbox.Prelude.Int.{ℤ, pos, ◌+ℤ◌, ltb_ℤ, to_i64}
use payment_gateway_sandbox.Store.Error.{check_violation, database, store_error}
use payment_gateway_sandbox.Store.Db.{
  Tx, ◌>>=◌, ◌>>◌, pure, throw, gets, modify, throw_if, Refund, RefundStatus, failed,
}
use payment_gateway_sandbox.Store.Orders.{or_not_found}
use payment_gateway_sandbox.Store.Rows.{order_by, find_row, update_rows}

abbrev pub refund_id_of : Refund → ℕ
refund_id_of r = r.id

-- `insert`, with the CHECK `refund_amount_positive`
unfoldable pub insert_refund : Refund → Tx (Unit {0})
insert_refund r = do
  throw_if (not (ltb_ℤ (pos 0) r.amount.minor))
      (store_error (check_violation "refund_amount_positive"))
  modify (λ db. record db { refunds = db.refunds ++ r ∷ [] })

-- `status <> 'failed'`
abbrev counts : RefundStatus → Bool
counts failed = false
counts _ = true

-- `SUM(amount_minor)` over the refunds of a payment that have not failed, 0 if there is none
unfoldable pub refunded_sum : ℕ → List Refund → ℤ
refunded_sum payment [] = pos 0
refunded_sum payment (r ∷ rs) =
    (if r.payment_id == payment && counts r.status then r.amount.minor else pos 0)
    +ℤ refunded_sum payment rs

abbrev as_bigint : Option ℤ → Tx ℤ
as_bigint none = throw (store_error database)
as_bigint (some a) = pure a

-- `sum_for_payment`; the cast to bigint fails on a sum that does not fit.
unfoldable pub sum_for_payment : ℕ → Tx ℤ
sum_for_payment payment = do as_bigint (to_i64 (← gets (λ db. refunded_sum payment db.refunds)))

-- `find_by_id`
unfoldable pub find_refund : ℕ → Tx Refund
find_refund id = do or_not_found "refund" (← gets (λ db. find_row refund_id_of id db.refunds))

-- `list_for_payment`, the latest first
unfoldable pub rows_for_payment : ℕ → List Refund → List Refund
rows_for_payment payment [] = []
rows_for_payment payment (r ∷ rs) =
    if r.payment_id == payment then r ∷ rows_for_payment payment rs else rows_for_payment payment rs

unfoldable pub refunds_of : ℕ → List Refund → List Refund
refunds_of payment rs =
    order_by (λ a b. leb b.created_at a.created_at) (rows_for_payment payment rs)

abbrev pub with_refund_status : RefundStatus → Option ℕ → Refund → Refund
with_refund_status status at r = record r { status = status; processed_at = at }

-- `update_status`, which says nothing of an id that no row has
unfoldable pub update_refund_status : ℕ → RefundStatus → Option ℕ → Tx (Unit {0})
update_refund_status id status at = modify (λ db. record db {
  refunds = update_rows refund_id_of id (with_refund_status status at) db.refunds;
})
