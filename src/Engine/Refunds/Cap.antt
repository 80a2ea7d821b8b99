-- ===== src/Engine/Refunds/Cap.antt =====
-- The guards of `RefundService::create` on the amount.
use payment_gateway_sandbox.Prelude.{
  ℕ, ◌+◌, ◌-◌, ◌≤◌, ◌<◌, ◌≡◌, ◌∙◌, refl, arith, true, Option, some,
}
use payment_gateway_sandbox.Prelude.Int.{
  ℤ, pos, negsuc, -ℤ-pos, to_i64-some, wrap_i64-eq, leb_ℤ, ltb_ℤ,
}
use payment_gateway_sandbox.Prelude.Result.{ok}
use payment_gateway_sandbox.Domain.Payment.{Payment}
use payment_gateway_sandbox.Store.Error.{
  validation, already_fully_refunded, not_greater_than_zero, exceeds_refundable,
}
use payment_gateway_sandbox.Store.Db.{Db, Tx, ◌>>◌, pure, throw_if}
use payment_gateway_sandbox.Store.Refunds.{sum_for_payment, refunded_sum}
use payment_gateway_sandbox.Engine.Refunds.{refund_amount, unwrap_or}

-- The guards, on what remains as a natural number.
guarded : ℕ → ℕ → ℤ → Tx (ℤ × ℤ)
guarded old remaining amount = do
  throw_if (leb_ℤ (pos remaining) (pos 0)) (validation "payment" already_fully_refunded)
  throw_if (leb_ℤ amount (pos 0)) (validation "amount" not_greater_than_zero)
  throw_if (ltb_ℤ (pos remaining) amount) (validation "amount" (exceeds_refundable (pos remaining)))
  pure (pos old, amount)

sum_for_payment-eq :
    (payment old : ℕ) (db : Db)
    → refunded_sum payment db.refunds ≡ pos old
    → old ≤ 9223372036854775807
    → sum_for_payment payment db ≡ (ok (pos old), db)
unfolding sum_for_payment
sum_for_payment-eq payment old db h fits = rw (h, to_i64-some (pos old) (fits, omega arith)) refl

refund_amount-guarded :
    (p : Payment) (requested : Option ℤ) (db : Db) (m old : ℕ)
    → p.amount.minor ≡ pos m
    → m ≤ 9223372036854775807
    → refunded_sum p.id db.refunds ≡ pos old
    → old ≤ m
    → refund_amount p requested db ≡ guarded old (m - old) (unwrap_or requested (pos (m - old))) db
unfolding refund_amount guarded
refund_amount-guarded p requested db m old hm fits hs le =
    rw
      (
        sum_for_payment-eq p.id old db hs (omega arith),
        hm,
        -ℤ-pos m old le,
        wrap_i64-eq (pos (m - old)) (omega arith, omega arith),
      )
      refl

guarded-ok :
    (old remaining : ℕ) (amount : ℤ) (db : Db) {a : ℤ × ℤ}
    → (guarded old remaining amount db).0 ≡ ok a
    → (a.0 ≡ pos old)
      × (a.1 ≡ amount)
      × (ltb_ℤ (pos 0) amount ≡ true)
      × (leb_ℤ amount (pos remaining) ≡ true)
unfolding guarded
guarded-ok old remaining amount db h = ground arith

positive : (a : ℤ) → ltb_ℤ (pos 0) a ≡ true → (k : ℕ) × (a ≡ pos k) × (0 < k)
positive (pos k) h = (k, refl, ground arith)
positive (negsuc n) h = ground arith

-- On a payment of `m`, of 64 bits, of which `old`, at most `m`, has been refunded, the guards let through only a positive amount
-- that, with what is already refunded, stays within the payment; it is the amount requested, or all
-- that remains where none is.
pub refund_within_payment :
    (p : Payment) (requested : Option ℤ) (db : Db) (m old : ℕ) {r a : ℤ}
    → p.amount.minor ≡ pos m
    → m ≤ 9223372036854775807
    → refunded_sum p.id db.refunds ≡ pos old
    → old ≤ m
    → (refund_amount p requested db).0 ≡ ok (r, a)
    → (r ≡ pos old)
      × (a ≡ unwrap_or requested (pos (m - old)))
      × ((k : ℕ) × (a ≡ pos k) × (0 < k) × (old + k ≤ m))
refund_within_payment p requested db m old {r} {a} hm fits hs le h =
    let (er, ea, low, high) =
      guarded-ok old (m - old) (unwrap_or requested (pos (m - old))) db
        (rw (refund_amount-guarded p requested db m old hm fits hs le) at h) in
    let (k, ek, lt) = positive (unwrap_or requested (pos (m - old))) low in
    (er, ea, (k, ea ∙ ek, lt, ground arith))

-- Every positive amount that, with what has been refunded, stays within a payment of 64 bits is let
-- through, and the state is left as it was.
pub refund_of_rest_accepted :
    (p : Payment) (db : Db) (m old k : ℕ)
    → p.amount.minor ≡ pos m
    → m ≤ 9223372036854775807
    → refunded_sum p.id db.refunds ≡ pos old
    → 0 < k
    → old + k ≤ m
    → refund_amount p (some (pos k)) db ≡ (ok (pos old, pos k), db)
unfolding guarded
refund_of_rest_accepted p db m old k hm fits hs lt le =
    refund_amount-guarded p (some (pos k)) db m old hm fits hs (omega arith) ∙ ground arith
