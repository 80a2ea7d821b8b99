-- ===== src/Tests/Services.antt =====
-- The theorems on the services at a concrete state.
use payment_gateway_sandbox.Prelude.{ℕ, ◌+◌, ◌≤◌, ◌<◌, ◌≡◌, refl, arith, none, some, [], ◌∷◌}
use payment_gateway_sandbox.Prelude.Int.{pos, ◌+ℤ◌, ◌-ℤ◌, to_i64, wrap_i64}
use payment_gateway_sandbox.Prelude.Result.{ok}
use payment_gateway_sandbox.Domain.Money.{money, inr}
use payment_gateway_sandbox.Domain.OrderStatus as Status
use payment_gateway_sandbox.Domain.PaymentStatus.{captured}
use payment_gateway_sandbox.Domain.Order.{Order}
use payment_gateway_sandbox.Domain.Payment.{Payment, card_method}
use payment_gateway_sandbox.Store.Db.{Db, Env, Refund, RefundStatus, processed, failed}
use payment_gateway_sandbox.Store.Refunds.{refunded_sum, sum_for_payment}
use payment_gateway_sandbox.Engine.Refunds.{refund_amount, unwrap_or}
use payment_gateway_sandbox.Engine.Refunds.Cap.{refund_within_payment}

abbrev env : Env
env = record {
  now = 1000;
  year_month = λ t. record { year = 2026; month = 7 };
  card_fingerprint = λ n. "fp";
  uuid = λ n. 100 + n;
}

-- A payment of 10000, of which 3000 has been refunded; a failed refund does not count.
abbrev payment : Payment
payment = record {
  id = 5;
  order_id = 4;
  merchant_id = 9;
  amount = money (pos 10000) inr;
  amount_refunded = pos 3000;
  method = card_method;
  card = none;
  status = captured;
  error_code = none;
  error_description = none;
  notes = [];
  created_at = 0;
  captured_at = some 1;
}

abbrev order : Order
order = record {
  id = 4;
  merchant_id = 9;
  amount = money (pos 10000) inr;
  amount_paid = pos 10000;
  receipt = none;
  notes = [];
  status = Status.paid;
  created_at = 0;
}

abbrev refund : ℕ → ℕ → RefundStatus → Refund
refund id m s = record {
  id = id;
  payment_id = 5;
  merchant_id = 9;
  amount = money (pos m) inr;
  reason = none;
  status = s;
  created_at = 2;
  processed_at = some 2;
}

abbrev db : Db
db = record {
  orders = order ∷ [];
  payments = payment ∷ [];
  attempts = [];
  refunds = refund 6 3000 processed ∷ refund 7 500 failed ∷ [];
  accounts = [];
  postings = [];
  endpoints = [];
  events = [];
  deliveries = [];
  jobs = [];
  drawn = 0;
}

refunded-3000 : refunded_sum 5 db.refunds ≡ pos 3000
unfolding refunded_sum ◌+ℤ◌
refunded-3000 = refl

rest-refunded : (refund_amount payment none db).0 ≡ ok (pos 3000, pos 7000)
unfolding refund_amount sum_for_payment refunded_sum ◌+ℤ◌ ◌-ℤ◌ to_i64 wrap_i64
rest-refunded = refl

within_example :
    (pos 3000 ≡ pos 3000)
    × (pos 7000 ≡ unwrap_or none (pos 7000))
    × ((k : ℕ) × (pos 7000 ≡ pos k) × (0 < k) × (3000 + k ≤ 10000))
within_example =
    refund_within_payment payment none db 10000 3000 refl (omega arith) refunded-3000 (omega arith)
      rest-refunded
