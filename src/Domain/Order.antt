-- ===== src/Domain/Order.antt =====
-- Orders (crates/domain/src/order.rs). Ids and times are numbers; the maps of notes are lists.
use payment_gateway_sandbox.Prelude.{ℕ, String, Bool, Option, List, if◌then◌else◌}
use payment_gateway_sandbox.Prelude.Int.{ℤ, pos, ◌-ℤ◌, ltb_ℤ, leb_ℤ, wrap_i64}
use payment_gateway_sandbox.Prelude.Result.{Result, ok, ◌>>=◌}
use payment_gateway_sandbox.Domain.Money.{Money}
use payment_gateway_sandbox.Domain.OrderStatus.{
  OrderStatus, InvalidOrderTransition, created, attempted, paid, expired, transition,
}

pub record Order : Type 0 where
  pub id : ℕ
  pub merchant_id : ℕ
  pub amount : Money
  pub amount_paid : ℤ
  pub receipt : Option String
  pub notes : List (String × String)
  pub status : OrderStatus
  pub created_at : ℕ

-- `Order::new`; the id is the one that `OrderId::new` draws.
abbrev pub new_order : ℕ → ℕ → Money → Option String → List (String × String) → ℕ → Order
new_order id merchant amount receipt notes now = record {
  id = id;
  merchant_id = merchant;
  amount = amount;
  amount_paid = pos 0;
  receipt = receipt;
  notes = notes;
  status = created;
  created_at = now;
}

unfoldable pub mark_attempted : Order → Result Order InvalidOrderTransition
mark_attempted o = do s ← transition o.status attempted; ok (record o { status = s })

unfoldable pub mark_paid : ℤ → Order → Result Order InvalidOrderTransition
mark_paid amount_paid o = do
  s ← transition o.status paid
  ok (record o { status = s; amount_paid = amount_paid })

unfoldable pub mark_expired : Order → Result Order InvalidOrderTransition
mark_expired o = do s ← transition o.status expired; ok (record o { status = s })

unfoldable pub is_fully_paid : Order → Bool
is_fully_paid o = leb_ℤ o.amount.minor o.amount_paid

-- `(a - b).max(0)`, with the unchecked subtraction
abbrev pub floor_diff : ℤ → ℤ → ℤ
floor_diff a b = let d = wrap_i64 (a -ℤ b) in if ltb_ℤ d (pos 0) then pos 0 else d

unfoldable pub amount_due : Order → ℤ
amount_due o = floor_diff o.amount.minor o.amount_paid
