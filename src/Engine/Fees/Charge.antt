-- ===== src/Engine/Fees/Charge.antt =====
-- What `FeeSchedule::compute` charges: never an error on an order's amount, and to the unit.
use payment_gateway_sandbox.Prelude.{ℕ, ◌+◌, ◌*◌, ◌/◌, ◌≤◌, ◌<◌, ◌≡◌, refl, arith}
use payment_gateway_sandbox.Prelude.Int.{pos, to_i64-some}
use payment_gateway_sandbox.Prelude.Result.{ok}
use payment_gateway_sandbox.Domain.Money.{Currency, inr, money}
use payment_gateway_sandbox.Domain.Money.Percent.{half_up, percent-pos, +ℤ-pos}
use payment_gateway_sandbox.Engine.Fees.{FeeBreakdown, for_currency, compute}

-- The fixed part and the tax rate of a currency.
abbrev pub fixed_part : Currency → ℕ
fixed_part inr = 300
fixed_part _ = 30

abbrev pub tax_rate : Currency → ℕ
tax_rate inr = 18
tax_rate _ = 0

-- 2% of the amount, rounded half up, and the fixed part.
unfoldable pub base_fee : Currency → ℕ → ℕ
base_fee c m = half_up (m * 200) 10000 + fixed_part c

-- The tax on that, rounded half up.
unfoldable pub tax_fee : Currency → ℕ → ℕ
tax_fee c m = half_up (base_fee c m * tax_rate c) 100

abbrev breakdown : Currency → ℕ → FeeBreakdown
breakdown c m = record {
  base = pos (base_fee c m);
  tax = pos (tax_fee c m);
  total = pos (base_fee c m + tax_fee c m);
  currency = c;
}

pub fee_bounds :
    (c : Currency) (m : ℕ)
    → (base_fee c m ≤ m / 50 + 301) × (0 < base_fee c m) × (tax_fee c m ≤ m / 50 + 301)
unfolding base_fee tax_fee half_up
fee_bounds inr m = omega arith
fee_bounds _ m = omega arith

schedule :
    (c : Currency)
    → for_currency c ≡ record {
      percent_bps = pos 200;
      fixed_minor = pos (fixed_part c);
      tax_percent = pos (tax_rate c);
    }
unfolding for_currency
schedule inr = refl
schedule _ = refl

-- For every amount from 0 to i64::MAX, in every currency, the fee is computed without an overflow: the
-- base is 2% of the amount, rounded half up, and the fixed part, the tax is the rate on the base,
-- rounded half up, and the total is their sum.
pub compute-eq :
    (c : Currency) (m : ℕ)
    → m ≤ 9223372036854775807
    → compute (for_currency c) (money (pos m) c) ≡ ok (breakdown c m)
unfolding compute base_fee tax_fee
compute-eq c m h = rw schedule (
    ground (
      arith,
      fee_bounds c m,
      percent-pos m 200 10000 c,
      +ℤ-pos (half_up (m * 200) 10000) (fixed_part c),
      to_i64-some (pos (base_fee c m)),
      percent-pos (base_fee c m) (tax_rate c) 100 c,
      +ℤ-pos (base_fee c m) (tax_fee c m),
      to_i64-some (pos (base_fee c m + tax_fee c m)),
    ))
