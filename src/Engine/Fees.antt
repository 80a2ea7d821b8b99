-- ===== src/Engine/Fees.antt =====
-- Fee schedules (crates/engine/fees.rs) and the fee that a refund returns
-- (`proportional_fee_refund` in crates/engine/refund.rs, `FeeRefund` in crates/engine/ledger.rs).
pub mod Charge
pub mod Slices
use payment_gateway_sandbox.Prelude.{Bool, ◌&&◌, if◌then◌else◌}
use payment_gateway_sandbox.Prelude.Int.{ℤ, pos, ◌+ℤ◌, ◌-ℤ◌, eqb_ℤ, to_i64, wrap_i64}
use payment_gateway_sandbox.Prelude.Result.{Result, ok, err, ◌>>=◌, ok_or}
use payment_gateway_sandbox.Domain.Money.{
  Currency, inr, usd, eur, jpy, kwd, Money, money, MoneyError, overflow, percent,
}

pub record FeeSchedule : Type 0 where
  pub percent_bps : ℤ
  pub fixed_minor : ℤ
  pub tax_percent : ℤ

unfoldable pub for_currency : Currency → FeeSchedule
for_currency inr = record { percent_bps = pos 200; fixed_minor = pos 300; tax_percent = pos 18 }
for_currency _ = record { percent_bps = pos 200; fixed_minor = pos 30; tax_percent = pos 0 }

pub record FeeBreakdown : Type 0 where
  pub base : ℤ
  pub tax : ℤ
  pub total : ℤ
  pub currency : Currency

unfoldable pub compute : FeeSchedule → Money → Result FeeBreakdown MoneyError
compute s amount = do
  percent_part ← percent amount s.percent_bps (pos 10000)
  base ← ok_or (to_i64 (percent_part.minor +ℤ s.fixed_minor)) overflow
  tax ← percent (money base amount.currency) s.tax_percent (pos 100)
  total ← ok_or (to_i64 (base +ℤ tax.minor)) overflow
  ok (record { base = base; tax = tax.minor; total = total; currency = amount.currency })

pub record FeeRefund : Type 0 where
  pub base : ℤ
  pub tax : ℤ

-- `FeeRefund::total`, an unchecked sum
unfoldable pub refund_total : FeeRefund → ℤ
refund_total f = wrap_i64 (f.base +ℤ f.tax)

unfoldable pub refund_is_zero : FeeRefund → Bool
refund_is_zero f = eqb_ℤ f.base (pos 0) && eqb_ℤ f.tax (pos 0)

-- the closure `owed`: the part of a fee component that is due back at a refunded total
unfoldable pub owed : Money → ℤ → ℤ → Result ℤ MoneyError
owed payment_amount component refunded =
    if eqb_ℤ payment_amount.minor (pos 0) then ok (pos 0) else do
      m ← percent (money component payment_amount.currency) refunded payment_amount.minor
      ok m.minor

-- The two subtractions are unchecked.
unfoldable pub proportional_fee_refund : Money → ℤ → ℤ → Result FeeRefund MoneyError
proportional_fee_refund payment_amount old_total new_total = do
  fees ← compute (for_currency payment_amount.currency) payment_amount
  new_base ← owed payment_amount fees.base new_total
  old_base ← owed payment_amount fees.base old_total
  new_tax ← owed payment_amount fees.tax new_total
  old_tax ← owed payment_amount fees.tax old_total
  ok (record { base = wrap_i64 (new_base -ℤ old_base); tax = wrap_i64 (new_tax -ℤ old_tax) })
