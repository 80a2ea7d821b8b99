-- ===== src/Domain/Money/Laws.antt =====
-- Checked addition, subtraction and negation, and the currency codes.
use payment_gateway_sandbox.Prelude.{◌≡◌, ◌≢◌, refl, arith, inr}
use payment_gateway_sandbox.Prelude.Int.{◌+ℤ◌, neg, IsI64, to_i64, to_i64-some, +ℤ_cancel, neg-neg}
use payment_gateway_sandbox.Prelude.Result.{ok, err}
use payment_gateway_sandbox.Domain.Money.{
  Currency, Currency_index_injective, inr, usd, eur, jpy, kwd, code, currency_from_str, Money,
  currency_mismatch, add, sub, negate,
}

-- Every code parses back to its currency.
pub currency_from_str-code : (c : Currency) → currency_from_str (code c) ≡ ok c
unfolding currency_from_str code
currency_from_str-code inr = refl
currency_from_str-code usd = refl
currency_from_str-code eur = refl
currency_from_str-code jpy = refl
currency_from_str-code kwd = refl

-- A sum that comes out is the exact sum, in the one currency of both, and it fits in 64 bits.
pub add_exact :
    (a b : Money) {r : Money}
    → add a b ≡ ok r
    → (a.currency ≡ b.currency)
      × (r.currency ≡ a.currency)
      × (r.minor ≡ a.minor +ℤ b.minor)
      × IsI64 r.minor
unfolding add
add_exact a b h = ground (arith, Currency_index_injective a.currency b.currency)

-- Amounts of two currencies are neither added nor subtracted, and the error names both.
pub add_currency_mismatch :
    (a b : Money)
    → a.currency ≢ b.currency
    → (add a b ≡ err (currency_mismatch a.currency b.currency))
      × (sub a b ≡ err (currency_mismatch a.currency b.currency))
unfolding add sub
add_currency_mismatch a b h = ground (arith, Currency_index_injective a.currency b.currency)

-- Where a sum with an amount of 64 bits comes out, subtraction gives that amount back.
pub sub-add : (a b : Money) {r : Money} → IsI64 a.minor → add a b ≡ ok r → sub r b ≡ ok a
unfolding sub
sub-add a b {r} fits h =
    let e = add_exact a b h in
    rw (e.2, +ℤ_cancel, to_i64-some a.minor fits) (ground (arith, e.0, e.1))

negate_exact :
    (a : Money) {r : Money}
    → negate a ≡ ok r
    → (r.currency ≡ a.currency) × (r.minor ≡ neg a.minor) × IsI64 r.minor
unfolding negate to_i64
negate_exact a h = ground (arith)

-- A negation of an amount of 64 bits, if it comes out, is turned back by a second one.
pub negate_involutive : (a : Money) {r : Money} → IsI64 a.minor → negate a ≡ ok r → negate r ≡ ok a
unfolding negate
negate_involutive a {r} fits h =
    let e = negate_exact a h in rw (e.1, neg-neg, to_i64-some a.minor fits) (ground (arith, e.0))
