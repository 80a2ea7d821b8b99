-- ===== src/Domain/Money.antt =====
-- Money and currencies (crates/domain/src/money.rs): an `i64` count of minor units, with checked
-- arithmetic.
pub mod Percent
pub mod Laws
use payment_gateway_sandbox.Prelude.{
  ℕ, ◌+◌, String, Bool, true, false, ◌≡◌, refl, arith, Enum, ◌=?◌, if◌then◌else◌, ltb,
}
use payment_gateway_sandbox.Prelude.Int.{
  ℤ, pos, ◌+ℤ◌, ◌-ℤ◌, ◌*ℤ◌, neg, quot, ltb_ℤ, leb_ℤ, eqb_ℤ, to_i64,
}
use payment_gateway_sandbox.Prelude.Result.{Result, ok, err, ◌>>=◌, ◌>>◌, ok_or, bail_if}
use text.Mathlib.Text.{◌==◌ as str_eq}

pub data Currency : Type 0 where
  inr usd eur jpy kwd : Currency

abbrev pub Currency_index : Currency → ℕ
Currency_index inr = 0
Currency_index usd = 1
Currency_index eur = 2
Currency_index jpy = 3
Currency_index kwd = 4

pub Currency_index_injective : (a b : Currency) → Currency_index a ≡ Currency_index b → a ≡ b
Currency_index_injective a b h = ground arith

instance abbrev pub Currency_enum : Enum Currency
Currency_enum = record {
  discriminant = Currency_index;
  discriminant_injective = Currency_index_injective;
}

unfoldable pub exponent : Currency → ℕ
exponent inr = 2
exponent usd = 2
exponent eur = 2
exponent jpy = 0
exponent kwd = 3

-- `Currency::code`, which `Display` prints too
unfoldable pub code : Currency → String
code inr = "INR"
code usd = "USD"
code eur = "EUR"
code jpy = "JPY"
code kwd = "KWD"

pub data MoneyError : Type 0 where
  currency_mismatch : Currency → Currency → MoneyError
  overflow : MoneyError
  negative : ℤ → MoneyError
  unknown_currency : String → MoneyError

-- `Currency::from_str`
unfoldable pub currency_from_str : String → Result Currency MoneyError
currency_from_str s =
    if str_eq s "INR"
    then ok inr
    else if str_eq s "USD"
    then ok usd
    else if str_eq s "EUR"
    then ok eur
    else if str_eq s "JPY"
    then ok jpy
    else if str_eq s "KWD"
    then ok kwd
    else err (unknown_currency s)

pub record Money : Type 0 where
  pub minor : ℤ
  pub currency : Currency

-- `Money::new`
abbrev pub money : ℤ → Currency → Money
money m c = record { minor = m; currency = c }

unfoldable pub new_non_negative : ℤ → Currency → Result Money MoneyError
new_non_negative m c = if ltb_ℤ m (pos 0) then err (negative m) else ok (money m c)

-- `Money::zero`
abbrev pub zero_money : Currency → Money
zero_money c = money (pos 0) c

unfoldable pub is_zero : Money → Bool
is_zero m = eqb_ℤ m.minor (pos 0)

unfoldable pub is_negative : Money → Bool
is_negative m = ltb_ℤ m.minor (pos 0)

unfoldable pub is_positive : Money → Bool
is_positive m = ltb_ℤ (pos 0) m.minor

unfoldable pub check_same_currency : Money → Money → Result (Unit {0}) MoneyError
check_same_currency a b =
    if a.currency =? b.currency then ok tt else err (currency_mismatch a.currency b.currency)

unfoldable pub add : Money → Money → Result Money MoneyError
unfolding check_same_currency to_i64
add a b = do
  check_same_currency a b
  m ← ok_or (to_i64 (a.minor +ℤ b.minor)) overflow
  ok (money m a.currency)

unfoldable pub sub : Money → Money → Result Money MoneyError
unfolding check_same_currency to_i64
sub a b = do
  check_same_currency a b
  m ← ok_or (to_i64 (a.minor -ℤ b.minor)) overflow
  ok (money m a.currency)

-- `Money::negate`
unfoldable pub negate : Money → Result Money MoneyError
negate a = do m ← ok_or (to_i64 (neg a.minor)) overflow; ok (money m a.currency)

-- The rounded quotient in `percent`. Its numbers stay within 127 bits, so the `i128` operations of
-- the source are exact.
unfoldable pub round_quot : ℤ → ℤ → ℤ
round_quot numer denom =
    if leb_ℤ (pos 0) numer
    then quot (numer +ℤ quot denom (pos 2)) denom
    else quot (numer -ℤ quot denom (pos 2)) denom

unfoldable pub percent : Money → ℤ → ℤ → Result Money MoneyError
percent a numerator denominator = do
  bail_if (eqb_ℤ denominator (pos 0)) overflow
  m ← ok_or (to_i64 (round_quot (a.minor *ℤ numerator) denominator)) overflow
  ok (money m a.currency)
