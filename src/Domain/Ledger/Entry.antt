-- ===== src/Domain/Ledger/Entry.antt =====
-- One side of a transaction (ledger_entry.rs): a positive amount is a credit, a negative a debit.
use payment_gateway_sandbox.Prelude.{ℕ, Bool}
use payment_gateway_sandbox.Prelude.Int.{ℤ}
use payment_gateway_sandbox.Prelude.Result.{Result, ok, ◌>>=◌, ◌>>◌, bail_if, map_err}
use payment_gateway_sandbox.Domain.Money.{
  Currency, Money, money, negative, is_zero, is_negative, is_positive, negate,
}
use payment_gateway_sandbox.Domain.Ledger.Account.{LedgerError, zero_amount_entry, ledger_money}

pub record LedgerEntry : Type 0 where
  pub account_id : ℕ
  pub amount : Money

-- The guard that `credit` and `debit` share.
unfoldable pub check_magnitude : Money → Result (Unit {0}) LedgerError
unfolding is_zero is_negative
check_magnitude amount = do
  bail_if (is_zero amount) zero_amount_entry
  bail_if (is_negative amount) (ledger_money (negative amount.minor))

-- `LedgerEntry::credit`
unfoldable pub credit : ℕ → Money → Result LedgerEntry LedgerError
unfolding check_magnitude
credit account amount = do
  check_magnitude amount
  ok (record { account_id = account; amount = amount })

-- `LedgerEntry::debit`
unfoldable pub debit : ℕ → Money → Result LedgerEntry LedgerError
unfolding check_magnitude
debit account amount = do
  check_magnitude amount
  negated ← map_err ledger_money (negate amount)
  ok (record { account_id = account; amount = negated })

unfoldable pub from_signed : ℕ → Money → Result LedgerEntry LedgerError
unfolding is_zero
from_signed account amount = do
  bail_if (is_zero amount) zero_amount_entry
  ok (record { account_id = account; amount = amount })

abbrev pub entry_currency : LedgerEntry → Currency
entry_currency e = e.amount.currency

abbrev pub entry_minor : LedgerEntry → ℤ
entry_minor e = e.amount.minor

unfoldable pub is_credit : LedgerEntry → Bool
unfolding is_positive
is_credit e = is_positive e.amount

unfoldable pub is_debit : LedgerEntry → Bool
unfolding is_negative
is_debit e = is_negative e.amount

abbrev pub entry : ℕ → ℤ → Currency → LedgerEntry
entry account m c = record { account_id = account; amount = money m c }
