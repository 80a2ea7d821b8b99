-- ===== src/Domain/Ledger/Transaction.antt =====
-- Balanced transactions and their builder (ledger_transaction.rs). The `HashMap` of sums is an
-- association list in insertion order; what leaves the function is sorted, so the order is not seen.
use payment_gateway_sandbox.Prelude.{
  ℕ, Bool, true, false, List, [], ◌∷◌, ◌++◌, ltb, ◌=?◌, if◌then◌else◌, ◌&&◌,
}
use payment_gateway_sandbox.Prelude.Lists.{length}
use payment_gateway_sandbox.Prelude.Int.{ℤ, pos, ◌+ℤ◌, eqb_ℤ, to_i64}
use payment_gateway_sandbox.Prelude.Result.{Result, ok, err, ◌>>=◌, ok_or}
use payment_gateway_sandbox.Domain.Money.{Currency, Currency_enum, code, Money}
use payment_gateway_sandbox.Domain.Ledger.Account.{
  LedgerError, too_few_entries, unbalanced, ledger_overflow,
}
use payment_gateway_sandbox.Domain.Ledger.Entry.{
  LedgerEntry, credit, debit, is_credit, entry_currency, entry_minor,
}
use Prim.Native.Nat.{Ordering}
use Prim.Native.String.{compare}

pub data LedgerTransactionKind : Type 0 where
  payment_captured fee_charged refund_issued fee_refunded : LedgerTransactionKind
  dispute_opened dispute_won dispute_lost funds_released : LedgerTransactionKind
  payout_paid reserve_held reserve_released : LedgerTransactionKind

abbrev pub Sums : Type 0
Sums = List (Currency × ℤ)

-- `sums.entry(c).or_insert(0)` and the checked addition to it.
unfoldable pub add_to_slot : Currency → ℤ → Sums → Result Sums LedgerError
unfolding to_i64
add_to_slot c x [] = do v ← ok_or (to_i64 (pos 0 +ℤ x)) ledger_overflow; ok ((c, v) ∷ [])
add_to_slot c x ((d, t) ∷ s) =
    if d =? c
    then (do v ← ok_or (to_i64 (t +ℤ x)) ledger_overflow; ok ((d, v) ∷ s))
    else (do rest ← add_to_slot c x s; ok ((d, t) ∷ rest))

-- the loop over the entries
unfoldable pub sum_entries : List LedgerEntry → Sums → Result Sums LedgerError
sum_entries [] s = ok s
sum_entries (e ∷ es) s = do s' ← add_to_slot (entry_currency e) (entry_minor e) s; sum_entries es s'

-- `filter(|&(_, total)| total != 0)`
unfoldable pub nonzero : Sums → Sums
nonzero [] = []
nonzero ((c, t) ∷ s) = if eqb_ℤ t (pos 0) then nonzero s else (c, t) ∷ nonzero s

-- `sort_by_key(|(c, _)| c.code())`
abbrev pub is_after : Currency → Currency → Bool
unfolding code
is_after c d = elim (compare (code c) (code d)) [ Ordering.gt ↦ true | _ ↦ false ]

unfoldable pub insert_by_code : Currency → ℤ → Sums → Sums
insert_by_code c t [] = (c, t) ∷ []
insert_by_code c t ((d, u) ∷ s) =
    if is_after d c then (c, t) ∷ (d, u) ∷ s else (d, u) ∷ insert_by_code c t s

unfoldable pub sort_by_code : Sums → Sums
unfolding insert_by_code
sort_by_code [] = []
sort_by_code ((c, t) ∷ s) = insert_by_code c t (sort_by_code s)

pub record BalancedTransaction : Type 0 where
  pub kind : LedgerTransactionKind
  pub entries : List LedgerEntry

-- `if !unbalanced.is_empty()`
abbrev pub reject_unbalanced : Sums → BalancedTransaction → Result BalancedTransaction LedgerError
reject_unbalanced [] t = ok t
reject_unbalanced (p ∷ s) t = err (unbalanced (sort_by_code (p ∷ s)))

-- `BalancedTransaction::new`
unfoldable pub balanced :
    LedgerTransactionKind → List LedgerEntry → Result BalancedTransaction LedgerError
balanced kind entries =
    if ltb (length entries) 2 then err (too_few_entries (length entries)) else (do
      sums ← sum_entries entries []
      reject_unbalanced (nonzero sums) (record { kind = kind; entries = entries }))

abbrev contains : Currency → List Currency → Bool
contains c [] = false
contains c (d ∷ ds) = if d =? c then true else contains c ds

abbrev currencies_from : List LedgerEntry → List Currency → List Currency
currencies_from [] seen = seen
currencies_from (e ∷ es) seen =
    currencies_from es
      (if contains (entry_currency e) seen then seen else seen ++ entry_currency e ∷ [])

-- `BalancedTransaction::currencies`
unfoldable pub currencies : BalancedTransaction → List Currency
currencies t = currencies_from t.entries []

-- The sum of the credits in one currency, by the plain `Iterator::sum`; a sum that fits is exact.
unfoldable pub credited : Currency → List LedgerEntry → ℤ
unfolding is_credit
credited c [] = pos 0
credited c (e ∷ es) =
    (if entry_currency e =? c && is_credit e then entry_minor e else pos 0) +ℤ credited c es

-- `BalancedTransaction::total_credited`
unfoldable pub total_credited : BalancedTransaction → Currency → ℤ
unfolding credited
total_credited t c = credited c t.entries

pub record TransactionBuilder : Type 0 where
  pub kind : LedgerTransactionKind
  pub entries : List LedgerEntry

-- `TransactionBuilder::new`
abbrev pub builder : LedgerTransactionKind → TransactionBuilder
builder k = record { kind = k; entries = [] }

-- `TransactionBuilder::entry`
abbrev pub push_entry : TransactionBuilder → LedgerEntry → TransactionBuilder
push_entry b e = record b { entries = b.entries ++ e ∷ [] }

-- `TransactionBuilder::credit`
unfoldable pub push_credit : ℕ → Money → TransactionBuilder → Result TransactionBuilder LedgerError
push_credit account amount b = do e ← credit account amount; ok (push_entry b e)

-- `TransactionBuilder::debit`
unfoldable pub push_debit : ℕ → Money → TransactionBuilder → Result TransactionBuilder LedgerError
push_debit account amount b = do e ← debit account amount; ok (push_entry b e)

unfoldable pub build : TransactionBuilder → Result BalancedTransaction LedgerError
build b = balanced b.kind b.entries
