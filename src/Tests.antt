-- ===== src/Tests.antt =====
-- The theorems at concrete inputs, and runs of the definitions.
mod Services
mod Postings
mod Jobs
mod Keys
mod Access
mod Requests
mod Deliveries
mod Signatures
mod Envelopes
mod Endpoints
mod Edges
mod Seeds
use payment_gateway_sandbox.Prelude.{
  ℕ, ◌+◌, ◌-◌, ◌≤◌, ◌<◌, ◌≡◌, ◌≢◌, ◌⊎◌, ◌↔◌, refl, arith, inl, inr, String, Bool, true, false,
  Option, none, some, List, [], ◌∷◌, ◌++◌,
}
use payment_gateway_sandbox.Prelude.Int.{ℤ, pos, negsuc, ◌+ℤ◌, ◌-ℤ◌, IsI64, to_i64, neg}
use payment_gateway_sandbox.Prelude.Lists.{All, length}
use payment_gateway_sandbox.Prelude.Result.{Result, ok, err}
use payment_gateway_sandbox.Domain.Money
use payment_gateway_sandbox.Domain.Money.{Currency, Money, money, code}
use payment_gateway_sandbox.Domain.Money.Laws.{
  currency_from_str-code, add_exact, add_currency_mismatch, sub-add, negate_involutive,
}
use payment_gateway_sandbox.Domain.Ledger.Account.{
  LedgerAccount, AccountType, unbalanced, is_merchant_scoped, gateway_clearing, merchant_pending,
  IsScoped, constructors-IsScoped, from_parts-constructors, account_type_from_str-account_type_str,
  for_merchant, for_platform, from_parts, account_type_str, account_type_from_str,
}
use payment_gateway_sandbox.Domain.Ledger.Entry.{LedgerEntry, entry}
use payment_gateway_sandbox.Domain.Ledger.Sums.{total, slot}
use payment_gateway_sandbox.Domain.Ledger.Transaction.{
  balanced, BalancedTransaction, payment_captured, Sums, sum_entries, add_to_slot, nonzero,
  sort_by_code, insert_by_code,
}
use payment_gateway_sandbox.Domain.Ledger.Balanced.{
  IsBalanced, balanced_sound, balanced_complete, balanced_imbalance, Fits,
}
use payment_gateway_sandbox.Domain.Card.Luhn.{luhn_detects_a_changed_digit}
use payment_gateway_sandbox.Domain.Card.{luhn_valid, nums_of, luhn_sum, luhn_value, rev_onto}
use payment_gateway_sandbox.Store.Db.{Posting}
use payment_gateway_sandbox.Store.Ledger.{must_balance, all_balance}
use payment_gateway_sandbox.Store.Ledger.Trigger.{must_balance_iff, trigger_never_fires}
use payment_gateway_sandbox.Engine.Fees.{FeeBreakdown, FeeRefund, for_currency, compute}
use payment_gateway_sandbox.Engine.Fees.Charge.{compute-eq, base_fee, tax_fee}
use payment_gateway_sandbox.Domain.Money.Percent.{half_up}
use payment_gateway_sandbox.Engine.Fees.Slices.{returned, slices_return_whole_fee}

abbrev minor_100 : Money
minor_100 = money (pos 10000) Money.inr

fees_100 :
    compute (for_currency Money.inr) minor_100
    ≡ ok (record { base = pos 500; tax = pos 90; total = pos 590; currency = Money.inr })
unfolding base_fee tax_fee half_up
fees_100 = compute-eq Money.inr 10000 (omega arith)

slices_example :
    returned minor_100 0 (3333 ∷ 3333 ∷ 3334 ∷ []) ≡ ok (record { base = pos 500; tax = pos 90 })
slices_example =
    slices_return_whole_fee Money.inr 10000 (3333 ∷ 3333 ∷ 3334 ∷ []) (omega arith) (omega arith)
      refl fees_100

-- A capture of 10000 from account 1 to account 2.
abbrev two_entries : List LedgerEntry
two_entries = entry 1 (negsuc 9999) Money.inr ∷ entry 2 (pos 10000) Money.inr ∷ []

two_entries-Fits : Fits (λ c. pos 0) two_entries
unfolding ◌+ℤ◌
two_entries-Fits = omega arith

two_entries-zero_sum : (c : Currency) → total c two_entries ≡ pos 0
unfolding ◌+ℤ◌
two_entries-zero_sum Money.inr = refl
two_entries-zero_sum _ = refl

two_entries-IsBalanced : IsBalanced two_entries
two_entries-IsBalanced = record { double_entry = omega arith; zero_sum = two_entries-zero_sum }

abbrev captured_txn : BalancedTransaction
captured_txn = record { kind = payment_captured; entries = two_entries }

two_entries-balanced : balanced payment_captured two_entries ≡ ok captured_txn
unfolding balanced ◌+ℤ◌ sum_entries add_to_slot nonzero to_i64
two_entries-balanced = refl

balanced_sound_example :
    (captured_txn.kind ≡ payment_captured)
    × (captured_txn.entries ≡ two_entries)
    × IsBalanced captured_txn.entries
balanced_sound_example = balanced_sound payment_captured two_entries two_entries-balanced

-- One paisa too much on the credit side.
abbrev off_by_one : List LedgerEntry
off_by_one = entry 1 (negsuc 9999) Money.inr ∷ entry 2 (pos 10001) Money.inr ∷ []

abbrev one_paisa : Sums
one_paisa = (Money.inr, pos 1) ∷ []

off_by_one-rejected : balanced payment_captured off_by_one ≡ err (unbalanced one_paisa)
unfolding balanced ◌+ℤ◌ sum_entries add_to_slot nonzero to_i64 sort_by_code insert_by_code code
off_by_one-rejected = refl

-- 4242 4242 4242 4242, whose last digit becomes a 3.
abbrev visa_prefix : List ℕ
visa_prefix = 52 ∷ 50 ∷ 52 ∷ 50 ∷ 52 ∷ 50 ∷ 52 ∷ 50 ∷ 52 ∷ 50 ∷ 52 ∷ 50 ∷ 52 ∷ 50 ∷ 52 ∷ []

visa-valid : luhn_valid (visa_prefix ++ 50 ∷ []) ≡ true
unfolding luhn_valid nums_of luhn_sum luhn_value rev_onto
visa-valid = refl

luhn_example : luhn_valid (visa_prefix ++ 51 ∷ []) ≡ false
luhn_example = luhn_detects_a_changed_digit visa_prefix [] 50 51 refl refl (omega arith) visa-valid

sum-ok : Money.add minor_100 (money (negsuc 499) Money.inr) ≡ ok (money (pos 9500) Money.inr)
unfolding Money.add Money.check_same_currency ◌+ℤ◌ to_i64
sum-ok = refl

abbrev posting : Posting
posting = record {
  id = 1;
  transaction = captured_txn;
  reference_type = "payment";
  reference_id = 7;
  created_at = 0;
}

two_entries-must_balance : all_balance (posting ∷ []) ≡ true
unfolding all_balance must_balance ◌+ℤ◌
two_entries-must_balance = refl

trigger_example : all_balance ((posting ∷ []) ++ posting ∷ []) ≡ true
trigger_example =
    trigger_never_fires payment_captured two_entries (posting ∷ []) posting two_entries-balanced
      two_entries-must_balance
