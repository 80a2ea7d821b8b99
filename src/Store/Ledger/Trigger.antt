-- ===== src/Store/Ledger/Trigger.antt =====
-- The deferred trigger of the ledger and the type of balanced transactions ask for the same.
use payment_gateway_sandbox.Prelude.{
  ◌≡◌, ◌↔◌, refl, arith, Bool, true, false, List, [], ◌∷◌, ◌++◌, ltb, ◌&&◌, not,
}
use payment_gateway_sandbox.Prelude.Lists.{length}
use payment_gateway_sandbox.Prelude.Int.{ℤ, pos, eqb_ℤ, eq_of_parts}
use payment_gateway_sandbox.Prelude.Result.{ok}
use payment_gateway_sandbox.Domain.Money.{Currency, inr, usd, eur, jpy, kwd}
use payment_gateway_sandbox.Domain.Ledger.Entry.{LedgerEntry}
use payment_gateway_sandbox.Domain.Ledger.Sums.{total}
use payment_gateway_sandbox.Domain.Ledger.Balanced.{IsBalanced, balanced_sound}
use payment_gateway_sandbox.Domain.Ledger.Transaction.{LedgerTransactionKind, balanced}
use payment_gateway_sandbox.Store.Db.{Posting}
use payment_gateway_sandbox.Store.Ledger.{must_balance, all_balance}

zero_test : (a : ℤ) → eqb_ℤ a (pos 0) ≡ true → a ≡ pos 0
zero_test a h = eq_of_parts a (pos 0) (ground arith)

by_currency : (P : Currency → Type 0) → P inr → P usd → P eur → P jpy → P kwd → (c : Currency) → P c
by_currency P i u e j k inr = i
by_currency P i u e j k usd = u
by_currency P i u e j k eur = e
by_currency P i u e j k jpy = j
by_currency P i u e j k kwd = k

and-true : (a b : Bool) → a && b ≡ true → (a ≡ true) × (b ≡ true)
and-true true b h = (refl, h)
and-true false b h = cc

-- The five sums that the trigger compares with zero, and the number of entries.
accepted : (es : List LedgerEntry) → must_balance es ≡ true → IsBalanced es
unfolding must_balance
accepted es h =
    let (long, h1) = and-true (not (ltb (length es) 2)) _ h in
    let (r, h2) = and-true (eqb_ℤ (total inr es) (pos 0)) _ h1 in
    let (u, h3) = and-true (eqb_ℤ (total usd es) (pos 0)) _ h2 in
    let (e, h4) = and-true (eqb_ℤ (total eur es) (pos 0)) _ h3 in
    let (j, k) = and-true (eqb_ℤ (total jpy es) (pos 0)) _ h4 in
    record {
      double_entry = ground (arith, long);
      zero_sum =
          by_currency (λ c. total c es ≡ pos 0) (zero_test (total inr es) r)
            (zero_test (total usd es) u) (zero_test (total eur es) e) (zero_test (total jpy es) j)
            (zero_test (total kwd es) k);
    }

-- The trigger accepts a transaction exactly when it has two entries or more and sums to zero in every
-- currency.
pub must_balance_iff : (es : List LedgerEntry) → (must_balance es ≡ true) ↔ IsBalanced es
unfolding must_balance
must_balance_iff es = (
  accepted es,
  λ b.
      rw (b.zero_sum inr, b.zero_sum usd, b.zero_sum eur, b.zero_sum jpy, b.zero_sum kwd)
        (ground (arith, b.double_entry)),
)

all_balance-append :
    (ps : List Posting) (p : Posting)
    → all_balance ps ≡ true
    → must_balance p.transaction.entries ≡ true
    → all_balance (ps ++ p ∷ []) ≡ true
unfolding all_balance
all_balance-append [] p h k = rw k refl
all_balance-append (q ∷ ps) p h k = ground (arith, all_balance-append ps p)

-- What `BalancedTransaction::new` accepts never fires the trigger: a ledger that balances still does
-- when such a transaction is added to it.
pub trigger_never_fires :
    (kind : LedgerTransactionKind) (es : List LedgerEntry) (ps : List Posting) (p : Posting)
    → balanced kind es ≡ ok p.transaction
    → all_balance ps ≡ true
    → all_balance (ps ++ p ∷ []) ≡ true
trigger_never_fires kind es ps p built h =
    all_balance-append ps p h
      ((must_balance_iff p.transaction.entries).1 (balanced_sound kind es built).2)
