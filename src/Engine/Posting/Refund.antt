-- ===== src/Engine/Posting/Refund.antt =====
-- What `post_refund` writes, entry by entry, where the accounts are there.
use payment_gateway_sandbox.Prelude.{
  ℕ, suc, zero, ◌+◌, ◌≤◌, ◌<◌, ◌≡◌, refl, arith, true, false, none, some, List, [], ◌∷◌, ltb,
  if◌then◌else◌,
}
use payment_gateway_sandbox.Prelude.Lists.{length}
use payment_gateway_sandbox.Prelude.Int.{ℤ, pos, neg, ◌+ℤ◌, ltb_ℤ, wrap_i64-eq}
use payment_gateway_sandbox.Prelude.Result.{ok}
use payment_gateway_sandbox.Domain.Money.{Currency, money}
use payment_gateway_sandbox.Domain.Money.Percent.{+ℤ-pos}
use payment_gateway_sandbox.Domain.Ledger.Account.{
  AccountType, gateway_clearing, merchant_pending, platform_revenue, tax_payable,
}
use payment_gateway_sandbox.Domain.Ledger.Entry.{entry}
use payment_gateway_sandbox.Domain.Ledger.Transaction.{
  BalancedTransaction, TransactionBuilder, builder, push_entry, push_credit, push_debit, build,
  refund_issued, fee_refunded, balanced,
}
use payment_gateway_sandbox.Engine.Fees.{FeeRefund, refund_total, refund_is_zero}
use payment_gateway_sandbox.Engine.Posting.{debit_platform, post_fee_refund, post_refund}
use payment_gateway_sandbox.Engine.Posting.Effects.{
  credit-eq, debit-eq, entries_of, transfer_moves, transfer_built, one_currency, sum_of, RunFits,
}
use payment_gateway_sandbox.Engine.Posting.Capture.{
  Found, find_platform-Found, find_pending-Found, posted, post-eq, transfer-nonzero,
}
use payment_gateway_sandbox.Store.Db.{Db, Env}
use payment_gateway_sandbox.Store.Ledger.{has_zero}

-- A debit of an account, where there is something to debit.
abbrev pub debit_move : ℕ → ℕ → List (ℕ × ℤ) → List (ℕ × ℤ)
debit_move account x rest = if ltb 0 x then (account, neg (pos x)) ∷ rest else rest

abbrev pub fee_back_moves : ℕ → ℕ → ℕ → ℕ → ℕ → List (ℕ × ℤ)
fee_back_moves pending revenue tax base t =
    (pending, pos (base + t)) ∷ debit_move revenue base (debit_move tax t [])

fee_back_RunFits :
    (pending revenue tax base t : ℕ)
    → base + t ≤ 9223372036854775807
    → RunFits (pos 0) (fee_back_moves pending revenue tax base t)
unfolding ◌+ℤ◌ neg
fee_back_RunFits pending revenue tax base t h = ground arith

fee_back_sum :
    (pending revenue tax base t : ℕ) → sum_of (fee_back_moves pending revenue tax base t) ≡ pos 0
unfolding ◌+ℤ◌ neg
fee_back_sum pending revenue tax base t = ground arith

fee_back_long :
    (c : Currency) (pending revenue tax base t : ℕ)
    → 0 < base + t
    → 2 ≤ length (entries_of c (fee_back_moves pending revenue tax base t))
fee_back_long c pending revenue tax base t h = ground arith

fee_back-nonzero :
    (c : Currency) (pending revenue tax base t : ℕ)
    → 0 < base + t
    → has_zero (entries_of c (fee_back_moves pending revenue tax base t)) ≡ false
unfolding has_zero neg
fee_back-nonzero c pending revenue tax base t h = ground arith

debit_platform-zero :
    (k : AccountType) (c : Currency) (b : TransactionBuilder) (db : Db)
    → debit_platform k (pos 0) c b db ≡ (ok b, db)
unfolding debit_platform
debit_platform-zero k c b db = refl

debit_platform-suc :
    (k : AccountType) (x : ℕ) (c : Currency) (b : TransactionBuilder) (db : Db)
    → (f : Found none k c db.accounts) → suc x ≤ 9223372036854775807
    → debit_platform k (pos (suc x)) c b db
      ≡ (ok (push_entry b (entry f.account.id (neg (pos (suc x))) c)), db)
unfolding debit_platform push_debit
debit_platform-suc k x c b db f h =
    let owed : ltb_ℤ (pos 0) (pos (suc x)) ≡ true = ground arith in
    rw (owed, find_platform-Found k c db f, debit-eq f.account.id (suc x) c (omega arith) h) refl

-- The two transactions of a refund.
abbrev pub refund_txn : Currency → ℕ → ℕ → ℕ → BalancedTransaction
refund_txn c pending clearing m = record {
  kind = refund_issued;
  entries = entries_of c (transfer_moves pending clearing m);
}

abbrev pub fee_back_txn : Currency → ℕ → ℕ → ℕ → ℕ → ℕ → BalancedTransaction
fee_back_txn c pending revenue tax base t = record {
  kind = fee_refunded;
  entries = entries_of c (fee_back_moves pending revenue tax base t);
}

fee_back_built :
    (c : Currency) (pending revenue tax base t : ℕ)
    → 0 < base + t
    → base + t ≤ 9223372036854775807
    → balanced fee_refunded (entries_of c (fee_back_moves pending revenue tax base t))
      ≡ ok (fee_back_txn c pending revenue tax base t)
fee_back_built c pending revenue tax base t h fits =
    one_currency fee_refunded c (fee_back_moves pending revenue tax base t)
      (fee_back_long c pending revenue tax base t h)
      (fee_back_RunFits pending revenue tax base t fits) (fee_back_sum pending revenue tax base t)

-- The builder of the returned fee after its first conditional debit, and after both.
abbrev with_base : Currency → ℕ → ℕ → ℕ → ℕ → TransactionBuilder
with_base c pending revenue base t = record {
  kind = fee_refunded;
  entries = entries_of c ((pending, pos (base + t)) ∷ debit_move revenue base []);
}

above_zero : (x : ℕ) → ltb 0 (suc x) ≡ true
above_zero x = ground arith

base-debited :
    (c : Currency) (pending base t : ℕ) (db : Db)
    (revenue : Found none platform_revenue c db.accounts)
    → base ≤ 9223372036854775807
    → debit_platform platform_revenue
        (pos base)
        c
        (push_entry (builder fee_refunded) (entry pending (pos (base + t)) c))
        db
      ≡ (ok (with_base c pending revenue.account.id base t), db)
base-debited c pending zero t db revenue fits = debit_platform-zero platform_revenue c _ db
base-debited c pending (suc b) t db revenue fits =
    rw (above_zero b) (debit_platform-suc platform_revenue b c _ db revenue fits)

tax-debited :
    (c : Currency) (pending revenue base t : ℕ) (db : Db)
    (tax : Found none tax_payable c db.accounts)
    → t ≤ 9223372036854775807
    → debit_platform tax_payable (pos t) c (with_base c pending revenue base t) db ≡ (
      ok (record {
        kind = fee_refunded;
        entries = entries_of c (fee_back_moves pending revenue tax.account.id base t);
      }),
      db,
    )
tax-debited c pending revenue base zero db tax fits = debit_platform-zero tax_payable c _ db
tax-debited c pending revenue zero (suc t) db tax fits =
    rw (above_zero t) (debit_platform-suc tax_payable t c _ db tax fits)
tax-debited c pending revenue (suc b) (suc t) db tax fits =
    rw (above_zero b, above_zero t)
      (debit_platform-suc tax_payable t c
        (record {
          kind = fee_refunded;
          entries =
              entry pending (pos (suc b + suc t)) c ∷ entry revenue (neg (pos (suc b))) c ∷ [];
        })
        db tax fits)

abbrev pub fee_back : ℕ → ℕ → FeeRefund
fee_back base t = record { base = pos base; tax = pos t }

refund_total-eq :
    (base t : ℕ) → base + t ≤ 9223372036854775807 → refund_total (fee_back base t) ≡ pos (base + t)
unfolding refund_total
refund_total-eq base t fits = rw +ℤ-pos (wrap_i64-eq (pos (base + t)) (fits, omega arith))

post_fee_refund-eq :
    (env : Env) (pending : ℕ) (c : Currency) (base t id : ℕ) (db : Db)
    → (revenue : Found none platform_revenue c db.accounts)
      (tax : Found none tax_payable c db.accounts)
    → 0 < base + t
    → base + t ≤ 9223372036854775807
    → post_fee_refund env pending c (fee_back base t) id db ≡ (
      ok tt,
      posted env (fee_back_txn c pending revenue.account.id tax.account.id base t) "refund" id db,
    )
unfolding post_fee_refund push_credit build
post_fee_refund-eq env pending c base t id db revenue tax h fits =
    rw
      (
        refund_total-eq base t fits,
        credit-eq pending (base + t) c h,
        base-debited c pending base t db revenue (omega arith),
        tax-debited c pending revenue.account.id base t db tax (omega arith),
        fee_back_built c pending revenue.account.id tax.account.id base t h fits,
      )
      (post-eq env _ "refund" id db
        (fee_back-nonzero c pending revenue.account.id tax.account.id base t h))

-- A refund of a positive `m` that returns a fee of `base` and a tax of `t`, not both zero, all of 64
-- bits, where the accounts are there, appends exactly two transactions to the ledger and changes no
-- other table: the amount moves
-- from the merchant's pending account to the platform's clearing account, and the fee comes back to
-- it from the platform's revenue and the tax account, with no entry for a part that is zero.
pub post_refund-eq :
    (env : Env) (merchant : ℕ) (c : Currency) (m base t id : ℕ) (db : Db)
    → (clearing : Found none gateway_clearing c db.accounts)
    → (pending : Found (some merchant) merchant_pending c db.accounts)
    → (revenue : Found none platform_revenue c db.accounts)
    → (tax : Found none tax_payable c db.accounts) → 0 < m
    → m ≤ 9223372036854775807
    → 0 < base + t
    → base + t ≤ 9223372036854775807
    → post_refund env merchant (money (pos m) c) (fee_back base t) id db ≡ (
      ok tt,
      posted env
          (fee_back_txn c pending.account.id revenue.account.id tax.account.id base t)
          "refund"
          id
          (posted env (refund_txn c pending.account.id clearing.account.id m) "refund" id db),
    )
unfolding post_refund push_debit push_credit build refund_is_zero
post_refund-eq env merchant c m base t id db clearing pending revenue tax h fits hb bits =
    let to = clearing.account.id in
    let from = pending.account.id in
    let due : refund_is_zero (fee_back base t) ≡ false = ground arith in
    rw
      (
        find_platform-Found gateway_clearing c db clearing,
        find_pending-Found env merchant merchant_pending c db pending,
        debit-eq from m c h fits,
        credit-eq to m c h,
        transfer_built refund_issued c from to m fits,
        post-eq env (refund_txn c from to m) "refund" id db (transfer-nonzero c from to m h),
        due,
      )
      (post_fee_refund-eq env from c base t id (posted env (refund_txn c from to m) "refund" id db)
        revenue tax hb bits)
