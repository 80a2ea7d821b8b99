-- ===== src/Engine/Posting/Capture.antt =====
-- What `post_capture` writes, entry by entry, where the accounts are there.
use payment_gateway_sandbox.Prelude.{
  ℕ, suc, ◌+◌, ◌≤◌, ◌<◌, ◌≡◌, refl, arith, String, true, false, Bool-cases, inl, inr, Option, none,
  some, List, [], ◌∷◌, ◌++◌, ltb,
}
use payment_gateway_sandbox.Prelude.Int.{pos, neg, ltb_ℤ}
use payment_gateway_sandbox.Prelude.Result.{ok}
use payment_gateway_sandbox.Domain.Money.{Currency, money}
use payment_gateway_sandbox.Domain.Ledger.Account.{
  AccountType, gateway_clearing, merchant_pending, platform_revenue, tax_payable, LedgerAccount,
}
use payment_gateway_sandbox.Domain.Ledger.Entry.{LedgerEntry}
use payment_gateway_sandbox.Domain.Ledger.Transaction.{
  BalancedTransaction, push_credit, push_debit, build, payment_captured, fee_charged,
  LedgerTransactionKind,
}
use payment_gateway_sandbox.Engine.Fees.{FeeBreakdown}
use payment_gateway_sandbox.Engine.Posting.{credit_tax, post_fee, post_capture}
use payment_gateway_sandbox.Engine.Posting.Effects.{
  credit-eq, debit-eq, entries_of, transfer_moves, fee_moves, tax_move, transfer_built, fee_built,
}
use payment_gateway_sandbox.Store.Db.{Db, Env, new_id}
use payment_gateway_sandbox.Store.Ledger.{
  lookup_account, into_domain, find_platform_account, find_merchant_account,
  find_or_create_merchant_account, post, has_zero,
}

-- The rows that a lookup finds, and reads without an error.
pub record Found (merchant : Option ℕ) (t : AccountType) (c : Currency)
    (accounts : List LedgerAccount) : Type 0 where
  pub account : LedgerAccount
  pub looked_up : lookup_account merchant t c accounts ≡ some account
  pub row : into_domain account ≡ ok account

pub find_platform-Found :
    (t : AccountType) (c : Currency) (db : Db) (f : Found none t c db.accounts)
    → find_platform_account t c db ≡ (ok f.account, db)
unfolding find_platform_account
find_platform-Found t c db f = rw (f.looked_up, f.row) refl

pub find_pending-Found :
    (env : Env) (merchant : ℕ) (t : AccountType) (c : Currency) (db : Db)
    → (f : Found (some merchant) t c db.accounts)
    → find_or_create_merchant_account env merchant t c db ≡ (ok f.account, db)
unfolding find_or_create_merchant_account find_merchant_account
find_pending-Found env merchant t c db f = rw (f.looked_up, f.row) refl

-- The state after a transaction is posted.
abbrev pub posted : Env → BalancedTransaction → String → ℕ → Db → Db
posted env txn reference_type reference_id db = record db {
  drawn = suc db.drawn;
  postings =
      db.postings
      ++ record {
        id = env.uuid db.drawn;
        transaction = txn;
        reference_type = reference_type;
        reference_id = reference_id;
        created_at = env.now;
      }
        ∷ [];
}

pub post-eq :
    (env : Env) (txn : BalancedTransaction) (r : String) (id : ℕ) (db : Db)
    → has_zero txn.entries ≡ false
    → post env txn r id db ≡ (ok tt, posted env txn r id db)
unfolding post new_id
post-eq env txn r id db h = rw h refl

credit_tax-eq :
    (k : LedgerTransactionKind) (e1 e2 : LedgerEntry) (t : ℕ) (c : Currency) (db : Db)
    → (f : Found none tax_payable c db.accounts)
    → credit_tax (pos t) c (record { kind = k; entries = e1 ∷ e2 ∷ [] }) db
      ≡ (ok (record { kind = k; entries = e1 ∷ e2 ∷ entries_of c (tax_move f.account.id t) }), db)
unfolding credit_tax push_credit
credit_tax-eq k e1 e2 t c db f = elim (Bool-cases (ltb 0 t)) [
  | inl some_tax ↦
      let taxed : ltb_ℤ (pos 0) (pos t) ≡ true = ground arith in
      rw
        (
          some_tax,
          taxed,
          find_platform-Found tax_payable c db f,
          credit-eq f.account.id t c (ground arith),
        )
        refl
  | inr no_tax ↦
      let untaxed : ltb_ℤ (pos 0) (pos t) ≡ false = ground arith in rw (no_tax, untaxed) refl
]

-- The two transactions of a capture.
abbrev pub capture_txn : Currency → ℕ → ℕ → ℕ → BalancedTransaction
capture_txn c clearing pending m = record {
  kind = payment_captured;
  entries = entries_of c (transfer_moves clearing pending m);
}

abbrev pub fee_txn : Currency → ℕ → ℕ → ℕ → ℕ → ℕ → BalancedTransaction
fee_txn c pending revenue tax base t = record {
  kind = fee_charged;
  entries = entries_of c (fee_moves pending revenue tax base t);
}

pub transfer-nonzero :
    (c : Currency) (from to m : ℕ)
    → 0 < m
    → has_zero (entries_of c (transfer_moves from to m)) ≡ false
unfolding has_zero neg
transfer-nonzero c from to m h = ground arith

fee-nonzero :
    (c : Currency) (pending revenue tax base t : ℕ)
    → 0 < base
    → has_zero (entries_of c (fee_moves pending revenue tax base t)) ≡ false
unfolding has_zero neg
fee-nonzero c pending revenue tax base t h = ground arith

abbrev pub charge : Currency → ℕ → ℕ → FeeBreakdown
charge c base t = record { base = pos base; tax = pos t; total = pos (base + t); currency = c }

post_fee-eq :
    (env : Env) (pending : ℕ) (c : Currency) (base t id : ℕ) (db : Db)
    → (revenue : Found none platform_revenue c db.accounts)
      (tax : Found none tax_payable c db.accounts)
    → 0 < base
    → base + t ≤ 9223372036854775807
    → post_fee env pending c (charge c base t) id db ≡ (
      ok tt,
      posted env (fee_txn c pending revenue.account.id tax.account.id base t) "payment" id db,
    )
unfolding post_fee push_debit push_credit build
post_fee-eq env pending c base t id db revenue tax h fits =
    rw
      (
        find_platform-Found platform_revenue c db revenue,
        debit-eq pending (base + t) c (omega arith) fits,
        credit-eq revenue.account.id base c h,
        credit_tax-eq fee_charged _ _ t c db tax,
        fee_built fee_charged c pending revenue.account.id tax.account.id base t fits,
      )
      (post-eq env _ "payment" id db
        (fee-nonzero c pending revenue.account.id tax.account.id base t h))

-- A capture of a positive `m` with a positive fee of `base` and a tax of `t`, all of 64 bits, where the
-- accounts are there, appends exactly two transactions to the ledger and changes no other table: the
-- amount moves from the platform's
-- clearing account to the merchant's pending account, and the fee from there to the platform's
-- revenue, with the tax to the tax account.
pub post_capture-eq :
    (env : Env) (merchant : ℕ) (c : Currency) (m base t id : ℕ) (db : Db)
    → (clearing : Found none gateway_clearing c db.accounts)
    → (pending : Found (some merchant) merchant_pending c db.accounts)
    → (revenue : Found none platform_revenue c db.accounts)
    → (tax : Found none tax_payable c db.accounts) → 0 < m
    → m ≤ 9223372036854775807
    → 0 < base
    → base + t ≤ 9223372036854775807
    → post_capture env merchant (money (pos m) c) (charge c base t) id db ≡ (
      ok tt,
      posted env
          (fee_txn c pending.account.id revenue.account.id tax.account.id base t)
          "payment"
          id
          (posted env (capture_txn c clearing.account.id pending.account.id m) "payment" id db),
    )
unfolding post_capture push_debit push_credit build
post_capture-eq env merchant c m base t id db clearing pending revenue tax h fits hb bits =
    let from = clearing.account.id in
    let to = pending.account.id in
    let charged : ltb_ℤ (pos 0) (pos (base + t)) ≡ true = ground arith in
    rw
      (
        find_platform-Found gateway_clearing c db clearing,
        find_pending-Found env merchant merchant_pending c db pending,
        debit-eq from m c h fits,
        credit-eq to m c h,
        transfer_built payment_captured c from to m fits,
        post-eq env (capture_txn c from to m) "payment" id db (transfer-nonzero c from to m h),
        charged,
      )
      (post_fee-eq env to c base t id (posted env (capture_txn c from to m) "payment" id db) revenue
        tax hb bits)
