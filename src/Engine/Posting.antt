-- ===== src/Engine/Posting.antt =====
-- The posting rules (crates/engine/ledger.rs): which accounts a capture and a refund move.
pub mod Effects
pub mod Capture
pub mod Balances
pub mod Refund
use payment_gateway_sandbox.Prelude.{
  ℕ, String, Bool, true, false, not, Option, none, some, List, [], ◌∷◌, ◌++◌, ◌&&◌, if◌then◌else◌,
}
use payment_gateway_sandbox.Prelude.Int.{ℤ, pos, ltb_ℤ}
use payment_gateway_sandbox.Prelude.Result.{Result, ok, err}
use payment_gateway_sandbox.Domain.Money.{Money, money, Currency}
use payment_gateway_sandbox.Domain.Ledger.Account.{
  AccountType, gateway_clearing, merchant_pending, platform_revenue, tax_payable, LedgerAccount,
  LedgerError,
}
use payment_gateway_sandbox.Domain.Ledger.Transaction.{
  TransactionBuilder, builder, push_credit, push_debit, build, payment_captured, fee_charged,
  refund_issued, fee_refunded,
}
use payment_gateway_sandbox.Engine.Fees.{FeeBreakdown, FeeRefund, refund_total, refund_is_zero}
use payment_gateway_sandbox.Store.Error.{EngineError, ledger_error}
use payment_gateway_sandbox.Store.Db.{Db, Env, Tx, ◌>>=◌, ◌>>◌, pure, lift}
use payment_gateway_sandbox.Store.Ledger.{
  find_platform_account, find_or_create_merchant_account, post,
}

-- The tax entry of the fee's transaction, where there is one.
unfoldable pub credit_tax : ℤ → Currency → TransactionBuilder → Tx TransactionBuilder
credit_tax tax c b =
    if ltb_ℤ (pos 0) tax
    then (do
      tax_acct ← find_platform_account tax_payable c
      lift ledger_error (push_credit tax_acct.id (money tax c) b))
    else pure b

unfoldable pub post_fee : Env → ℕ → Currency → FeeBreakdown → ℕ → Tx (Unit {0})
post_fee env pending c fees payment_uuid = do
  revenue ← find_platform_account platform_revenue c
  b1 ← lift ledger_error (push_debit pending (money fees.total c) (builder fee_charged))
  b2 ← lift ledger_error (push_credit revenue.id (money fees.base c) b1)
  b3 ← credit_tax fees.tax c b2
  fee_txn ← lift ledger_error (build b3)
  post env fee_txn "payment" payment_uuid

unfoldable pub post_capture : Env → ℕ → Money → FeeBreakdown → ℕ → Tx (Unit {0})
post_capture env merchant amount fees payment_uuid = do
  clearing ← find_platform_account gateway_clearing amount.currency
  pending ← find_or_create_merchant_account env merchant merchant_pending amount.currency
  b1 ← lift ledger_error (push_debit clearing.id amount (builder payment_captured))
  b2 ← lift ledger_error (push_credit pending.id amount b1)
  capture ← lift ledger_error (build b2)
  post env capture "payment" payment_uuid
  if ltb_ℤ (pos 0) fees.total
      then post_fee env pending.id amount.currency fees payment_uuid
      else pure tt

-- One conditional debit of the refunded fee's transaction.
unfoldable pub debit_platform :
    AccountType → ℤ → Currency → TransactionBuilder → Tx TransactionBuilder
debit_platform t amount c b =
    if ltb_ℤ (pos 0) amount
    then (do
      acct ← find_platform_account t c
      lift ledger_error (push_debit acct.id (money amount c) b))
    else pure b

unfoldable pub post_fee_refund : Env → ℕ → Currency → FeeRefund → ℕ → Tx (Unit {0})
post_fee_refund env pending c fee refund_uuid = do
  b1 ← lift ledger_error (push_credit pending (money (refund_total fee) c) (builder fee_refunded))
  b2 ← debit_platform platform_revenue fee.base c b1
  b3 ← debit_platform tax_payable fee.tax c b2
  fee_txn ← lift ledger_error (build b3)
  post env fee_txn "refund" refund_uuid

unfoldable pub post_refund : Env → ℕ → Money → FeeRefund → ℕ → Tx (Unit {0})
post_refund env merchant refund_amount fee refund_uuid = do
  clearing ← find_platform_account gateway_clearing refund_amount.currency
  pending ← find_or_create_merchant_account env merchant merchant_pending refund_amount.currency
  b1 ← lift ledger_error (push_debit pending.id refund_amount (builder refund_issued))
  b2 ← lift ledger_error (push_credit clearing.id refund_amount b1)
  refund_txn ← lift ledger_error (build b2)
  post env refund_txn "refund" refund_uuid
  if refund_is_zero fee
      then pure tt
      else post_fee_refund env pending.id refund_amount.currency fee refund_uuid
