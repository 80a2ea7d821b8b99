-- ===== src/Tests/Postings.antt =====
-- The posting rules at a concrete ledger.
use payment_gateway_sandbox.Prelude.{ℕ, ◌≡◌, refl, arith, Option, none, some, List, [], ◌∷◌}
use payment_gateway_sandbox.Prelude.Int.{pos}
use payment_gateway_sandbox.Prelude.Result.{ok}
use payment_gateway_sandbox.Domain.Money.{money, inr}
use payment_gateway_sandbox.Domain.Ledger.Account.{
  AccountType, LedgerAccount, gateway_clearing, merchant_pending, platform_revenue, tax_payable,
  from_parts, is_merchant_scoped,
}
use payment_gateway_sandbox.Store.Db.{Db, Env}
use payment_gateway_sandbox.Store.Ledger.{lookup_account}
use payment_gateway_sandbox.Engine.Posting.{post_capture, post_refund}
use payment_gateway_sandbox.Engine.Posting.Capture.{
  Found, charge, posted, capture_txn, fee_txn, post_capture-eq,
}
use payment_gateway_sandbox.Engine.Posting.Refund.{
  fee_back, refund_txn, fee_back_txn, post_refund-eq,
}

abbrev account : ℕ → Option ℕ → AccountType → LedgerAccount
account id m t = record { id = id; merchant_id = m; account_type = t; currency = inr }

abbrev accounts : List LedgerAccount
accounts =
    account 1 none gateway_clearing
    ∷ account 2 none platform_revenue
    ∷ account 3 none tax_payable
    ∷ account 4 (some 8) merchant_pending
    ∷ account 5 (some 9) merchant_pending
    ∷ []

clearing-Found : Found none gateway_clearing inr accounts
unfolding lookup_account from_parts is_merchant_scoped
clearing-Found = record { account = account 1 none gateway_clearing; looked_up = refl; row = refl }

revenue-Found : Found none platform_revenue inr accounts
unfolding lookup_account from_parts is_merchant_scoped
revenue-Found = record { account = account 2 none platform_revenue; looked_up = refl; row = refl }

tax-Found : Found none tax_payable inr accounts
unfolding lookup_account from_parts is_merchant_scoped
tax-Found = record { account = account 3 none tax_payable; looked_up = refl; row = refl }

pending-Found : Found (some 9) merchant_pending inr accounts
unfolding lookup_account from_parts is_merchant_scoped
pending-Found = record {
  account = account 5 (some 9) merchant_pending;
  looked_up = refl;
  row = refl;
}

abbrev env : Env
env = record {
  now = 1000;
  year_month = λ t. record { year = 2026; month = 7 };
  card_fingerprint = λ n. "fp";
  uuid = λ n. n;
}

abbrev db : Db
db = record {
  orders = [];
  payments = [];
  attempts = [];
  refunds = [];
  accounts = accounts;
  postings = [];
  endpoints = [];
  events = [];
  deliveries = [];
  jobs = [];
  drawn = 0;
}

post_capture-eq_example : post_capture env 9 (money (pos 10000) inr) (charge inr 500 90) 77 db ≡ (
  ok tt,
  posted env
      (fee_txn inr 5 2 3 500 90)
      "payment"
      77
      (posted env (capture_txn inr 1 5 10000) "payment" 77 db),
)
unfolding clearing-Found revenue-Found tax-Found pending-Found
post_capture-eq_example =
    post_capture-eq env 9 inr 10000 500 90 77 db clearing-Found pending-Found revenue-Found
      tax-Found (omega arith) (omega arith) (omega arith) (omega arith)

post_refund-eq_example : post_refund env 9 (money (pos 4000) inr) (fee_back 200 36) 78 db ≡ (
  ok tt,
  posted env
      (fee_back_txn inr 5 2 3 200 36)
      "refund"
      78
      (posted env (refund_txn inr 5 1 4000) "refund" 78 db),
)
unfolding clearing-Found revenue-Found tax-Found pending-Found
post_refund-eq_example =
    post_refund-eq env 9 inr 4000 200 36 78 db clearing-Found pending-Found revenue-Found tax-Found
      (omega arith) (omega arith) (omega arith) (omega arith)
