-- ===== src/Engine/Atomic.antt =====
-- The services as database transactions: what an error leaves, and what a success has checked.
use payment_gateway_sandbox.Prelude.{ℕ, ◌≡◌, refl, inl, inr, Bool, true, false, Bool-cases}
use payment_gateway_sandbox.Prelude.Result.{Result, ok, err}
use payment_gateway_sandbox.Store.Error.{EngineError, validation, reason_too_long}
use payment_gateway_sandbox.Store.Db.{Db, Env, Tx, ◌>>◌, throw_if}
use payment_gateway_sandbox.Store.Ledger.{transaction, all_balance, commit_or_roll_back}
use payment_gateway_sandbox.Store.Outbox.{active_for_merchant}
use payment_gateway_sandbox.Engine.Payments.{
  CreatePaymentInput, AttemptDecision, create_payment, capture_payment,
}
use payment_gateway_sandbox.Engine.Refunds.{
  CreateRefundInput, create_refund, create_refund_body, too_long,
}

-- All or nothing: an error leaves the state as it was, and a success a ledger in which every
-- transaction balances.
abbrev pub IsAtomic : {A : Type 0} → Db → Result A EngineError × Db → Type 0
IsAtomic before (err e, after) = after ≡ before
IsAtomic before (ok a, after) = all_balance after.postings ≡ true

commit-IsAtomic :
    {A : Type 0} (db : Db) (r : Result A EngineError) (after : Db)
    → IsAtomic db (commit_or_roll_back db r after)
commit-IsAtomic db (err e) after = refl
commit-IsAtomic db (ok a) after = elim (Bool-cases (all_balance after.postings)) [
  | inl good ↦ rw good good
  | inr bad ↦ rw bad refl
]

transaction-IsAtomic : {A : Type 0} (body : Tx A) (db : Db) → IsAtomic db (transaction body db)
unfolding transaction
transaction-IsAtomic body db = commit-IsAtomic db (body db).0 (body db).1

guarded-IsAtomic :
    {A : Type 0} (b : Bool) (e : EngineError) (m : Tx A) (db : Db)
    → IsAtomic db (m db)
    → IsAtomic db ((throw_if b e >> m) db)
guarded-IsAtomic true e m db h = refl
guarded-IsAtomic false e m db h = h

-- `PaymentService::create` leaves the state as it was on every error, and after a success every
-- transaction in the ledger balances.
pub create_payment-IsAtomic :
    (env : Env) (merchant : ℕ) (input : CreatePaymentInput) (d : AttemptDecision) (db : Db)
    → IsAtomic db (create_payment env merchant input d db)
unfolding create_payment
create_payment-IsAtomic env merchant input d db = transaction-IsAtomic _ db

-- `PaymentService::capture` leaves the state as it was on every error, and after a success every
-- transaction in the ledger balances.
pub capture_payment-IsAtomic :
    (env : Env) (merchant payment : ℕ) (db : Db)
    → IsAtomic db (capture_payment env merchant payment db)
unfolding capture_payment
capture_payment-IsAtomic env merchant payment db = transaction-IsAtomic _ db

-- `RefundService::create` leaves the state as it was on every error, and after a success every
-- transaction in the ledger balances.
pub create_refund-IsAtomic :
    (env : Env) (merchant : ℕ) (input : CreateRefundInput) (db : Db)
    → IsAtomic db (create_refund env merchant input db)
unfolding create_refund
create_refund-IsAtomic env merchant input db =
    guarded-IsAtomic (too_long input.reason) (validation "reason" reason_too_long)
      (λ d.
        transaction
          (create_refund_body env (active_for_merchant merchant d.endpoints) merchant input) d)
      db (transaction-IsAtomic _ db)

-- What an atomic outcome that is an error says.
pub rolled_back :
    {A : Type 0} (before : Db) (outcome : Result A EngineError × Db) {e : EngineError}
    → IsAtomic before outcome
    → outcome.0 ≡ err e
    → outcome.1 ≡ before
rolled_back before (err e, after) a h = a
rolled_back before (ok x, after) a h = cc
