-- ===== src/Engine/Payments/Untouched.antt =====
-- The statements of PaymentService::create and settle that leave the payments as they are: on orders, attempts,
-- jobs, events, deliveries and the ledger.
use payment_gateway_sandbox.Prelude.{
  ℕ, ◌≡◌, refl, inl, inr, Option-cases, Bool-cases, String, Option, none, some, List, [], ◌∷◌,
}
use payment_gateway_sandbox.Prelude.Int.{ℤ}
use payment_gateway_sandbox.Prelude.Result.{Result, ok, err}
use payment_gateway_sandbox.Domain.Money.{Money, money, Currency}
use payment_gateway_sandbox.Domain.OrderStatus.{OrderStatus}
use payment_gateway_sandbox.Domain.Ledger.Account.{
  AccountType, LedgerAccount, for_merchant, LedgerError,
}
use payment_gateway_sandbox.Domain.Ledger.Transaction.{
  BalancedTransaction, TransactionBuilder, push_debit, push_credit, build, builder, fee_charged,
  payment_captured,
}
use payment_gateway_sandbox.Engine.Fees.{FeeBreakdown}
use payment_gateway_sandbox.Engine.Posting.{post_capture, post_fee, credit_tax}
use payment_gateway_sandbox.Store.Error.{EngineError, ledger_error}
use payment_gateway_sandbox.Store.Db.{Db, Env, new_id, WebhookEndpoint, EventData}
use payment_gateway_sandbox.Store.Job.{Payload}
use payment_gateway_sandbox.Store.Orders.{
  update_order_status, order_id_of, order_checks, with_order_status,
}
use payment_gateway_sandbox.Store.Rows.{find_row, all_rows}
use payment_gateway_sandbox.Store.Payments.{insert_attempt}
use payment_gateway_sandbox.Store.Ledger.{
  find_platform_account, find_or_create_merchant_account, find_merchant_account,
  create_merchant_account, post, or_create, has_zero, insert_account_or_nothing, lookup_account,
  found_account, decoded, into_domain,
}
use payment_gateway_sandbox.Store.Outbox.{emit, fan_out, insert_event, insert_pending, enqueue_job}
use payment_gateway_sandbox.Store.Success.{
  OnSuccess, KeepsPayments, bind-KeepsPayments, pure-KeepsPayments, gets-KeepsPayments,
  lift-KeepsPayments, if-KeepsPayments,
}

pub update_order_status-KeepsPayments :
    (id : ℕ) (s : OrderStatus) (paid : ℤ) → KeepsPayments (update_order_status id s paid)
unfolding update_order_status
update_order_status-KeepsPayments id s paid = record {
  keeps = λ db.
      elim (Bool-cases
        (all_rows order_id_of id (λ o. order_checks (with_order_status s paid o)) db.orders)) [
          | inl fine ↦ rw fine (elim (Option-cases (find_row order_id_of id db.orders)) [
            | inl missing ↦ rw missing tt
            | inr (o, found) ↦ rw found refl
          ])
          | inr broken ↦ rw broken tt
        ];
}

new_id-KeepsPayments : (env : Env) → KeepsPayments (new_id env)
unfolding new_id
new_id-KeepsPayments env = record { keeps = λ db. refl }

pub insert_attempt-KeepsPayments :
    (env : Env) (payment number : ℕ) (outcome : String) (code : Option String) (latency : ℕ)
    → KeepsPayments (insert_attempt env payment number outcome code latency)
unfolding insert_attempt new_id
insert_attempt-KeepsPayments env payment number outcome code latency = record { keeps = λ db. refl }

pub enqueue_job-KeepsPayments :
    (env : Env) (kind : String) (payload : Payload) (run_at attempts : ℕ)
    → KeepsPayments (enqueue_job env kind payload run_at attempts)
unfolding enqueue_job new_id
enqueue_job-KeepsPayments env kind payload run_at attempts = record { keeps = λ db. refl }

insert_pending-KeepsPayments :
    (env : Env) (event endpoint : ℕ) → KeepsPayments (insert_pending env event endpoint)
unfolding insert_pending new_id
insert_pending-KeepsPayments env event endpoint = record { keeps = λ db. refl }

insert_event-KeepsPayments :
    (env : Env) (merchant : ℕ) (event_type : String) (payload : EventData)
    → KeepsPayments (insert_event env merchant event_type payload)
unfolding insert_event new_id
insert_event-KeepsPayments env merchant event_type payload = record { keeps = λ db. refl }

fan_out-KeepsPayments :
    (env : Env) (event : ℕ) (event_type : String) (endpoints : List WebhookEndpoint)
    → KeepsPayments (fan_out env event event_type endpoints)
unfolding fan_out
fan_out-KeepsPayments env event event_type [] = pure-KeepsPayments tt
fan_out-KeepsPayments env event event_type (ep ∷ eps) =
    if-KeepsPayments _
      (bind-KeepsPayments (insert_pending-KeepsPayments env event ep.id) (λ delivery.
        bind-KeepsPayments (enqueue_job-KeepsPayments env _ _ _ _)
          (λ _. fan_out-KeepsPayments env event event_type eps)))
      (fan_out-KeepsPayments env event event_type eps)

pub emit-KeepsPayments :
    (env : Env) (endpoints : List WebhookEndpoint) (merchant : ℕ) (event_type : String)
    (payload : EventData)
    → KeepsPayments (emit env endpoints merchant event_type payload)
unfolding emit
emit-KeepsPayments env endpoints merchant event_type payload =
    bind-KeepsPayments (insert_event-KeepsPayments env merchant event_type payload) (λ event.
      bind-KeepsPayments (fan_out-KeepsPayments env event event_type endpoints)
        (λ _. pure-KeepsPayments event))

decoded-KeepsPayments : (r : Result LedgerAccount LedgerError) → KeepsPayments (decoded r)
decoded-KeepsPayments (ok a) = pure-KeepsPayments a
decoded-KeepsPayments (err e) = record { keeps = λ db. tt }

found_account-KeepsPayments :
    (what : String) (o : Option LedgerAccount) → KeepsPayments (found_account what o)
found_account-KeepsPayments what none = record { keeps = λ db. tt }
found_account-KeepsPayments what (some a) = decoded-KeepsPayments (into_domain a)

find_platform_account-KeepsPayments :
    (t : AccountType) (c : Currency) → KeepsPayments (find_platform_account t c)
unfolding find_platform_account
find_platform_account-KeepsPayments t c =
    bind-KeepsPayments (gets-KeepsPayments _)
      (λ a. found_account-KeepsPayments "platform ledger account" a)

find_merchant_account-KeepsPayments :
    (merchant : ℕ) (t : AccountType) (c : Currency)
    → KeepsPayments (find_merchant_account merchant t c)
unfolding find_merchant_account
find_merchant_account-KeepsPayments merchant t c =
    bind-KeepsPayments (gets-KeepsPayments _)
      (λ a. found_account-KeepsPayments "merchant ledger account" a)

insert_account_or_nothing-KeepsPayments :
    (merchant : ℕ) (a : LedgerAccount) → KeepsPayments (insert_account_or_nothing merchant a)
insert_account_or_nothing-KeepsPayments merchant a = record {
  keeps = λ db.
      elim (Option-cases (lookup_account (some merchant) a.account_type a.currency db.accounts)) [
        | inl n ↦ rw (n, OnSuccess, insert_account_or_nothing) refl
        | inr (x, e) ↦ rw (e, OnSuccess, insert_account_or_nothing) refl
      ];
}

create_merchant_account-KeepsPayments :
    (env : Env) (merchant : ℕ) (t : AccountType) (c : Currency)
    → KeepsPayments (create_merchant_account env merchant t c)
unfolding create_merchant_account
create_merchant_account-KeepsPayments env merchant t c =
    bind-KeepsPayments (new_id-KeepsPayments env) (λ id.
      bind-KeepsPayments (decoded-KeepsPayments (for_merchant id merchant t c)) (λ account.
        bind-KeepsPayments (insert_account_or_nothing-KeepsPayments merchant account) (λ inserted.
          if-KeepsPayments inserted (pure-KeepsPayments account)
            (find_merchant_account-KeepsPayments merchant t c))))

or_create-KeepsPayments :
    (env : Env) (merchant : ℕ) (t : AccountType) (c : Currency) (db : Db)
    (r : Result LedgerAccount EngineError)
    → OnSuccess (λ _ after. after.payments ≡ db.payments) (or_create env merchant t c db r)
or_create-KeepsPayments env merchant t c db (ok a) = refl
or_create-KeepsPayments env merchant t c db (err e) =
    (create_merchant_account-KeepsPayments env merchant t c).keeps db

find_or_create_merchant_account-KeepsPayments :
    (env : Env) (merchant : ℕ) (t : AccountType) (c : Currency)
    → KeepsPayments (find_or_create_merchant_account env merchant t c)
unfolding find_or_create_merchant_account
find_or_create_merchant_account-KeepsPayments env merchant t c = record {
  keeps =
      λ db. or_create-KeepsPayments env merchant t c db (find_merchant_account merchant t c db).0;
}

post-KeepsPayments :
    (env : Env) (txn : BalancedTransaction) (reference : String) (id : ℕ)
    → KeepsPayments (post env txn reference id)
unfolding post new_id
post-KeepsPayments env txn reference id = record {
  keeps = λ db. elim (Bool-cases (has_zero txn.entries)) [ inl z ↦ rw z tt | inr z ↦ rw z refl ];
}

credit_tax-KeepsPayments :
    (tax : ℤ) (c : Currency) (b : TransactionBuilder) → KeepsPayments (credit_tax tax c b)
unfolding credit_tax
credit_tax-KeepsPayments tax c b =
    if-KeepsPayments _
      (bind-KeepsPayments (find_platform_account-KeepsPayments _ c) (λ a. lift-KeepsPayments _ _))
      (pure-KeepsPayments b)

post_fee-KeepsPayments :
    (env : Env) (pending : ℕ) (c : Currency) (fees : FeeBreakdown) (payment : ℕ)
    → KeepsPayments (post_fee env pending c fees payment)
unfolding post_fee
post_fee-KeepsPayments env pending c fees payment =
    bind-KeepsPayments (find_platform_account-KeepsPayments _ c) (λ revenue.
      bind-KeepsPayments
        (lift-KeepsPayments ledger_error
          (push_debit pending (money fees.total c) (builder fee_charged)))
        (λ b1.
          bind-KeepsPayments
            (lift-KeepsPayments ledger_error (push_credit revenue.id (money fees.base c) b1))
            (λ b2. bind-KeepsPayments (credit_tax-KeepsPayments fees.tax c b2) (λ b3.
              bind-KeepsPayments (lift-KeepsPayments ledger_error (build b3))
                (λ txn. post-KeepsPayments env txn "payment" payment)))))

pub post_capture-KeepsPayments :
    (env : Env) (merchant : ℕ) (amount : Money) (fees : FeeBreakdown) (payment : ℕ)
    → KeepsPayments (post_capture env merchant amount fees payment)
unfolding post_capture
post_capture-KeepsPayments env merchant amount fees payment =
    bind-KeepsPayments (find_platform_account-KeepsPayments _ amount.currency) (λ clearing.
      bind-KeepsPayments
        (find_or_create_merchant_account-KeepsPayments env merchant _ amount.currency)
        (λ pending.
          bind-KeepsPayments
            (lift-KeepsPayments ledger_error
              (push_debit clearing.id amount (builder payment_captured)))
            (λ b1.
              bind-KeepsPayments
                (lift-KeepsPayments ledger_error (push_credit pending.id amount b1))
                (λ b2. bind-KeepsPayments (lift-KeepsPayments ledger_error (build b2)) (λ capture.
                  bind-KeepsPayments (post-KeepsPayments env capture "payment" payment) (λ _.
                    if-KeepsPayments _
                      (post_fee-KeepsPayments env pending.id amount.currency fees payment)
                      (pure-KeepsPayments tt)))))))
