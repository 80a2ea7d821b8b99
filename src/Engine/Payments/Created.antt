-- ===== src/Engine/Payments/Created.antt =====
-- What PaymentService::create leaves of a payment (`create`, `settle` in crates/engine/payment.rs).
use payment_gateway_sandbox.Prelude.{
  ℕ, ◌≡◌, sym, refl, arith, inl, inr, Bool-cases, Option-cases, String, Option, none, some, List,
  [], ◌∷◌, ◌==◌, not,
}
use mathlib.Core.List.{Memᴰ}
use mathlib.Core.List.Memᴰ
use payment_gateway_sandbox.Prelude.Int.{ℤ, pos}
use payment_gateway_sandbox.Prelude.Result.{Result, ok, err}
use payment_gateway_sandbox.Domain.Money.{Money}
use payment_gateway_sandbox.Domain.Card.{CardDetails, card_details, assert_not_expired}
use payment_gateway_sandbox.Domain.Order.{Order, mark_attempted, mark_paid}
use payment_gateway_sandbox.Domain.PaymentStatus.{PaymentStatus, transition, can_transition_to}
use payment_gateway_sandbox.Domain.Payment.{
  Payment, new_card_attempt, mark_requires_action, mark_authorized, mark_captured, mark_failed,
}
use payment_gateway_sandbox.Engine.Fees.{for_currency, compute}
use payment_gateway_sandbox.Engine.Payments.{
  AttemptOutcome, capture, capture_then_dispute, authorize, decline, require_action, risk_hold,
  AttemptDecision, CreatePaymentInput, decline_code, settle, apply_outcome, create_body,
  create_payment,
}
use payment_gateway_sandbox.Engine.Payments.Untouched.{
  update_order_status-KeepsPayments, insert_attempt-KeepsPayments, enqueue_job-KeepsPayments,
  emit-KeepsPayments, post_capture-KeepsPayments,
}
use payment_gateway_sandbox.Store.Error.{
  EngineError, order_transition, money_error, card_error, not_found, validation, order_is_terminal,
}
use payment_gateway_sandbox.Store.Db.{Db, Env, pure, lift, throw_if, new_id, WebhookEndpoint}
use payment_gateway_sandbox.Store.Rows.{find_row, update_rows, all_rows}
use payment_gateway_sandbox.Store.Orders.{find_order, update_order_status}
use payment_gateway_sandbox.Domain.OrderStatus
use payment_gateway_sandbox.Store.Outbox.{active_for_merchant}
use payment_gateway_sandbox.Store.Payments.{
  payment_id_of, payment_checks, insert_payment, update_payment_status, with_payment_status,
}
use payment_gateway_sandbox.Store.Ledger.{transaction}
use payment_gateway_sandbox.Store.Success.{
  given-Ensures, map-Ensures, OnSuccess, OnSuccess-ok, OnSuccess-transaction, KeepsPayments-Ensures,
  lift-KeepsPayments, HasPayment, Ensures, bind-Ensures, skip-Ensures, kept-Ensures, pure-Ensures,
}

-- The status of a payment after the outcome of its attempt.
abbrev pub attempted_status : AttemptOutcome → PaymentStatus
attempted_status capture = PaymentStatus.captured
attempted_status capture_then_dispute = PaymentStatus.captured
attempted_status authorize = PaymentStatus.authorized
attempted_status (decline _ _) = PaymentStatus.failed
attempted_status require_action = PaymentStatus.requires_action
attempted_status risk_hold = PaymentStatus.created

-- A payment that stands in the tables, for an amount of an order of the merchant, in the state after an outcome.
pub record IsAttempted (merchant order : ℕ) (amount : Money) (o : AttemptOutcome) (p : Payment)
    (ps : List Payment) : Type 0 where
  pub is_stored : Memᴰ p ps
  pub of_merchant : p.merchant_id ≡ merchant
  pub of_order : p.order_id ≡ order
  pub of_amount : p.amount ≡ amount
  pub has_status : p.status ≡ attempted_status o
  pub has_code : p.error_code ≡ decline_code o

updated_stored :
    (f : Payment → Payment) (p : Payment) (ps : List Payment)
    → Memᴰ p ps
    → Memᴰ (f p) (update_rows payment_id_of p.id f ps)
unfolding update_rows
updated_stored f p [] m = elim m [ ]
updated_stored f p (x ∷ ps) (Memᴰ.head e) = Memᴰ.head (rw (← e) (ground arith))
updated_stored f p (x ∷ ps) (Memᴰ.tail m) = Memᴰ.tail (updated_stored f p ps m)

update_payment_status-Ensures :
    (p : Payment) (s : PaymentStatus) (at : Option ℕ) (refunded : ℤ)
    (code description : Option String)
    → Ensures
        (update_payment_status p.id s at refunded code description)
        (HasPayment p)
        (λ _. HasPayment (with_payment_status s at refunded code description p))
unfolding update_payment_status
update_payment_status-Ensures p s at refunded code description = record {
  ensures = λ db h.
      let f = with_payment_status s at refunded code description in
      elim (Bool-cases (all_rows payment_id_of p.id (λ x. payment_checks (f x)) db.payments)) [
        | inl fine ↦ rw fine (elim (Option-cases (find_row payment_id_of p.id db.payments)) [
          | inl missing ↦ rw missing tt
          | inr (o, found) ↦ rw found (updated_stored f p db.payments h)
        ])
        | inr broken ↦ rw broken tt
      ];
}

insert_payment-Ensures :
    (p : Payment) → Ensures (insert_payment p) (λ _. Unit {0}) (λ _. HasPayment p)
unfolding insert_payment
insert_payment-Ensures p = record {
  ensures = λ db _. elim (Bool-cases (payment_checks p)) [
    | inl fine ↦ rw fine (Memᴰ.append_right db.payments (Memᴰ.head refl))
    | inr broken ↦ rw broken tt
  ];
}

order_found :
    (db : Db) (id : ℕ)
    → Ensures (find_order id) (λ before. before ≡ db) (λ order _. (find_order id db).0 ≡ ok order)
order_found db id = record { ensures = λ before h. rw h (found (find_order id db)) }
  where
    found : (out : Result Order EngineError × Db) → OnSuccess (λ order _. out.0 ≡ ok order) out
    found (ok order, after) = refl
    found (err e, after) = tt

module _ (env : Env) (endpoints : List WebhookEndpoint) (id merchant order_id : ℕ) (amount : Money)
    (card : CardDetails) (notes : List (String × String)) (order : Order) where
  abbrev attempt : Payment
  attempt = new_card_attempt id order_id merchant amount card notes env.now

  abbrev Attempted : AttemptOutcome → Payment → Db → Type 0
  Attempted o p db = IsAttempted merchant order_id amount o p db.payments

  -- The payment that an operation returns, as it is stored.
  returned :
      (o : AttemptOutcome) (p : Payment)
      → p.merchant_id ≡ merchant
      → p.order_id ≡ order_id
      → p.amount ≡ amount
      → p.status ≡ attempted_status o
      → p.error_code ≡ decline_code o
      → Ensures (pure p) (HasPayment p) (Attempted o)
  returned o p m i a s c = pure-Ensures (λ db h. record {
    is_stored = h;
    of_merchant = m;
    of_order = i;
    of_amount = a;
    has_status = s;
    has_code = c;
  })

  settle-Ensures :
      (o : AttemptOutcome)
      → attempted_status o ≡ PaymentStatus.captured
      → decline_code o ≡ none
      → Ensures (settle env endpoints attempt order) (HasPayment attempt) (λ out. Attempted o out.0)
  unfolding settle mark_captured transition can_transition_to
  settle-Ensures o s c =
      kept-Ensures (lift-KeepsPayments order_transition (mark_paid amount.minor order)) (λ paid.
        bind-Ensures _
          (update_payment_status-Ensures attempt PaymentStatus.captured (some env.now) (pos 0) none
            none)
          (λ _.
            kept-Ensures (update_order_status-KeepsPayments paid.id paid.status paid.amount_paid)
              (λ _.
                kept-Ensures
                  (lift-KeepsPayments money_error (compute (for_currency amount.currency) amount))
                  (λ fees.
                    kept-Ensures (post_capture-KeepsPayments env merchant amount fees id) (λ _.
                      kept-Ensures (emit-KeepsPayments env endpoints merchant _ _) (λ _.
                        kept-Ensures (emit-KeepsPayments env endpoints merchant _ _) (λ _.
                          pure-Ensures (λ db h. record {
                            is_stored = h;
                            of_merchant = refl;
                            of_order = refl;
                            of_amount = refl;
                            has_status = sym s;
                            has_code = sym c;
                          }))))))))

  apply_outcome-Ensures :
      (o : AttemptOutcome)
      → Ensures
          (apply_outcome env endpoints merchant o attempt order)
          (HasPayment attempt)
          (Attempted o)
  unfolding apply_outcome mark_authorized mark_failed mark_requires_action transition
      can_transition_to decline_code
  apply_outcome-Ensures capture =
      bind-Ensures _ (settle-Ensures capture refl refl) (λ settled. pure-Ensures (λ db h. h))
  apply_outcome-Ensures capture_then_dispute =
      bind-Ensures _ (settle-Ensures capture_then_dispute refl refl) (λ settled.
        bind-Ensures _
          (KeepsPayments-Ensures
            (λ ps. IsAttempted merchant order_id amount capture_then_dispute settled.0 ps)
            (enqueue_job-KeepsPayments env _ _ _ _))
          (λ _. pure-Ensures (λ db h. h)))
  apply_outcome-Ensures authorize =
      bind-Ensures _
        (update_payment_status-Ensures attempt PaymentStatus.authorized none (pos 0) none none)
        (λ _.
          kept-Ensures (emit-KeepsPayments env endpoints merchant _ _)
            (λ _. returned authorize _ refl refl refl refl refl))
  apply_outcome-Ensures (decline code description) =
      bind-Ensures _
        (update_payment_status-Ensures attempt PaymentStatus.failed none (pos 0) (some code)
          (some description))
        (λ _.
          kept-Ensures (emit-KeepsPayments env endpoints merchant _ _)
            (λ _. returned (decline code description) _ refl refl refl refl refl))
  apply_outcome-Ensures require_action =
      bind-Ensures _
        (update_payment_status-Ensures attempt PaymentStatus.requires_action none (pos 0) none none)
        (λ _. returned require_action _ refl refl refl refl refl)
  apply_outcome-Ensures risk_hold =
      kept-Ensures (enqueue_job-KeepsPayments env _ _ _ _)
        (λ _. returned risk_hold attempt refl refl refl refl refl)

-- A payment made for an order that is in the tables.
abbrev pub IsAttemptFor :
    ℕ → CreatePaymentInput → AttemptOutcome → Db → Payment → List Payment → Type 0
IsAttemptFor merchant input o db p ps =
    (order : Order) × ((find_order input.order_id db).0 ≡ ok order)
    × IsAttempted merchant order.id order.amount o p ps

create_body-Ensures :
    (env : Env) (endpoints : List WebhookEndpoint) (merchant : ℕ) (input : CreatePaymentInput)
    (decision : AttemptDecision) (db : Db)
    → Ensures
        (create_body env endpoints merchant input decision)
        (λ before. before ≡ db)
        (λ p after. IsAttemptFor merchant input decision.outcome db p after.payments)
unfolding create_body
create_body-Ensures env endpoints merchant input decision db =
    bind-Ensures (λ order _. (find_order input.order_id db).0 ≡ ok order)
      (order_found db input.order_id)
      (λ order. given-Ensures (λ found.
        map-Ensures
          (λ p after. IsAttempted merchant order.id order.amount decision.outcome p after.payments)
          (skip-Ensures (throw_if (not (order.merchant_id == merchant)) (not_found "order")) (λ _.
            skip-Ensures
              (throw_if (OrderStatus.is_terminal order.status)
                (validation "order" order_is_terminal))
              (λ _.
                skip-Ensures
                  (lift card_error (
                    card_details input.card_number (env.card_fingerprint input.card_number)
                      input.card_exp_month input.card_exp_year))
                  (λ card.
                    skip-Ensures
                      (lift card_error (assert_not_expired card (env.year_month env.now)))
                      (λ _. skip-Ensures (new_id env) (λ id.
                        skip-Ensures (lift order_transition (mark_attempted order)) (λ attempted.
                          skip-Ensures
                            (update_order_status attempted.id attempted.status
                              attempted.amount_paid)
                            (λ _. bind-Ensures _ (insert_payment-Ensures _) (λ _.
                              kept-Ensures (insert_attempt-KeepsPayments env id 1 _ _ _) (λ _.
                                apply_outcome-Ensures env endpoints id merchant order.id
                                  order.amount card input.notes attempted decision.outcome))))))))))
          (λ p after h. (order, found, h))))

-- A payment that `PaymentService::create` returns stands in the tables as it is returned, for the merchant and for
-- the amount of the order, in the status that the outcome calls for and with its decline code.
pub create_payment-IsAttemptFor :
    (env : Env) (merchant : ℕ) (input : CreatePaymentInput) (decision : AttemptDecision) (db : Db)
    (p : Payment) (after : Db)
    → create_payment env merchant input decision db ≡ (ok p, after)
    → IsAttemptFor merchant input decision.outcome db p after.payments
unfolding create_payment
create_payment-IsAttemptFor env merchant input decision db p after e =
    let endpoints = active_for_merchant merchant db.endpoints in
    let body = create_body env endpoints merchant input decision in
    let made = create_body-Ensures env endpoints merchant input decision db in
    OnSuccess-ok (λ x t. IsAttemptFor merchant input decision.outcome db x t.payments)
      (transaction body db) p after (OnSuccess-transaction _ body db (made.ensures db refl)) e
