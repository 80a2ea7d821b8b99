-- ===== src/Api/Routes/Payments/Gate.antt =====
-- What a request to create a payment leaves behind, by its answer.
use payment_gateway_sandbox.Prelude.{
  ℕ, String, ◌≡◌, ◌≢◌, inl, inr, refl, sym, ◌∙◌, ap, arith, Bool, true, false, not, Bool-cases,
  Option-cases, ◌==◌, Option, none, some,
}
use payment_gateway_sandbox.Prelude.Bytes.{Bytes}
use payment_gateway_sandbox.Prelude.Result.{Result, ok, err}
use payment_gateway_sandbox.Domain.Order.{Order}
use payment_gateway_sandbox.Domain.Payment.{Payment}
use payment_gateway_sandbox.Domain.Id
use payment_gateway_sandbox.Domain.Money.{Money}
use payment_gateway_sandbox.Domain.ApiKey.{payments_write}
use payment_gateway_sandbox.Store.Db.{Db, Env, followed_by, throw_if, pure, ◌>>◌}
use payment_gateway_sandbox.Store.Rows.{find_row}
use payment_gateway_sandbox.Store.Orders.{find_order, order_id_of}
use payment_gateway_sandbox.Store.Error.{EngineError, not_found}
use payment_gateway_sandbox.Engine.Atomic.{create_payment-IsAtomic, rolled_back}
use payment_gateway_sandbox.Engine.Orders.{get_order}
use payment_gateway_sandbox.Engine.Payments.{create_payment}
use payment_gateway_sandbox.Simulator.Cards
use payment_gateway_sandbox.Simulator.Cards.{
  lookup, Outcome, success, success_then_dispute, authorize, requires_action, risk_hold,
  decline_str,
}
use mathlib.Core.List.{Memᴰ}
use payment_gateway_sandbox.Domain.PaymentStatus.{PaymentStatus}
use payment_gateway_sandbox.Engine.Payments.{decline_code}
use payment_gateway_sandbox.Engine.Payments.Created.{attempted_status, create_payment-IsAttemptFor}
use payment_gateway_sandbox.Simulator.{Decision, SimulatorError, decide}
use payment_gateway_sandbox.Api.Error.{ApiError, from_engine}
use payment_gateway_sandbox.Api.Auth.Cache.{AuthCtx}
use payment_gateway_sandbox.Api.Auth.{require}
use payment_gateway_sandbox.Api.Handler.{Handler, checked, serve, served, reply, path_id}
use payment_gateway_sandbox.Api.Routes.Payments.{
  CreatePaymentRequest, create, is_failed, check_cvc, create_gated, created_reply, decided,
  map_decision, map_outcome, input_of,
}

-- The status that a verdict of the simulator gives a payment, and its code of an error.
abbrev pub verdict_status : Outcome → PaymentStatus
verdict_status success = PaymentStatus.captured
verdict_status success_then_dispute = PaymentStatus.captured
verdict_status authorize = PaymentStatus.authorized
verdict_status (Cards.declined code) = PaymentStatus.failed
verdict_status requires_action = PaymentStatus.requires_action
verdict_status risk_hold = PaymentStatus.created

abbrev pub verdict_code : Outcome → Option String
verdict_code (Cards.declined code) = some (decline_str code)
verdict_code _ = none

-- A payment that the service stored for a request: it stands in the tables for an order of the caller and for the
-- order's amount, in the status and with the code of the simulator's verdict on the card and that amount.
pub record Stored (auth : AuthCtx) (req : CreatePaymentRequest) (db : Db) (p : Payment) (after : Db)
    : Type 0 where
  pub order_id : ℕ
  pub order : Order
  pub decision : Decision
  pub owned : (get_order auth.merchant_id order_id db).0 ≡ ok order
  pub verdict : decide req.card.number order.amount ≡ ok decision
  pub is_stored : Memᴰ p after.payments
  pub of_merchant : p.merchant_id ≡ auth.merchant_id
  pub of_order : p.order_id ≡ order.id
  pub of_amount : p.amount ≡ order.amount
  pub has_status : p.status ≡ verdict_status decision.outcome
  pub has_code : p.error_code ≡ verdict_code decision.outcome

-- How a request to create a payment ends: without a payment, with the tables as they were; with a stored
-- payment that failed, which the error names; or with a stored payment that did not fail.
pub data Ends (auth : AuthCtx) (req : CreatePaymentRequest) (db : Db)
    : Result Payment ApiError × Db → Type 0 where
  refused : (e : ApiError) → Ends auth req db (err e, db)
  declined :
      (e : ApiError) (p : Payment) (after : Db)
      → Stored auth req db p after
      → is_failed p.status ≡ true
      → (e.status ≡ 402) × (e.payment_id ≡ some p.id)
      → Ends auth req db (err e, after)
  accepted :
      (p : Payment) (after : Db)
      → Stored auth req db p after
      → is_failed p.status ≡ false
      → Ends auth req db (ok p, after)

ok-injective : {A : Type 0} (r : Result A EngineError) (x y : A) → r ≡ ok x → r ≡ ok y → x ≡ y
ok-injective r x y h k = cc

map_outcome-status : (o : Outcome) → attempted_status (map_outcome o) ≡ verdict_status o
unfolding map_outcome
map_outcome-status success = refl
map_outcome-status success_then_dispute = refl
map_outcome-status authorize = refl
map_outcome-status (Cards.declined code) = refl
map_outcome-status requires_action = refl
map_outcome-status risk_hold = refl

map_outcome-code : (o : Outcome) → decline_code (map_outcome o) ≡ verdict_code o
unfolding map_outcome decline_code
map_outcome-code success = refl
map_outcome-code success_then_dispute = refl
map_outcome-code authorize = refl
map_outcome-code (Cards.declined code) = refl
map_outcome-code requires_action = refl
map_outcome-code risk_hold = refl

unless_thrown :
    (b : Bool) (e : EngineError) (x o : Order) (db : Db)
    → ((throw_if b e >> pure x) db).0 ≡ ok o
    → x ≡ o
unless_thrown true e x o db h = cc
unless_thrown false e x o db h = cc

own_order :
    (merchant : ℕ) (r : Result Order EngineError) (after : Db) (o : Order)
    → (followed_by
        (λ order. throw_if (not (order.merchant_id == merchant)) (not_found "order") >> pure order)
        r
        after).0
      ≡ ok o
    → r ≡ ok o
own_order merchant (err e) after o h = cc
own_order merchant (ok x) after o h =
    ap (λ (y : Order). ok y)
      (unless_thrown (not (x.merchant_id == merchant)) (not_found "order") x o after h)

-- The order that `get` returns is the row's.
get_order-found :
    (merchant id : ℕ) (db : Db) (o : Order)
    → (get_order merchant id db).0 ≡ ok o
    → (find_order id db).0 ≡ ok o
unfolding get_order
get_order-found merchant id db o h =
    own_order merchant (find_order id db).0 (find_order id db).1 o h

module _ (env : Env) (auth : AuthCtx) (req : CreatePaymentRequest) (db : Db) where
  checked_ends :
      {A : Type 0} (r : Result A ApiError) (next : A → Handler Payment)
      → ((a : A) → r ≡ ok a → Ends auth req db (next a db))
      → Ends auth req db (checked r next db)
  checked_ends (err e) next h = refused e
  checked_ends (ok a) next h = h a refl

  -- A service that only reads.
  read_ends :
      {A : Type 0} (r : Result A EngineError) (after : Db) (next : A → Handler Payment)
      → after ≡ db
      → ((a : A) → r ≡ ok a → Ends auth req db (next a db))
      → Ends auth req db (served next r after)
  read_ends (err e) after next same h = rw same (refused (from_engine e))
  read_ends (ok a) after next same h = rw same (h a refl)

  stored_ends :
      (p : Payment) (after : Db)
      → Stored auth req db p after
      → Ends auth req db (created_reply p, after)
  unfolding created_reply
  stored_ends p after e = elim (Bool-cases (is_failed p.status)) [
    | inl f ↦ rw f (declined _ p after e f (refl, refl))
    | inr f ↦ rw f (accepted p after e f)
  ]

  made-Stored :
      (order_id : ℕ) (o : Order) (d : Decision) (p : Payment) (after : Db)
      → (get_order auth.merchant_id order_id db).0 ≡ ok o
      → decide req.card.number o.amount ≡ ok d
      → create_payment env auth.merchant_id (input_of order_id req) (map_decision d) db
        ≡ (ok p, after)
      → Stored auth req db p after
  unfolding map_decision
  made-Stored order_id o d p after g v h =
      let (found, is_found, attempted) =
        create_payment-IsAttemptFor env auth.merchant_id (input_of order_id req) (map_decision d) db
          p after h in
      let same : o ≡ found =
        ok-injective (find_order order_id db).0 o found
          (get_order-found auth.merchant_id order_id db o g) is_found in
      record {
        order_id = order_id;
        order = o;
        decision = d;
        owned = g;
        verdict = v;
        is_stored = attempted.is_stored;
        of_merchant = attempted.of_merchant;
        of_order = attempted.of_order ∙ sym (ap (λ (x : Order). x.id) same);
        of_amount = attempted.of_amount ∙ sym (ap (λ (x : Order). x.amount) same);
        has_status = attempted.has_status ∙ map_outcome-status d.outcome;
        has_code = attempted.has_code ∙ map_outcome-code d.outcome;
      }

  service_ends :
      (order_id : ℕ) (o : Order) (d : Decision) (r : Result Payment EngineError) (after : Db)
      → (get_order auth.merchant_id order_id db).0 ≡ ok o
      → decide req.card.number o.amount ≡ ok d
      → create_payment env auth.merchant_id (input_of order_id req) (map_decision d) db ≡ (r, after)
      → Ends auth req db (served (λ p. reply (created_reply p)) r after)
  service_ends order_id o d (err e) after g v h =
      let out = create_payment env auth.merchant_id (input_of order_id req) (map_decision d) db in
      let atomic =
        create_payment-IsAtomic env auth.merchant_id (input_of order_id req) (map_decision d) db in
      let same : after ≡ db =
        sym (ap (λ (x : Result Payment EngineError × Db). x.1) h)
        ∙ rolled_back db out atomic (ap (λ (x : Result Payment EngineError × Db). x.0) h) in
      rw same (refused (from_engine e))
  service_ends order_id o d (ok p) after g v h =
      stored_ends p after (made-Stored order_id o d p after g v h)

  decided-ok : (r : Result Decision SimulatorError) (d : Decision) → decided r ≡ ok d → r ≡ ok d
  decided-ok (err e) d h = cc
  decided-ok (ok x) d h = cc

  gated_ends :
      (order_id : ℕ) (o : Order)
      → (get_order auth.merchant_id order_id db).0 ≡ ok o
      → Ends auth req db (create_gated env auth order_id req o db)
  unfolding create_gated
  gated_ends order_id o g =
      checked_ends (decided (decide req.card.number o.amount))
        (λ d.
          serve (create_payment env auth.merchant_id (input_of order_id req) (map_decision d))
            (λ p. reply (created_reply p)))
        (λ d v.
          service_ends order_id o d
            (create_payment env auth.merchant_id (input_of order_id req) (map_decision d) db).0
            (create_payment env auth.merchant_id (input_of order_id req) (map_decision d) db).1 g
            (decided-ok (decide req.card.number o.amount) d v) refl)

get_order-same : (merchant id : ℕ) (db : Db) → (get_order merchant id db).1 ≡ db
unfolding get_order find_order
get_order-same merchant id db = elim (Option-cases (find_row order_id_of id db.orders)) [
  | inl n ↦ rw n refl
  | inr (o, e) ↦ elim (Bool-cases (o.merchant_id == merchant)) [
    | inl s ↦ rw (e, s) refl
    | inr s ↦ rw (e, s) refl
  ]
]

-- Every request to create a payment ends in one of the three ways: refused with the tables as they were, or
-- with a payment that stands in the tables for an order of the caller, in the status and with the code that the
-- simulator's verdict calls for, where a failed payment is named in an error of status 402.
pub create_ends :
    (env : Env) (parse_uuid : Bytes → Option ℕ) (auth : AuthCtx) (req : CreatePaymentRequest)
    (db : Db)
    → Ends auth req db (create env parse_uuid auth req db)
unfolding create
create_ends env parse_uuid auth req db =
    checked_ends env auth req db (require payments_write auth) _ (λ _ _.
      checked_ends env auth req db (check_cvc req.card.cvc_code) _ (λ _ _.
        checked_ends env auth req db (path_id parse_uuid Id.order req.order_id) _ (λ order_id _.
          read_ends env auth req db (get_order auth.merchant_id order_id db).0
            (get_order auth.merchant_id order_id db).1 (create_gated env auth order_id req)
            (get_order-same auth.merchant_id order_id db)
            (λ o g. gated_ends env auth req db order_id o g))))

not_decided :
    (raw : Bytes) (amount : Money) (d : Decision) → lookup raw ≡ none → decide raw amount ≢ ok d
unfolding decide
not_decided raw amount d n h = ground arith

unknown_card :
    (env : Env) (auth : AuthCtx) (req : CreatePaymentRequest) (db : Db)
    (out : Result Payment ApiError × Db)
    → lookup req.card.number ≡ none
    → Ends auth req db out
    → ((e : ApiError) × (out ≡ (err e, db)))
unknown_card env auth req db out n (refused e) = (e, refl)
unknown_card env auth req db out n (declined e p after s f i) =
    absurd (not_decided req.card.number s.order.amount s.decision n s.verdict)
unknown_card env auth req db out n (accepted p after s f) =
    absurd (not_decided req.card.number s.order.amount s.decision n s.verdict)

-- A card number that is not in the table of test cards is answered by an error, and every table stays as it
-- is.
pub unknown_cards_leave_no_trace :
    (env : Env) (parse_uuid : Bytes → Option ℕ) (auth : AuthCtx) (req : CreatePaymentRequest)
    (db : Db)
    → lookup req.card.number ≡ none
    → ((e : ApiError) × (create env parse_uuid auth req db ≡ (err e, db)))
unknown_cards_leave_no_trace env parse_uuid auth req db n =
    unknown_card env auth req db (create env parse_uuid auth req db) n
      (create_ends env parse_uuid auth req db)
