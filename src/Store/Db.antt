-- ===== src/Store/Db.antt =====
-- The tables as one state, and a statement as a state transformer that may fail.
use payment_gateway_sandbox.Prelude.{ℕ, suc, String, Bool, true, false, Option, List}
use payment_gateway_sandbox.Prelude.Bytes.{Bytes}
use payment_gateway_sandbox.Prelude.Result.{Result, ok, err}
use payment_gateway_sandbox.Domain.Money.{Money}
use payment_gateway_sandbox.Domain.Card.{YearMonth}
use payment_gateway_sandbox.Domain.Order.{Order}
use payment_gateway_sandbox.Domain.Payment.{Payment}
use payment_gateway_sandbox.Domain.Ledger.Account.{LedgerAccount}
use payment_gateway_sandbox.Domain.Ledger.Transaction.{BalancedTransaction}
use payment_gateway_sandbox.Store.Error.{EngineError}
use payment_gateway_sandbox.Store.Job.{Job}
use payment_gateway_sandbox.Store.Deliveries.{WebhookDelivery}

pub data RefundStatus : Type 0 where
  pending processed failed : RefundStatus

pub record Refund : Type 0 where
  pub id : ℕ
  pub payment_id : ℕ
  pub merchant_id : ℕ
  pub amount : Money
  pub reason : Option String
  pub status : RefundStatus
  pub created_at : ℕ
  pub processed_at : Option ℕ

pub record PaymentAttempt : Type 0 where
  pub id : ℕ
  pub payment_id : ℕ
  pub attempt_number : ℕ
  pub outcome : String
  pub decline_code : Option String
  pub latency_ms : ℕ
  pub created_at : ℕ

-- A row of `ledger_transactions` with its rows of `ledger_entries`.
pub record Posting : Type 0 where
  pub id : ℕ
  pub transaction : BalancedTransaction
  pub reference_type : String
  pub reference_id : ℕ
  pub created_at : ℕ

pub record WebhookEndpoint : Type 0 where
  pub id : ℕ
  pub merchant_id : ℕ
  pub url : Bytes
  pub signing_secret : Bytes
  pub enabled_events : List String
  pub disabled_at : Option ℕ
  pub created_at : ℕ

-- The `data` object of an event: the values that the JSON is built from.
pub data EventData : Type 0 where
  payment_event_data : Payment → Order → EventData
  order_event_data : Order → EventData
  refund_event_data : Refund → Payment → EventData

pub record Event : Type 0 where
  pub id : ℕ
  pub merchant_id : ℕ
  pub event_type : String
  pub payload : EventData
  pub api_version : String
  pub created_at : ℕ

pub record Db : Type 0 where
  pub orders : List Order
  pub payments : List Payment
  pub attempts : List PaymentAttempt
  pub refunds : List Refund
  pub accounts : List LedgerAccount
  pub postings : List Posting
  pub endpoints : List WebhookEndpoint
  pub events : List Event
  pub deliveries : List WebhookDelivery
  pub jobs : List Job
  -- how many uuids have been drawn
  pub drawn : ℕ

-- What the program takes from outside: the clock, the calendar, the keyed hash of a card number and
-- the uuid generator, whose n-th value is `uuid n`.
pub record Env : Type 0 where
  pub now : ℕ
  pub year_month : ℕ → YearMonth
  pub card_fingerprint : List ℕ → String
  pub uuid : ℕ → ℕ

abbrev pub Tx : Type 0 → Type 0
Tx A = Db → Result A EngineError × Db

-- What follows a statement: nothing, after an error.
abbrev pub followed_by :
    {A B : Type 0} → (A → Tx B) → Result A EngineError → Db → Result B EngineError × Db
followed_by f (ok a) db = f a db
followed_by f (err e) db = (err e, db)

infixl 5 ◌>>=◌ ◌>>◌
abbrev pub ◌>>=◌ : {A B : Type 0} → Tx A → (A → Tx B) → Tx B
◌>>=◌ m f db = followed_by f (m db).0 (m db).1

abbrev pub ◌>>◌ : {B : Type 0} → Tx (Unit {0}) → Tx B → Tx B
m >> k = m >>= λ _. k

module _ {A : Type 0} where
  abbrev pub pure : A → Tx A
  pure a db = (ok a, db)

  abbrev pub throw : EngineError → Tx A
  throw e db = (err e, db)

  -- `?` on a pure result, with its conversion of the error
  abbrev pub lift : {E : Type 0} → (E → EngineError) → Result A E → Tx A
  lift f (ok a) db = (ok a, db)
  lift f (err e) db = (err (f e), db)

  abbrev pub gets : (Db → A) → Tx A
  gets f db = (ok (f db), db)

abbrev pub modify : (Db → Db) → Tx (Unit {0})
modify f db = (ok tt, f db)

abbrev pub throw_if : Bool → EngineError → Tx (Unit {0})
throw_if true e db = (err e, db)
throw_if false e db = (ok tt, db)

-- `Uuid::now_v7`, behind every `Id::new`
unfoldable pub new_id : Env → Tx ℕ
new_id env db = (ok (env.uuid db.drawn), record db { drawn = suc db.drawn })
