-- ===== src/Store/Payments/Row.antt =====
-- How a payment is written to its row and read back (`PaymentRow` and `insert` in crates/store/src/payment.rs,
-- with the columns of money in types.rs). The JSON library, which holds the notes, is a parameter, and so is what a
-- TIMESTAMPTZ column, which counts microseconds, keeps of a time, which counts nanoseconds; a SMALLINT is a signed
-- 16-bit number.
pub mod RoundTrip
use payment_gateway_sandbox.Prelude.{
  ℕ, ◌-◌, ◌≡◌, ◌≤◌, ◌<◌, refl, ◌∙◌, arith, inl, inr, String, Bool, true, false, Bool-cases, Option,
  none, some, List, ltb, leb, if◌then◌else◌,
}
use payment_gateway_sandbox.Prelude.Int.{ℤ, pos, negsuc}
use payment_gateway_sandbox.Prelude.Result.{Result, ok, err, ◌>>=◌, ok_or, map_err, Result-cases}
use payment_gateway_sandbox.Domain.Money.{Money, money, code, currency_from_str}
use payment_gateway_sandbox.Domain.Money.Laws.{currency_from_str-code}
use payment_gateway_sandbox.Domain.Card.{CardBrand, CardDetails}
use payment_gateway_sandbox.Domain.Payment.{Payment, PaymentMethodType}
use payment_gateway_sandbox.Domain.PaymentStatus.{PaymentStatus}
use payment_gateway_sandbox.Store.Error.{StoreError, decode}

abbrev pub Notes : Type 0
Notes = List (String × String)

-- `serde_json` on notes
pub record NotesJson (Json : Type 0) : Type 0 where
  pub to_value : Notes → Option Json
  pub from_value : Json → Option Notes

-- `money_to_columns`
unfoldable pub money_to_columns : Money → ℤ × String
money_to_columns m = (m.minor, code m.currency)

-- `money_from_columns`
unfoldable pub money_from_columns : ℤ → String → Result Money StoreError
unfolding currency_from_str
money_from_columns minor currency = do
  c ← map_err (λ _. decode "currency") (currency_from_str currency)
  ok (money minor c)

pub money_from_columns-money_to_columns :
    (m : Money) → money_from_columns (money_to_columns m).0 (money_to_columns m).1 ≡ ok m
unfolding money_from_columns money_to_columns
money_from_columns-money_to_columns m = rw (currency_from_str-code m.currency) refl

pub record PaymentRow (Json : Type 0) : Type 0 where
  pub id : ℕ
  pub order_id : ℕ
  pub merchant_id : ℕ
  pub amount_minor : ℤ
  pub currency : String
  pub amount_refunded : ℤ
  pub method : PaymentMethodType
  pub card_last4 : Option (List ℕ)
  pub card_brand : Option CardBrand
  pub card_exp_month : Option ℤ  -- i16
  pub card_exp_year : Option ℤ  -- i16
  pub card_fingerprint : Option String
  pub status : PaymentStatus
  pub error_code : Option String
  pub error_description : Option String
  pub notes : Json
  pub created_at : ℕ
  pub captured_at : Option ℕ

-- `as i16` on an unsigned number of at most 16 bits
unfoldable pub as_i16 : ℕ → ℤ
as_i16 n = if ltb n 32768 then pos n else negsuc (65535 - n)

-- `u8::try_from` and `u16::try_from` on an i16
unfoldable pub to_unsigned : ℕ → ℤ → Option ℕ
to_unsigned max (negsuc n) = none
to_unsigned max (pos n) = if leb n max then some n else none

abbrev pub mapped : {A B : Type 0} → (A → B) → Option A → Option B
mapped f none = none
mapped f (some a) = some (f a)

-- The card columns of a row.
abbrev pub read_card :
    Option (List ℕ)
    → Option CardBrand
    → Option ℤ
    → Option ℤ
    → Option String
    → Result (Option CardDetails) StoreError
read_card (some last4) (some brand) (some m) (some y) (some fp) = do
  exp_month ← ok_or (to_unsigned 255 m) (decode "payment.card_exp_month")
  exp_year ← ok_or (to_unsigned 65535 y) (decode "payment.card_exp_year")
  ok (
      some (record {
        last4 = last4;
        brand = brand;
        exp_month = exp_month;
        exp_year = exp_year;
        fingerprint = fp;
      }))
read_card _ _ _ _ _ = ok none

module _ {Json : Type 0} (json : NotesJson Json) (timestamptz : ℕ → ℕ) where
  -- `PaymentRow::into_domain`
  unfoldable pub into_payment : PaymentRow Json → Result Payment StoreError
  unfolding money_from_columns to_unsigned
  into_payment r = do
    amount ← money_from_columns r.amount_minor r.currency
    card ← read_card r.card_last4 r.card_brand r.card_exp_month r.card_exp_year r.card_fingerprint
    notes ← ok_or (json.from_value r.notes) (decode "payment.notes")
    ok (record {
      id = r.id;
      order_id = r.order_id;
      merchant_id = r.merchant_id;
      amount = amount;
      amount_refunded = r.amount_refunded;
      method = r.method;
      card = card;
      status = r.status;
      error_code = r.error_code;
      error_description = r.error_description;
      notes = notes;
      created_at = r.created_at;
      captured_at = r.captured_at;
    })

  -- The values that `insert` binds.
  unfoldable pub row_of_payment : Payment → Result (PaymentRow Json) StoreError
  unfolding money_to_columns as_i16
  row_of_payment p = do
    notes ← ok_or (json.to_value p.notes) (decode "payment.notes")
    ok (record {
      id = p.id;
      order_id = p.order_id;
      merchant_id = p.merchant_id;
      amount_minor = (money_to_columns p.amount).0;
      currency = (money_to_columns p.amount).1;
      amount_refunded = p.amount_refunded;
      method = p.method;
      card_last4 = mapped (λ c. c.last4) p.card;
      card_brand = mapped (λ c. c.brand) p.card;
      card_exp_month = mapped (λ c. as_i16 c.exp_month) p.card;
      card_exp_year = mapped (λ c. as_i16 c.exp_year) p.card;
      card_fingerprint = mapped (λ c. c.fingerprint) p.card;
      status = p.status;
      error_code = p.error_code;
      error_description = p.error_description;
      notes = notes;
      created_at = timestamptz p.created_at;
      captured_at = mapped timestamptz p.captured_at;
    })

  -- Written, then read.
  abbrev pub stored_and_read : Payment → Result Payment StoreError
  stored_and_read p = row_of_payment p >>= into_payment
