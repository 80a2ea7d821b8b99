-- ===== src/Store/Payments/Row/RoundTrip.antt =====
-- Which payments are read back as they were written.
use payment_gateway_sandbox.Prelude.{
  ℕ, ◌≡◌, ◌≤◌, ◌<◌, refl, ◌∙◌, arith, inl, inr, Bool, true, false, Bool-cases, Option, none, some,
  ltb, leb, if◌then◌else◌,
}
use payment_gateway_sandbox.Prelude.Result.{Result, ok, err, ◌>>=◌, Result-cases}
use payment_gateway_sandbox.Domain.Card.{CardDetails}
use payment_gateway_sandbox.Domain.Payment.{Payment}
use payment_gateway_sandbox.Store.Error.{StoreError, decode}
use payment_gateway_sandbox.Store.Payments.Row.{
  NotesJson, money_from_columns-money_to_columns, as_i16, to_unsigned, mapped, read_card,
  into_payment, row_of_payment, stored_and_read,
}

-- What the types of the fields of a card bound: a u8 and a u16.
abbrev pub CardFits : Option CardDetails → Type 0
CardFits none = Unit
CardFits (some c) = (c.exp_month ≤ 255) × (c.exp_year ≤ 65535)

-- A card whose expiry year is below 2 ^ 15, or none.
abbrev pub has_near_expiry : Option CardDetails → Bool
has_near_expiry none = true
has_near_expiry (some c) = ltb c.exp_year 32768

abbrev card_read_back : Option CardDetails → Result (Option CardDetails) StoreError
card_read_back card =
    read_card (mapped (λ c. c.last4) card) (mapped (λ c. c.brand) card)
      (mapped (λ c. as_i16 c.exp_month) card) (mapped (λ c. as_i16 c.exp_year) card)
      (mapped (λ c. c.fingerprint) card)

to_unsigned-near : (max n : ℕ) → n ≤ max → n < 32768 → to_unsigned max (as_i16 n) ≡ some n
unfolding as_i16 to_unsigned
to_unsigned-near max n h k =
    let small : ltb n 32768 ≡ true = ground arith in
    let fits : leb n max ≡ true = ground arith in rw small (rw fits refl)

to_unsigned-far : (max n : ℕ) → 32768 ≤ n → to_unsigned max (as_i16 n) ≡ none
unfolding as_i16 to_unsigned
to_unsigned-far max n h = let big : ltb n 32768 ≡ false = ground arith in rw big refl

card_reads_back :
    (card : Option CardDetails)
    → CardFits card
    → card_read_back card
      ≡ (if has_near_expiry card then ok card else err (decode "payment.card_exp_year"))
card_reads_back none f = refl
card_reads_back (some c) f = elim (Bool-cases (ltb c.exp_year 32768)) [
  | inl near ↦
      rw
        (
          near,
          to_unsigned-near 255 c.exp_month f.0 (omega arith),
          to_unsigned-near 65535 c.exp_year f.1 (ground (arith, near)),
        )
        refl
  | inr far ↦
      rw
        (
          far,
          to_unsigned-near 255 c.exp_month f.0 (omega arith),
          to_unsigned-far 65535 c.exp_year (ground (arith, far)),
        )
        refl
]

-- The payment with its times as the columns keep them.
abbrev pub with_stored_times : (ℕ → ℕ) → Payment → Payment
with_stored_times timestamptz p = record p {
  created_at = timestamptz p.created_at;
  captured_at = mapped timestamptz p.captured_at;
}

read_card-stored :
    {Json : Type 0} (json : NotesJson Json) (timestamptz : ℕ → ℕ) (p : Payment) (j : Json)
    → json.to_value p.notes ≡ some j
    → json.from_value j ≡ some p.notes
    → stored_and_read json timestamptz p ≡ (
        card_read_back p.card >>= λ card.
        ok (record (with_stored_times timestamptz p) { card = card }))
unfolding row_of_payment into_payment
read_card-stored json timestamptz p j w r = rw w (
    rw (money_from_columns-money_to_columns p.amount) (elim (Result-cases (card_read_back p.card)) [
      | inl (c, e) ↦ rw e (rw r refl)
      | inr (x, e) ↦ rw e refl
    ]))

-- A payment without a card, or with one that expires before the year 32768, is read back from its row as it was
-- written, but for its two times, which are what the columns keep of them; a card that expires later makes every
-- reading of the row fail. The notes are read back by the JSON library, and the fields of the card are a u8 and a
-- u16.
pub payment_reads_back :
    {Json : Type 0} (json : NotesJson Json) (timestamptz : ℕ → ℕ) (p : Payment) (j : Json)
    → json.to_value p.notes ≡ some j
    → json.from_value j ≡ some p.notes
    → CardFits p.card
    → stored_and_read json timestamptz p ≡ (
        if has_near_expiry p.card
        then ok (with_stored_times timestamptz p)
        else err (decode "payment.card_exp_year"))
payment_reads_back json timestamptz p j w r f =
    read_card-stored json timestamptz p j w r ∙ elim (Bool-cases (has_near_expiry p.card)) [
      | inl near ↦ rw (card_reads_back p.card f, near) refl
      | inr far ↦ rw (card_reads_back p.card f, far) refl
    ]
