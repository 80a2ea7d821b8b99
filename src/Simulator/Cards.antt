-- ===== src/Simulator/Cards.antt =====
-- The table of test cards (crates/simulator/cards.rs). A text is the list of its bytes.
use payment_gateway_sandbox.Prelude.{
  String, Bool, true, false, Option, none, some, List, [], ◌∷◌, if◌then◌else◌,
}
use payment_gateway_sandbox.Prelude.Bytes.{Bytes, eq_bytes}
use payment_gateway_sandbox.Domain.Card.{digits_of}

pub data DeclineCode : Type 0 where
  card_declined insufficient_funds expired_card incorrect_cvc processing_error lost_card
        stolen_card :
      DeclineCode

pub data Outcome : Type 0 where
  success authorize : Outcome
  declined : DeclineCode → Outcome
  requires_action risk_hold success_then_dispute : Outcome

-- `DeclineCode::as_str`
unfoldable pub decline_str : DeclineCode → String
decline_str card_declined = "card_declined"
decline_str insufficient_funds = "insufficient_funds"
decline_str expired_card = "expired_card"
decline_str incorrect_cvc = "incorrect_cvc"
decline_str processing_error = "processing_error"
decline_str lost_card = "lost_card"
decline_str stolen_card = "stolen_card"

-- `DeclineCode::description`
unfoldable pub decline_description : DeclineCode → String
decline_description card_declined = "The card was declined."
decline_description insufficient_funds = "The card has insufficient funds."
decline_description expired_card = "The card has expired."
decline_description incorrect_cvc = "The security code is incorrect."
decline_description processing_error = "An error occurred while processing the card."
decline_description lost_card = "The card was declined."
decline_description stolen_card = "The card was declined."

pub record TestCard : Type 0 where
  pub number : Bytes
  pub outcome : Outcome
  pub description : String

abbrev pub test_card : Bytes → Outcome → String → TestCard
test_card number outcome description = record {
  number = number;
  outcome = outcome;
  description = description;
}

-- `TEST_CARDS`
abbrev pub test_cards : List TestCard
test_cards =
    test_card
      (b'4' ∷ b'2' ∷ b'4' ∷ b'2' ∷ b'4' ∷ b'2' ∷ b'4' ∷ b'2' ∷ b'4' ∷ b'2' ∷ b'4' ∷ b'2' ∷ b'4'
        ∷ b'2' ∷ b'4' ∷ b'2' ∷ [])
      success "Succeeds and is captured immediately"
    ∷ test_card
        (b'4' ∷ b'0' ∷ b'0' ∷ b'0' ∷ b'0' ∷ b'0' ∷ b'0' ∷ b'0' ∷ b'0' ∷ b'0' ∷ b'0' ∷ b'0' ∷ b'0'
          ∷ b'0' ∷ b'7' ∷ b'7' ∷ [])
        authorize "Authorizes only — requires a separate capture call"
    ∷ test_card
        (b'4' ∷ b'0' ∷ b'0' ∷ b'0' ∷ b'0' ∷ b'0' ∷ b'0' ∷ b'0' ∷ b'0' ∷ b'0' ∷ b'0' ∷ b'0' ∷ b'0'
          ∷ b'0' ∷ b'0' ∷ b'2' ∷ [])
        (declined card_declined) "Declined — generic"
    ∷ test_card
        (b'4' ∷ b'0' ∷ b'0' ∷ b'0' ∷ b'0' ∷ b'0' ∷ b'0' ∷ b'0' ∷ b'0' ∷ b'0' ∷ b'0' ∷ b'0' ∷ b'9'
          ∷ b'9' ∷ b'9' ∷ b'5' ∷ [])
        (declined insufficient_funds) "Declined — insufficient funds"
    ∷ test_card
        (b'4' ∷ b'0' ∷ b'0' ∷ b'0' ∷ b'0' ∷ b'0' ∷ b'0' ∷ b'0' ∷ b'0' ∷ b'0' ∷ b'0' ∷ b'0' ∷ b'0'
          ∷ b'0' ∷ b'6' ∷ b'9' ∷ [])
        (declined expired_card) "Declined — expired card"
    ∷ test_card
        (b'4' ∷ b'0' ∷ b'0' ∷ b'0' ∷ b'0' ∷ b'0' ∷ b'0' ∷ b'0' ∷ b'0' ∷ b'0' ∷ b'0' ∷ b'0' ∷ b'0'
          ∷ b'1' ∷ b'2' ∷ b'7' ∷ [])
        (declined incorrect_cvc) "Declined — incorrect CVC"
    ∷ test_card
        (b'4' ∷ b'0' ∷ b'0' ∷ b'0' ∷ b'0' ∷ b'0' ∷ b'0' ∷ b'0' ∷ b'0' ∷ b'0' ∷ b'0' ∷ b'0' ∷ b'0'
          ∷ b'1' ∷ b'1' ∷ b'9' ∷ [])
        (declined processing_error) "Declined — processing error"
    ∷ test_card
        (b'4' ∷ b'0' ∷ b'0' ∷ b'0' ∷ b'0' ∷ b'0' ∷ b'0' ∷ b'0' ∷ b'0' ∷ b'0' ∷ b'0' ∷ b'0' ∷ b'9'
          ∷ b'9' ∷ b'8' ∷ b'7' ∷ [])
        (declined lost_card) "Declined — reported lost"
    ∷ test_card
        (b'4' ∷ b'0' ∷ b'0' ∷ b'0' ∷ b'0' ∷ b'0' ∷ b'0' ∷ b'0' ∷ b'0' ∷ b'0' ∷ b'0' ∷ b'0' ∷ b'9'
          ∷ b'9' ∷ b'7' ∷ b'9' ∷ [])
        (declined stolen_card) "Declined — reported stolen"
    ∷ test_card
        (b'4' ∷ b'0' ∷ b'0' ∷ b'0' ∷ b'0' ∷ b'0' ∷ b'2' ∷ b'7' ∷ b'6' ∷ b'0' ∷ b'0' ∷ b'0' ∷ b'3'
          ∷ b'1' ∷ b'8' ∷ b'4' ∷ [])
        requires_action "Requires 3-D Secure authentication"
    ∷ test_card
        (b'4' ∷ b'0' ∷ b'0' ∷ b'0' ∷ b'0' ∷ b'0' ∷ b'0' ∷ b'0' ∷ b'0' ∷ b'0' ∷ b'0' ∷ b'0' ∷ b'0'
          ∷ b'2' ∷ b'5' ∷ b'9' ∷ [])
        success_then_dispute "Succeeds, then a dispute opens after 60 seconds"
    ∷ test_card
        (b'5' ∷ b'5' ∷ b'5' ∷ b'5' ∷ b'5' ∷ b'5' ∷ b'5' ∷ b'5' ∷ b'5' ∷ b'5' ∷ b'5' ∷ b'5' ∷ b'4'
          ∷ b'4' ∷ b'4' ∷ b'4' ∷ [])
        success "Mastercard — succeeds"
    ∷ test_card
        (b'6' ∷ b'5' ∷ b'2' ∷ b'1' ∷ b'0' ∷ b'0' ∷ b'0' ∷ b'0' ∷ b'0' ∷ b'0' ∷ b'0' ∷ b'0' ∷ b'0'
          ∷ b'0' ∷ b'0' ∷ b'7' ∷ [])
        success "RuPay — succeeds"
    ∷ test_card
        (b'3' ∷ b'7' ∷ b'8' ∷ b'2' ∷ b'8' ∷ b'2' ∷ b'2' ∷ b'4' ∷ b'6' ∷ b'3' ∷ b'1' ∷ b'0' ∷ b'0'
          ∷ b'0' ∷ b'5' ∷ [])
        success "Amex — succeeds"
    ∷ []

-- `iter().find(|c| c.number == digits)`
unfoldable pub find_card : Bytes → List TestCard → Option TestCard
find_card digits [] = none
find_card digits (c ∷ cs) = if eq_bytes c.number digits then some c else find_card digits cs

-- `lookup`; `normalize` is `digits_of`, the filter that `CardDetails::new` has too.
unfoldable pub lookup : Bytes → Option TestCard
unfolding find_card
lookup card_number = find_card (digits_of card_number) test_cards

abbrev pub is_known : Option TestCard → Bool
is_known none = false
is_known (some c) = true

unfoldable pub is_test_card : Bytes → Bool
unfolding lookup
is_test_card card_number = is_known (lookup card_number)
