-- ===== src/Api/Routes/Payments/Vocabulary.antt =====
-- The simulator's words and the engine's.
use payment_gateway_sandbox.Prelude.{String, ◌≡◌, refl, Option, none, some}
use payment_gateway_sandbox.Simulator.Cards.{
  Outcome, DeclineCode, success, authorize, declined, requires_action, risk_hold,
  success_then_dispute, decline_str,
}
use payment_gateway_sandbox.Simulator.{decision_str, decline_code_of}
use payment_gateway_sandbox.Engine.Payments.{outcome_str, decline_code}
use payment_gateway_sandbox.Api.Routes.Payments.{map_outcome}

abbrev decline_str_of : Option DeclineCode → Option String
decline_str_of none = none
decline_str_of (some code) = some (decline_str code)

-- The translation from the simulator's words to the engine's keeps the text that is stored of an outcome and
-- the code of a decline.
pub outcome_str-map_outcome :
    (o : Outcome)
    → (outcome_str (map_outcome o) ≡ decision_str o)
      × (decline_code (map_outcome o) ≡ decline_str_of (decline_code_of o))
unfolding outcome_str map_outcome decision_str decline_code decline_code_of
outcome_str-map_outcome success = (refl, refl)
outcome_str-map_outcome authorize = (refl, refl)
outcome_str-map_outcome (declined code) = (refl, refl)
outcome_str-map_outcome requires_action = (refl, refl)
outcome_str-map_outcome risk_hold = (refl, refl)
outcome_str-map_outcome success_then_dispute = (refl, refl)
