-- ===== src/Simulator.antt =====
-- The simulated acquirer (crates/simulator/card_engine.rs).
pub mod Cards
pub mod Gate
use payment_gateway_sandbox.Prelude.{
  ℕ, ◌+◌, ◌%◌, String, Bool, true, false, Option, none, some, List, [], ◌∷◌, if◌then◌else◌, ◌&&◌,
}
use payment_gateway_sandbox.Prelude.Int.{pos, rem, eqb_ℤ}
use payment_gateway_sandbox.Prelude.Bytes.{Bytes}
use payment_gateway_sandbox.Prelude.Result.{Result, ok, err, ◌>>=◌, ok_or}
use payment_gateway_sandbox.Domain.Money.{Money}
use payment_gateway_sandbox.Domain.Card.{digits_of}
use payment_gateway_sandbox.Simulator.Cards.{
  DeclineCode, Outcome, success, authorize, declined, requires_action, risk_hold,
  success_then_dispute, TestCard, lookup,
}

pub data SimulatorError : Type 0 where
  not_a_test_card : SimulatorError

pub record Decision : Type 0 where
  pub outcome : Outcome
  pub latency_ms : ℕ

-- `Decision::is_success`
unfoldable pub is_success : Outcome → Bool
is_success success = true
is_success success_then_dispute = true
is_success _ = false

-- `Decision::decline_code`
unfoldable pub decline_code_of : Outcome → Option DeclineCode
decline_code_of (declined code) = some code
decline_code_of _ = none

-- `Decision::outcome_str`
unfoldable pub decision_str : Outcome → String
decision_str success = "success"
decision_str success_then_dispute = "success"
decision_str authorize = "authorized"
decision_str (declined _) = "declined"
decision_str requires_action = "requires_action"
decision_str risk_hold = "risk_hold"

unfoldable pub amount_override : Money → Option Outcome
unfolding rem
amount_override amount = if eqb_ℤ (rem amount.minor (pos 100)) (pos 5) then some risk_hold else none

-- `bytes().map(|b| b as u32).sum()`
unfoldable pub sum : Bytes → ℕ
sum [] = 0
sum (b ∷ bs) = b + sum bs

unfoldable pub simulated_latency : Bytes → ℕ
unfolding sum
simulated_latency digits = 300 + sum digits % 500

-- The `match` on the override in `decide`.
unfoldable pub final_outcome : Option Outcome → Outcome → Outcome
final_outcome (some override_outcome) success = override_outcome
final_outcome _ outcome = outcome

unfoldable pub decide : Bytes → Money → Result Decision SimulatorError
unfolding amount_override simulated_latency final_outcome
decide card_number amount = do
  card ← ok_or (lookup card_number) not_a_test_card
  ok (record {
    outcome = final_outcome (amount_override amount) card.outcome;
    latency_ms = simulated_latency (digits_of card_number);
  })
