-- ===== src/Simulator/Gate.antt =====
-- What the gate of test cards lets through, and what the decision makes of it.
use payment_gateway_sandbox.Prelude.{
  ℕ, ◌-◌, ◌≤◌, ◌<◌, ◌≡◌, ◌≢◌, ◌⊎◌, inl, inr, refl, arith, String, Bool, true, ◌&&◌, leb, Bool-cases,
  Option-cases, none, some, List, [], ◌∷◌,
}
use payment_gateway_sandbox.Prelude.Int.{pos, rem, eq_of_parts}
use payment_gateway_sandbox.Prelude.Lists.{length}
use payment_gateway_sandbox.Prelude.Bytes.{Bytes, eq_bytes, eq_bytes_sound}
use payment_gateway_sandbox.Prelude.Result.{ok}
use payment_gateway_sandbox.Domain.Money.{Money}
use payment_gateway_sandbox.Domain.Card.{
  digits_of, luhn_valid, luhn_sum, nums_of, rev_onto, luhn_value, card_details, detect, drop,
}
use payment_gateway_sandbox.Simulator.Cards.{
  Outcome, success, risk_hold, TestCard, lookup, test_cards, find_card,
}
use payment_gateway_sandbox.Simulator.{
  Decision, decide, amount_override, final_outcome, simulated_latency,
}

-- A test that every card of a table passes.
abbrev all_cards : (TestCard → Bool) → List TestCard → Bool
all_cards p [] = true
all_cards p (c ∷ cs) = p c && all_cards p cs

find_card-all :
    (p : TestCard → Bool) (digits : Bytes) (cs : List TestCard) (c : TestCard)
    → all_cards p cs ≡ true
    → find_card digits cs ≡ some c
    → (p c ≡ true) × (c.number ≡ digits)
unfolding find_card
find_card-all p digits [] c a h = cc
find_card-all p digits (x ∷ xs) c a h = elim (Bool-cases (eq_bytes x.number digits)) [
  | inl e ↦ ground (arith, eq_bytes_sound x.number digits e)
  | inr e ↦ find_card-all p digits xs c (ground arith) (ground arith)
]

abbrev is_valid_card : TestCard → Bool
is_valid_card c = leb 12 (length c.number) && leb (length c.number) 19 && luhn_valid c.number

test_cards_valid : all_cards is_valid_card test_cards ≡ true
unfolding luhn_valid luhn_sum nums_of rev_onto luhn_value
test_cards_valid = refl

lookup-valid :
    (raw : Bytes) (c : TestCard)
    → lookup raw ≡ some c
    → (is_valid_card c ≡ true) × (c.number ≡ digits_of raw)
unfolding lookup
lookup-valid raw c h = find_card-all is_valid_card (digits_of raw) test_cards c test_cards_valid h

-- A number that the gate lets through, with a month of the year, always makes card details: those of the
-- card in the table.
pub test_cards_make_details :
    (raw : Bytes) (c : TestCard) (fingerprint : String) (month year : ℕ)
    → lookup raw ≡ some c
    → (1 ≤ month) × (month ≤ 12)
    → card_details raw fingerprint month year
      ≡ ok record {
        last4 = drop (length c.number - 4) c.number;
        brand = detect c.number;
        exp_month = month;
        exp_year = year;
        fingerprint = fingerprint;
      }
unfolding card_details
test_cards_make_details raw c fingerprint month year h m = ground (arith, lookup-valid raw c h)

-- An amount whose last two digits are 05.
abbrev pub EndsIn05 : Money → Type 0
EndsIn05 amount = rem amount.minor (pos 100) ≡ pos 5

amount_override_cases :
    (amount : Money)
    → ((amount_override amount ≡ some risk_hold) × EndsIn05 amount)
      ⊎ ((amount_override amount ≡ none) × ¬ EndsIn05 amount)
unfolding amount_override
amount_override_cases amount = ground (arith, eq_of_parts (rem amount.minor (pos 100)) (pos 5))

final_outcome-success : (o : Outcome) → final_outcome (some o) success ≡ o
unfolding final_outcome
final_outcome-success o = refl

final_outcome-none : (c : Outcome) → final_outcome none c ≡ c
unfolding final_outcome
final_outcome-none c = ground arith

final_outcome_cases :
    (o c : Outcome) → (c ≡ success) ⊎ ((final_outcome (some o) c ≡ c) × (c ≢ success))
unfolding final_outcome
final_outcome_cases o success = inl refl
final_outcome_cases o _ = inr (refl, ground arith)

verdict_cases :
    (amount : Money) (c : Outcome)
    → let out = final_outcome (amount_override amount) c in
      ((out ≡ c) × ((c ≢ success) ⊎ (¬ EndsIn05 amount)))
      ⊎ ((c ≡ success) × EndsIn05 amount × (out ≡ risk_hold))
verdict_cases amount c = elim (amount_override_cases amount) [
  | inl (e, y) ↦ elim (final_outcome_cases risk_hold c) [
    | inl s ↦ inr (s, y, rw (e, s) (final_outcome-success risk_hold))
    | inr (q, n) ↦ inl (rw e q, inl n)
  ]
  | inr (e, n) ↦ inl (rw e (final_outcome-none c), inr n)
]

-- A verdict is given only for a card of the table. It is the card's own outcome, except that a card that
-- plainly succeeds is held for review at an amount that ends in 05; and the latency is 300 to 799.
pub decide_lem :
    (raw : Bytes) (amount : Money) (d : Decision)
    → decide raw amount ≡ ok d
    → (c : TestCard) × (lookup raw ≡ some c)
      × (((d.outcome ≡ c.outcome) × ((c.outcome ≢ success) ⊎ (¬ EndsIn05 amount)))
          ⊎ ((c.outcome ≡ success) × EndsIn05 amount × (d.outcome ≡ risk_hold)))
      × (300 ≤ d.latency_ms)
      × (d.latency_ms < 800)
unfolding decide simulated_latency
decide_lem raw amount d h = elim (Option-cases (lookup raw)) [
  | inl n ↦ ground arith
  | inr (c, e) ↦
      let same : final_outcome (amount_override amount) c.outcome ≡ d.outcome = ground (arith, e) in
      (c, e, rw (← same) (verdict_cases amount c.outcome), ground (arith, e), ground (arith, e))
]
