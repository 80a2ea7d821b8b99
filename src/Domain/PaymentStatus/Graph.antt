-- ===== src/Domain/PaymentStatus/Graph.antt =====
-- The transitions of a payment as a relation, and what its histories can be.
use payment_gateway_sandbox.Prelude.{
  ℕ, suc, ◌+◌, ◌<◌, ◌≤◌, ◌≡◌, ◌≢◌, ◌⊎◌, ◌↔◌, refl, arith, inl, true,
}
use payment_gateway_sandbox.Prelude.Result.{ok}
use payment_gateway_sandbox.Domain.PaymentStatus.{
  PaymentStatus, created, requires_action, authorized, captured, failed, refunded,
  can_transition_to, transition, is_terminal,
}

infix 40 ◌⟶◌ ◌⟶*◌
pub data ◌⟶◌ : PaymentStatus → PaymentStatus → Type 0 where
  challenge : created ⟶ requires_action
  authorize : created ⟶ authorized
  auto_capture : created ⟶ captured
  decline : created ⟶ failed
  authorize_challenged : requires_action ⟶ authorized
  capture_challenged : requires_action ⟶ captured
  decline_challenged : requires_action ⟶ failed
  capture : authorized ⟶ captured
  void : authorized ⟶ failed
  refund : captured ⟶ refunded

-- A history: the statuses that a payment goes through by accepted transitions.
pub data ◌⟶*◌ : PaymentStatus → PaymentStatus → Type 0 where
  here : {s : PaymentStatus} → s ⟶* s
  next : {s t u : PaymentStatus} → s ⟶* t → t ⟶ u → s ⟶* u

ruleset edges = (
  challenge, authorize, auto_capture, decline, authorize_challenged, capture_challenged,
  decline_challenged, capture, void, refund,
)

transition→⟶ : (s t : PaymentStatus) → can_transition_to s t ≡ true → s ⟶ t
unfolding can_transition_to
transition→⟶ s t h = grind (arith, edges)

⟶→transition : {s t : PaymentStatus} → s ⟶ t → can_transition_to s t ≡ true
unfolding can_transition_to
⟶→transition challenge = refl
⟶→transition _ = refl

-- `transition` accepts exactly the edges of the diagram, and then returns the target.
pub transition_iff : (s t : PaymentStatus) → (transition s t ≡ ok t) ↔ (s ⟶ t)
unfolding transition
transition_iff s t = (λ h. transition→⟶ s t (ground arith), λ e. rw (⟶→transition e) refl)

abbrev rank : PaymentStatus → ℕ
rank created = 0
rank requires_action = 1
rank authorized = 2
rank captured = 3
rank failed = 5
rank refunded = 4

⟶-rank : {s t : PaymentStatus} → s ⟶ t → rank s < rank t
⟶-rank challenge = omega arith
⟶-rank _ = omega arith

-- The number of transitions of a history.
abbrev pub steps : {s t : PaymentStatus} → s ⟶* t → ℕ
steps here = 0
steps (next h e) = suc (steps h)

rank-steps : {s t : PaymentStatus} (h : s ⟶* t) → rank s + steps h ≤ rank t
rank-steps here = omega arith
rank-steps (next h e) = omega (arith, rank-steps h, ⟶-rank e)

-- Two statuses that histories lead between in both directions are the same: a status that is left
-- is never entered again.
pub history_acyclic : (s t : PaymentStatus) → s ⟶* t → t ⟶* s → s ≡ t
history_acyclic s t h k = ground (arith, rank-steps h, rank-steps k)

-- From a terminal status a history stays where it is, or goes from captured to refunded.
pub history_of_terminal :
    {s t : PaymentStatus}
    → is_terminal s ≡ true
    → s ⟶* t
    → (t ≡ s) ⊎ ((s ≡ captured) × (t ≡ refunded))
unfolding is_terminal
history_of_terminal h here = inl refl
history_of_terminal {s} h (next {t = t} {u = u} k e) =
    grind (arith, history_of_terminal h k, ⟶→transition e)

-- A history of a payment that becomes refunded, and was not before, goes through captured.
pub refunded_was_captured :
    {s t : PaymentStatus} → s ⟶* t → t ≡ refunded → s ≢ refunded → s ⟶* captured
refunded_was_captured here e n = absurd (n e)
refunded_was_captured (next k refund) e n = k
refunded_was_captured (next k _) e n = cc
