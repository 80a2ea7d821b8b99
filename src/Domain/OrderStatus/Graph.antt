-- ===== src/Domain/OrderStatus/Graph.antt =====
-- The transitions of an order as a relation, and what its histories can be.
use payment_gateway_sandbox.Prelude.{◌≡◌, ◌≢◌, ◌↔◌, refl, arith, true}
use payment_gateway_sandbox.Prelude.Result.{ok}
use payment_gateway_sandbox.Domain.OrderStatus.{
  OrderStatus, created, attempted, paid, expired, can_transition_to, transition, is_terminal,
}

infix 40 ◌⟶◌ ◌⟶*◌
pub data ◌⟶◌ : OrderStatus → OrderStatus → Type 0 where
  attempt : created ⟶ attempted
  lapse : created ⟶ expired
  retry : attempted ⟶ attempted
  pay : attempted ⟶ paid
  lapse_attempted : attempted ⟶ expired

pub data ◌⟶*◌ : OrderStatus → OrderStatus → Type 0 where
  here : {s : OrderStatus} → s ⟶* s
  next : {s t u : OrderStatus} → s ⟶* t → t ⟶ u → s ⟶* u

ruleset edges = (attempt, lapse, retry, pay, lapse_attempted)

transition→⟶ : (s t : OrderStatus) → can_transition_to s t ≡ true → s ⟶ t
unfolding can_transition_to
transition→⟶ s t h = grind (arith, edges)

⟶→transition : {s t : OrderStatus} → s ⟶ t → can_transition_to s t ≡ true
unfolding can_transition_to
⟶→transition attempt = refl
⟶→transition _ = refl

-- `transition` accepts exactly the edges of the diagram, and then returns the target.
pub order_transition_iff : (s t : OrderStatus) → (transition s t ≡ ok t) ↔ (s ⟶ t)
unfolding transition
order_transition_iff s t = (λ h. transition→⟶ s t (ground arith), λ e. rw (⟶→transition e) refl)

-- A paid or expired order stays as it is for good.
pub order_terminal_absorbs : {s t : OrderStatus} → is_terminal s ≡ true → s ⟶* t → t ≡ s
unfolding is_terminal
order_terminal_absorbs h here = refl
order_terminal_absorbs {s} h (next {t = t} {u = u} k e) =
    grind (arith, order_terminal_absorbs h k, ⟶→transition e)

-- A history of an order that becomes paid, and was not before, goes through attempted.
pub paid_was_attempted : {s t : OrderStatus} → s ⟶* t → t ≡ paid → s ≢ paid → s ⟶* attempted
paid_was_attempted here e n = absurd (n e)
paid_was_attempted (next k pay) e n = k
paid_was_attempted (next k _) e n = cc
