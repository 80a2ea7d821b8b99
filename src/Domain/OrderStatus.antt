-- ===== src/Domain/OrderStatus.antt =====
-- The life of an order (crates/domain/src/order_status.rs).
pub mod Graph
use payment_gateway_sandbox.Prelude.{ℕ, String, Bool, true, false, List, [], ◌∷◌, if◌then◌else◌}
use payment_gateway_sandbox.Prelude.Result.{Result, ok, err}

pub data OrderStatus : Type 0 where
  created attempted paid expired : OrderStatus

pub record InvalidOrderTransition : Type 0 where
  pub from : OrderStatus
  pub to : OrderStatus

unfoldable pub can_transition_to : OrderStatus → OrderStatus → Bool
can_transition_to created attempted = true
can_transition_to created expired = true
can_transition_to attempted attempted = true
can_transition_to attempted paid = true
can_transition_to attempted expired = true
can_transition_to _ _ = false

unfoldable pub transition : OrderStatus → OrderStatus → Result OrderStatus InvalidOrderTransition
unfolding can_transition_to
transition s to = if can_transition_to s to then ok to else err (record { from = s; to = to })

unfoldable pub is_terminal : OrderStatus → Bool
is_terminal paid = true
is_terminal expired = true
is_terminal _ = false

-- `OrderStatus::all`
abbrev pub all : List OrderStatus
all = created ∷ attempted ∷ paid ∷ expired ∷ []

-- `OrderStatus::as_str`
unfoldable pub as_str : OrderStatus → String
as_str created = "created"
as_str attempted = "attempted"
as_str paid = "paid"
as_str expired = "expired"
