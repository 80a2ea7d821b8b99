-- ===== src/Domain/PaymentStatus.antt =====
-- The life of a payment attempt (crates/domain/src/payment_status.rs).
pub mod Graph
use payment_gateway_sandbox.Prelude.{ℕ, String, Bool, true, false, List, [], ◌∷◌, if◌then◌else◌}
use payment_gateway_sandbox.Prelude.Result.{Result, ok, err}

pub data PaymentStatus : Type 0 where
  created requires_action authorized captured failed refunded : PaymentStatus

pub record InvalidPaymentTransition : Type 0 where
  pub from : PaymentStatus
  pub to : PaymentStatus

unfoldable pub can_transition_to : PaymentStatus → PaymentStatus → Bool
can_transition_to created requires_action = true
can_transition_to created authorized = true
can_transition_to created captured = true
can_transition_to created failed = true
can_transition_to requires_action authorized = true
can_transition_to requires_action captured = true
can_transition_to requires_action failed = true
can_transition_to authorized captured = true
can_transition_to authorized failed = true
can_transition_to captured refunded = true
can_transition_to _ _ = false

unfoldable pub transition :
    PaymentStatus → PaymentStatus → Result PaymentStatus InvalidPaymentTransition
unfolding can_transition_to
transition s to = if can_transition_to s to then ok to else err (record { from = s; to = to })

unfoldable pub is_terminal : PaymentStatus → Bool
is_terminal captured = true
is_terminal failed = true
is_terminal refunded = true
is_terminal _ = false

unfoldable pub is_capturable : PaymentStatus → Bool
is_capturable authorized = true
is_capturable _ = false

-- `PaymentStatus::all`
abbrev pub all : List PaymentStatus
all = created ∷ requires_action ∷ authorized ∷ captured ∷ failed ∷ refunded ∷ []

-- `PaymentStatus::as_str`
unfoldable pub as_str : PaymentStatus → String
as_str created = "created"
as_str requires_action = "requires_action"
as_str authorized = "authorized"
as_str captured = "captured"
as_str failed = "failed"
as_str refunded = "refunded"
