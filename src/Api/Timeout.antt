-- ===== src/Api/Timeout.antt =====
-- The ceiling on a request's time (crates/api/middleware/timeout.rs). A run of the layers below is the time
-- that it takes, with its answer, or never comes to an end.
use payment_gateway_sandbox.Prelude.{ℕ, leb, if◌then◌else◌, Option, none, some}
use payment_gateway_sandbox.Prelude.Result.{Result, ok, err}
use payment_gateway_sandbox.Api.Error.{ApiError, timed_out}

pub data Run (A : Type 0) : Type 0 where
  takes : ℕ → A → Run A
  hangs : Run A

-- What is there when the budget is spent: `tokio::time::timeout`, which looks at the run before the clock.
unfoldable pub within : {A : Type 0} → ℕ → Run A → Option A
within budget (takes t a) = if leb t budget then some a else none
within budget hangs = none

abbrev or_timeout : {A : Type 0} → Option A → Result A ApiError
or_timeout none = err timed_out
or_timeout (some a) = ok a

-- `enforce`
unfoldable pub enforce : {A : Type 0} → ℕ → Run A → Result A ApiError
unfolding within
enforce budget run = or_timeout (within budget run)
