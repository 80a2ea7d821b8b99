-- ===== src/Tests/Requests.antt =====
-- The theorems on the simulator and the routes at concrete requests.
use payment_gateway_sandbox.Prelude.{
  ℕ, suc, ◌+◌, ◌-◌, ◌%◌, ◌≡◌, ◌≢◌, ◌≤◌, ◌<◌, ◌⊎◌, refl, arith, true, Option, none, some, [], ◌∷◌,
}
use payment_gateway_sandbox.Prelude.Int.{pos, rem, quot, ◌-ℤ◌, ◌*ℤ◌}
use payment_gateway_sandbox.Prelude.Lists.{length}
use payment_gateway_sandbox.Prelude.Bytes.{Bytes, eq_bytes}
use payment_gateway_sandbox.Prelude.Result.{ok, err}
use payment_gateway_sandbox.Domain.ApiKey.{orders_read}
use payment_gateway_sandbox.Domain.Card.{digits_of}
use payment_gateway_sandbox.Domain.Money.{Money, money, inr}
use payment_gateway_sandbox.Domain.Order.{Order, new_order}
use payment_gateway_sandbox.Store.Db.{Db, Env}
use payment_gateway_sandbox.Store.Listing.{order_time, orders_of, newest_first}
use payment_gateway_sandbox.Store.Rows.{order_by, insert_ordered}
use payment_gateway_sandbox.Simulator.Cards.{
  TestCard, success, risk_hold, lookup, find_card, test_card,
}
use payment_gateway_sandbox.Simulator.{
  Decision, decide, amount_override, final_outcome, simulated_latency, sum,
}
use payment_gateway_sandbox.Simulator.Gate.{EndsIn05, decide_lem}
use payment_gateway_sandbox.Api.Error.{ApiError}
use payment_gateway_sandbox.Api.Auth.Cache.{AuthCtx}
use payment_gateway_sandbox.Api.Auth.Scopes.{contains, bit}
use payment_gateway_sandbox.Api.Pagination.{default_sizes}
use payment_gateway_sandbox.Api.Pagination.Walk.{walk, Falling}
use payment_gateway_sandbox.Api.Routes.Orders.Pages.{order_page, walk-order_page}
use payment_gateway_sandbox.Api.Routes.Payments.{CreatePaymentRequest, create}
use payment_gateway_sandbox.Api.Routes.Payments.Gate.{
  Ends, create_ends, unknown_cards_leave_no_trace,
}

-- The first card of the table, as a client may write it, and a card that is not in it.
abbrev visa_digits : Bytes
visa_digits =
    b'4' ∷ b'2' ∷ b'4' ∷ b'2' ∷ b'4' ∷ b'2' ∷ b'4' ∷ b'2' ∷ b'4' ∷ b'2' ∷ b'4' ∷ b'2' ∷ b'4' ∷ b'2'
    ∷ b'4' ∷ b'2' ∷ []

abbrev visa_raw : Bytes
visa_raw = 32 ∷ visa_digits

abbrev unknown_number : Bytes
unknown_number = b'4' ∷ b'1' ∷ b'1' ∷ b'1' ∷ []

abbrev visa_card : TestCard
visa_card = test_card visa_digits success "Succeeds and is captured immediately"

visa-found : lookup visa_raw ≡ some visa_card
unfolding lookup find_card digits_of eq_bytes
visa-found = refl

abbrev risky : Money
risky = money (pos 150005) inr

abbrev held : Decision
held = record { outcome = risk_hold; latency_ms = 300 + 816 % 500 }

visa-held : decide visa_raw risky ≡ ok held
unfolding decide amount_override final_outcome simulated_latency sum rem quot ◌-ℤ◌ ◌*ℤ◌ lookup
    find_card digits_of eq_bytes
visa-held = refl

decide_example :
    (c : TestCard) × (lookup visa_raw ≡ some c)
    × (((held.outcome ≡ c.outcome) × ((c.outcome ≢ success) ⊎ (¬ EndsIn05 risky)))
        ⊎ ((c.outcome ≡ success) × EndsIn05 risky × (held.outcome ≡ risk_hold)))
    × (300 ≤ held.latency_ms)
    × (held.latency_ms < 800)
decide_example = decide_lem visa_raw risky held visa-held

abbrev env : Env
env = record {
  now = 1000;
  year_month = λ t. record { year = 2026; month = 7 };
  card_fingerprint = λ n. "fp";
  uuid = λ n. 100 + n;
}

-- A merchant with three orders.
abbrev order_at : ℕ → ℕ → Order
order_at id t = new_order id 9 (money (pos 10000) inr) none [] t

abbrev db : Db
db = record {
  orders = order_at 1 100 ∷ order_at 2 200 ∷ order_at 3 300 ∷ [];
  payments = [];
  attempts = [];
  refunds = [];
  accounts = [];
  postings = [];
  endpoints = [];
  events = [];
  deliveries = [];
  jobs = [];
  drawn = 0;
}

-- A caller with every scope.
abbrev caller : AuthCtx
caller = record { merchant_id = 9; key_id = 1; scopes = 63 }

abbrev request_with : Bytes → CreatePaymentRequest
request_with number = record {
  order_id = b'o' ∷ b'r' ∷ b'd' ∷ b'e' ∷ b'r' ∷ b'_' ∷ b'1' ∷ [];
  card = record { number = number; exp_month = 12; exp_year = 2030; cvc_code = none };
  notes = [];
}

abbrev read_digit : Bytes → Option ℕ
read_digit [] = none
read_digit (c ∷ cs) = some (c - 48)

create_ends_example :
    Ends caller (request_with visa_raw) db (create env read_digit caller (request_with visa_raw) db)
create_ends_example = create_ends env read_digit caller (request_with visa_raw) db

unknown-not_found : lookup unknown_number ≡ none
unfolding lookup find_card digits_of eq_bytes
unknown-not_found = refl

no_trace_example :
    (e : ApiError) × (create env read_digit caller (request_with unknown_number) db ≡ (err e, db))
no_trace_example =
    unknown_cards_leave_no_trace env read_digit caller (request_with unknown_number) db
      unknown-not_found

caller-may_read : contains caller.scopes orders_read ≡ true
unfolding contains bit
caller-may_read = refl

-- A time's text is one number.
abbrev print_time : ℕ → Option Bytes
print_time t = some (t ∷ [])

abbrev read_time : Bytes → Option ℕ
read_time [] = none
read_time (t ∷ _) = some t

orders-Falling : Falling order_time (newest_first order_time (orders_of 9 db.orders))
unfolding newest_first order_by insert_ordered orders_of
orders-Falling = omega arith

walk_example :
    let all = newest_first order_time (orders_of 9 db.orders) in
    walk (order_page read_time print_time default_sizes caller db 2) (suc (length all)) none
    ≡ some (ok all)
walk_example =
    walk-order_page read_time print_time default_sizes caller db 2 caller-may_read (omega arith)
      refl (λ t. (t ∷ [], refl, refl)) orders-Falling
