-- ===== src/Tests/Keys.antt =====
-- The theorems on idempotency keys at concrete requests.
use payment_gateway_sandbox.Prelude.{
  ◌≡◌, ◌≤◌, refl, arith, true, false, not, ◌==◌, none, some, List, [], ◌∷◌, if◌then◌else◌,
}
use payment_gateway_sandbox.Prelude.Bytes.{Bytes, all_bytes}
use payment_gateway_sandbox.Prelude.Lists.{All}
use payment_gateway_sandbox.Prelude.Result.{Result, ok, err}
use payment_gateway_sandbox.Api.Error.{
  ApiError, conflicting, is_server_error, retry_after, timed_out,
}
use payment_gateway_sandbox.Api.Timeout.{hangs, takes, within}
use payment_gateway_sandbox.Api.Idempotency.Abandoned.{
  Attempt, handle, handle_all, timed_out_key_stays_taken,
}
use payment_gateway_sandbox.Api.Validate.{idempotency_key}
use payment_gateway_sandbox.Store.Idempotency.{KeyRow, find_key}
use payment_gateway_sandbox.Store.Idempotency.Rows.{has_row}
use payment_gateway_sandbox.Api.Idempotency.{
  Gate, Request, Response, post, is_mutating, admit, answer, run, is_recorded,
}
use payment_gateway_sandbox.Api.Idempotency.Runs.{
  Event, arrives, finishes, no_requests, serve, runs_of,
}
use payment_gateway_sandbox.Api.Idempotency.Once.{run_at_most_once}
use payment_gateway_sandbox.Api.Idempotency.Steps.{IsKeyed, when_done}
use payment_gateway_sandbox.Api.Idempotency.Replay.{
  retry_replays, key_reuse_conflicts, second_request_runs,
}

-- A gate whose JSON is the text itself, and whose digest is the text.
abbrev plain_gate : Gate Bytes
plain_gate = record {
  parse = λ text. some text;
  print = λ text. text;
  null = [];
  sha256_hex = λ text. text;
  max_body_bytes = 1000;
  max_recorded_response_bytes = 1000;
  idempotency_ttl = 86400;
}

abbrev key : Bytes
key = b'k' ∷ b'e' ∷ b'y' ∷ b'-' ∷ b'0' ∷ b'0' ∷ b'0' ∷ b'1' ∷ []

abbrev request_of : Bytes → Request
request_of body = record {
  method = post;
  path = b'/' ∷ b'p' ∷ [];
  key_header = some key;
  merchant = some 9;
  body = body;
}

abbrev pay_5 : Request
pay_5 = request_of (b'5' ∷ [])

abbrev pay_6 : Request
pay_6 = request_of (b'6' ∷ [])

abbrev created : Response
created = record { status = 201; body = b'o' ∷ b'k' ∷ []; replayed = false }

abbrev broken : Response
broken = record { status = 503; body = []; replayed = false }

key-valid : idempotency_key key ≡ ok key
unfolding idempotency_key all_bytes
key-valid = refl

pay_5-IsKeyed : IsKeyed plain_gate pay_5 9 key
unfolding is_mutating
pay_5-IsKeyed = record {
  mutating = refl;
  raw = key;
  has_header = refl;
  has_key = key-valid;
  has_merchant = refl;
  fits = omega arith;
}

pay_6-IsKeyed : IsKeyed plain_gate pay_6 9 key
unfolding is_mutating
pay_6-IsKeyed = record {
  mutating = refl;
  raw = key;
  has_header = refl;
  has_key = key-valid;
  has_merchant = refl;
  fits = omega arith;
}

abbrev empty : List (KeyRow Bytes)
empty = []

free : find_key 9 key empty ≡ none
unfolding find_key
free = refl

created-recorded : is_recorded plain_gate created ≡ true
unfolding is_server_error
created-recorded = refl

broken-dropped : is_recorded plain_gate broken ≡ false
unfolding is_server_error
broken-dropped = refl

retry_replays_example :
    admit plain_gate true 20 pay_5 (when_done plain_gate 10 pay_5 9 key created empty) ≡ (
      answer (ok (record created { replayed = true })),
      when_done plain_gate 10 pay_5 9 key created empty,
    )
retry_replays_example =
    retry_replays plain_gate 10 20 pay_5 pay_5 9 key created (b'o' ∷ b'k' ∷ []) empty pay_5-IsKeyed
      pay_5-IsKeyed free created-recorded (omega arith) (refl, refl) (refl, refl, refl)

paths-lack_nul : all_bytes (λ x. not (x == 0)) (b'/' ∷ b'p' ∷ []) ≡ true
unfolding all_bytes
paths-lack_nul = refl

key_reuse_conflicts_example :
    admit plain_gate true 20 pay_6 (when_done plain_gate 10 pay_5 9 key created empty) ≡ (
      answer (err (conflicting "idempotency_key_reused")),
      when_done plain_gate 10 pay_5 9 key created empty,
    )
key_reuse_conflicts_example =
    key_reuse_conflicts plain_gate 10 20 pay_5 pay_6 9 key created empty pay_5-IsKeyed pay_6-IsKeyed
      free created-recorded (paths-lack_nul, paths-lack_nul) (λ e. e) (λ e. ground arith)

second_request_runs_example :
    (admit plain_gate true 20 pay_6 (when_done plain_gate 10 pay_5 9 key broken empty)).0
    ≡ run 9 key
second_request_runs_example =
    second_request_runs plain_gate 10 20 pay_5 pay_6 9 key broken empty pay_5-IsKeyed pay_6-IsKeyed
      free broken-dropped

-- A payment whose handler hangs, and two more of the key afterwards.
abbrev retries : List (Attempt plain_gate 30)
retries =
    record { now = 11; request = pay_5; handler = takes 1 created }
    ∷ record { now = 9000; request = pay_6; handler = takes 1 created }
    ∷ []

timed_out_example :
    let after = handle plain_gate 30 true true 10 pay_5 hangs empty in
    (after.0 ≡ err timed_out)
    × ((handle_all plain_gate 30 retries after.1).1 ≡ after.1)
    × All
        (λ (r : Result Response ApiError).
          r ≡ err (retry_after 1 (conflicting "idempotency_key_in_flight")))
        (handle_all plain_gate 30 retries after.1).0
unfolding within
timed_out_example =
    timed_out_key_stays_taken plain_gate 30 10 pay_5 hangs 9 key empty retries pay_5-IsKeyed free
      refl (pay_5-IsKeyed, (pay_6-IsKeyed, tt))

-- Two requests under one key, of which the first ends, and a third one.
abbrev events : List Event
events =
    arrives true 10 pay_5
    ∷ arrives true 11 pay_5
    ∷ finishes false 9 key created
    ∷ arrives true 12 pay_6
    ∷ []

run_at_most_once_example :
    runs_of 9 key (serve plain_gate events no_requests)
    ≤ (if has_row 9 key (serve plain_gate events no_requests).keys then 1 else 0)
run_at_most_once_example = run_at_most_once plain_gate 9 key events
