-- ===== src/Api/Idempotency/Abandoned.antt =====
-- The layer of timeouts around the layer of idempotency keys (crates/api/routes/mod.rs): what is left of a
-- keyed request whose handler is given up.
use payment_gateway_sandbox.Prelude.{ℕ, Bool, ◌≡◌, refl, true, Option, none, some, List, [], ◌∷◌}
use payment_gateway_sandbox.Prelude.Lists.{All}
use payment_gateway_sandbox.Prelude.Bytes.{Bytes}
use payment_gateway_sandbox.Prelude.Result.{Result, ok, err}
use payment_gateway_sandbox.Api.Error.{ApiError, timed_out, conflicting, retry_after}
use payment_gateway_sandbox.Store.Idempotency.{KeyRow, find_key}
use payment_gateway_sandbox.Api.Timeout.{Run, within, enforce}
use payment_gateway_sandbox.Api.Idempotency.{
  Request, Response, Gate, Verdict, answer, unguarded, run, admit, record_response,
}
use payment_gateway_sandbox.Api.Idempotency.Steps.{
  IsKeyed, begins, while_running, while_running_lem,
}
use payment_gateway_sandbox.Api.Idempotency.Replay.{second_request_waits}

module _ {Json : Type 0} (gate : Gate Json) (budget : ℕ) where
  -- What follows the handler of a keyed request: one that is dropped when the budget is spent does no more.
  unfoldable pub after_handler :
      Bool
      → ℕ
      → Bytes
      → Option Response
      → List (KeyRow Json)
      → Result Response ApiError × List (KeyRow Json)
  unfolding record_response
  after_handler stored m k none table = (err timed_out, table)
  after_handler stored m k (some r) table =
      let kept = record_response gate stored m k r table in (ok kept.0, kept.1)

  abbrev pub carried_out :
      Bool
      → Run Response
      → Verdict gate × List (KeyRow Json)
      → Result Response ApiError × List (KeyRow Json)
  carried_out stored handler (answer r, table) = (r, table)
  carried_out stored handler (unguarded, table) = (enforce budget handler, table)
  carried_out stored handler (run m k, table) =
      after_handler stored m k (within budget handler) table

  -- A request through the two layers; the budget counts from the handler's start.
  unfoldable pub handle :
      Bool
      → Bool
      → ℕ
      → Request
      → Run Response
      → List (KeyRow Json)
      → Result Response ApiError × List (KeyRow Json)
  unfolding admit after_handler enforce
  handle admitted stored now req handler table =
      carried_out stored handler (admit gate admitted now req table)

  -- Requests one after the other, with their times and the runs of their handlers.
  pub record Attempt : Type 0 where
    pub now : ℕ
    pub request : Request
    pub handler : Run Response

  unfoldable pub handle_all :
      List Attempt → List (KeyRow Json) → List (Result Response ApiError) × List (KeyRow Json)
  unfolding handle
  handle_all [] table = ([], table)
  handle_all (a ∷ rest) table =
      let first = handle true true a.now a.request a.handler table in
      let others = handle_all rest first.1 in (first.0 ∷ others.0, others.1)

  abbrev in_flight_conflict : ApiError
  in_flight_conflict = retry_after 1 (conflicting "idempotency_key_in_flight")

  handle-run :
      (now : ℕ) (req : Request) (handler : Run Response) (m : ℕ) (k : Bytes)
      (table : List (KeyRow Json))
      → IsKeyed gate req m k
      → find_key m k table ≡ none
      → within budget handler ≡ none
      → handle true true now req handler table ≡ (err timed_out, while_running gate now req table)
  unfolding handle after_handler
  handle-run now req handler m k table h n late =
      rw (while_running_lem gate now req m k table h n, begins gate now req m k table h n, late)
        refl

  handle-waits :
      (now now' : ℕ) (req req' : Request) (handler : Run Response) (m : ℕ) (k : Bytes)
      (table : List (KeyRow Json))
      → IsKeyed gate req m k
      → IsKeyed gate req' m k
      → find_key m k table ≡ none
      → handle true true now' req' handler (while_running gate now req table)
        ≡ (err in_flight_conflict, while_running gate now req table)
  unfolding handle
  handle-waits now now' req req' handler m k table h h' n =
      rw (second_request_waits gate now now' req req' m k table h h' n) refl

  later_wait :
      (now : ℕ) (req : Request) (m : ℕ) (k : Bytes) (table : List (KeyRow Json))
      (later : List Attempt)
      → IsKeyed gate req m k
      → find_key m k table ≡ none
      → All (λ (a : Attempt). IsKeyed gate a.request m k) later
      → let taken = while_running gate now req table in
        ((handle_all later taken).1 ≡ taken)
        × All
            (λ (r : Result Response ApiError). r ≡ err in_flight_conflict)
            (handle_all later taken).0
  unfolding handle_all
  later_wait now req m k table [] h n all = (refl, tt)
  later_wait now req m k table (a ∷ rest) h n all =
      let ih = later_wait now req m k table rest h n all.1 in
      rw (handle-waits now a.now req a.request a.handler m k table h all.0 n) (ih.0, (refl, ih.1))

  -- When the handler of the first request under a key, which found the key free, does not end within the budget,
  -- the request gets the timeout, and every later request under the key, however many come and whenever, gets
  -- the conflict of a request in flight; no statement changes the table any more.
  pub timed_out_key_stays_taken :
      (now : ℕ) (req : Request) (handler : Run Response) (m : ℕ) (k : Bytes)
      (table : List (KeyRow Json)) (later : List Attempt)
      → IsKeyed gate req m k
      → find_key m k table ≡ none
      → within budget handler ≡ none
      → All (λ (a : Attempt). IsKeyed gate a.request m k) later
      → let after = handle true true now req handler table in
        (after.0 ≡ err timed_out)
        × ((handle_all later after.1).1 ≡ after.1)
        × All
            (λ (r : Result Response ApiError). r ≡ err in_flight_conflict)
            (handle_all later after.1).0
  timed_out_key_stays_taken now req handler m k table later h n late all =
      rw (handle-run now req handler m k table h n late)
        (let rest = later_wait now req m k table later h n all in (refl, rest.0, rest.1))
