-- ===== src/Api/Idempotency/Steps.antt =====
-- One keyed request by itself: how it finds its key, and the table that it leaves.
use payment_gateway_sandbox.Prelude.{
  ℕ, ◌+◌, ◌≡◌, ◌≤◌, refl, ap, ◌∙◌, arith, true, false, none, some, List, [], ◌∷◌, ◌++◌,
}
use payment_gateway_sandbox.Prelude.Int.{pos}
use payment_gateway_sandbox.Prelude.Lists.{length}
use payment_gateway_sandbox.Prelude.Bytes.{Bytes, eq_bytes_refl}
use payment_gateway_sandbox.Prelude.Result.{ok}
use payment_gateway_sandbox.Api.Validate.{idempotency_key}
use payment_gateway_sandbox.Store.Idempotency.{
  KeyRow, find_key, acquire, complete, release, new_row, is_row, outcome_of,
}
use payment_gateway_sandbox.Api.Idempotency.{
  Request, Response, Gate, Verdict, run, verdict_of, admit, is_recorded, record_response, or_null,
  endpoint_of, fingerprint, is_mutating,
}

module _ {Json : Type 0} (gate : Gate Json) where
  -- What makes a request come to the table of keys.
  pub record IsKeyed (req : Request) (merchant : ℕ) (key : Bytes) : Type 0 where
    pub mutating : is_mutating req.method ≡ true
    pub raw : Bytes
    pub has_header : req.key_header ≡ some raw
    pub has_key : idempotency_key raw ≡ ok key
    pub has_merchant : req.merchant ≡ some merchant
    pub fits : length req.body ≤ gate.max_body_bytes

  unfoldable pub hash_of : Request → Bytes
  hash_of req = fingerprint gate (endpoint_of req.method req.path) req.body

  admit-keyed :
      (now : ℕ) (req : Request) (m : ℕ) (k : Bytes) (table : List (KeyRow Json))
      → IsKeyed req m k
      → let got =
          acquire m k
            (endpoint_of req.method req.path)
            (hash_of req)
            (now + gate.idempotency_ttl)
            now
            table in
        admit gate true now req table ≡ (verdict_of gate m k got.0, got.1)
  unfolding admit hash_of
  admit-keyed now req m k table h = ground (arith, h)

  -- The table when a request that found no row has begun, and when its response has been dealt with.
  unfoldable pub while_running : ℕ → Request → List (KeyRow Json) → List (KeyRow Json)
  while_running now req table = (admit gate true now req table).1

  unfoldable pub when_done :
      ℕ → Request → ℕ → Bytes → Response → List (KeyRow Json) → List (KeyRow Json)
  when_done now req m k response table =
      (record_response gate true m k response (while_running now req table)).1

  abbrev pub row_for : ℕ → Request → ℕ → Bytes → KeyRow Json
  row_for now req m k =
      new_row m k (endpoint_of req.method req.path) (hash_of req) (now + gate.idempotency_ttl) now

  pub begins :
      (now : ℕ) (req : Request) (m : ℕ) (k : Bytes) (table : List (KeyRow Json))
      → IsKeyed req m k
      → find_key m k table ≡ none
      → admit gate true now req table ≡ (run m k, table ++ row_for now req m k ∷ [])
  unfolding acquire
  begins now req m k table h n = rw (admit-keyed now req m k table h, n) refl

  pub finds :
      (now : ℕ) (req : Request) (m : ℕ) (k : Bytes) (table : List (KeyRow Json)) (r : KeyRow Json)
      → IsKeyed req m k
      → find_key m k table ≡ some r
      → admit gate true now req table
        ≡ (verdict_of gate m k (outcome_of (hash_of req) r r.state), table)
  unfolding acquire
  finds now req m k table r h n = rw (admit-keyed now req m k table h, n) refl

  pub is_row-row_for :
      (now : ℕ) (req : Request) (m : ℕ) (k : Bytes) → is_row m k (row_for now req m k) ≡ true
  is_row-row_for now req m k = ground (arith, eq_bytes_refl k)

  pub while_running_lem :
      (now : ℕ) (req : Request) (m : ℕ) (k : Bytes) (table : List (KeyRow Json))
      → IsKeyed req m k
      → find_key m k table ≡ none
      → while_running now req table ≡ table ++ row_for now req m k ∷ []
  unfolding while_running
  while_running_lem now req m k table h n =
      ap (λ (x : Verdict gate × List (KeyRow Json)). x.1) (begins now req m k table h n)

  record_response_kept :
      (m : ℕ) (k : Bytes) (response : Response) (table : List (KeyRow Json))
      → is_recorded gate response ≡ true
      → (record_response gate true m k response table).1
        ≡ complete m k (pos response.status) (or_null gate (gate.parse response.body)) table
  unfolding record_response
  record_response_kept m k response table r = ground arith

  record_response_dropped :
      (m : ℕ) (k : Bytes) (response : Response) (table : List (KeyRow Json))
      → is_recorded gate response ≡ false
      → (record_response gate true m k response table).1 ≡ release m k table
  unfolding record_response
  record_response_dropped m k response table r = ground arith

  after_run :
      (m : ℕ) (k : Bytes) (response : Response) {t t' : List (KeyRow Json)}
      → t ≡ t'
      → (record_response gate true m k response t).1 ≡ (record_response gate true m k response t').1
  after_run m k response e =
      ap (λ (t : List (KeyRow Json)). (record_response gate true m k response t).1) e

  pub when_done_kept :
      (now : ℕ) (req : Request) (m : ℕ) (k : Bytes) (response : Response)
      (table : List (KeyRow Json))
      → IsKeyed req m k
      → find_key m k table ≡ none
      → is_recorded gate response ≡ true
      → when_done now req m k response table
        ≡ complete m k
            (pos response.status)
            (or_null gate (gate.parse response.body))
            (table ++ row_for now req m k ∷ [])
  unfolding when_done
  when_done_kept now req m k response table h n r =
      after_run m k response (while_running_lem now req m k table h n)
      ∙ record_response_kept m k response (table ++ row_for now req m k ∷ []) r

  pub when_done_dropped :
      (now : ℕ) (req : Request) (m : ℕ) (k : Bytes) (response : Response)
      (table : List (KeyRow Json))
      → IsKeyed req m k
      → find_key m k table ≡ none
      → is_recorded gate response ≡ false
      → when_done now req m k response table ≡ release m k (table ++ row_for now req m k ∷ [])
  unfolding when_done
  when_done_dropped now req m k response table h n r =
      after_run m k response (while_running_lem now req m k table h n)
      ∙ record_response_dropped m k response (table ++ row_for now req m k ∷ []) r
