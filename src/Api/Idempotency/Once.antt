-- ===== src/Api/Idempotency/Once.antt =====
-- The guarantee of the idempotency middleware over the runs of Api.Idempotency.Runs.
use payment_gateway_sandbox.Prelude.{
  ℕ, ◌+◌, ◌≡◌, ◌≤◌, refl, arith, Bool, true, false, Bool-cases, Option, none, some, List, [], ◌∷◌,
  ◌++◌, ltb, if◌then◌else◌, inl, inr, Option-cases,
}
use payment_gateway_sandbox.Prelude.Int.{pos}
use payment_gateway_sandbox.Prelude.Lists.{length}
use payment_gateway_sandbox.Prelude.Bytes.{Bytes, eq_bytes, eq_bytes_sound}
use payment_gateway_sandbox.Prelude.Result.{Result, ok, err}
use payment_gateway_sandbox.Api.Error.{ApiError}
use payment_gateway_sandbox.Api.Validate.{idempotency_key}
use payment_gateway_sandbox.Store.Idempotency.{
  KeyRow, find_key, acquire, complete, release, new_row, is_row, outcome_of, IdempotencyState,
  in_progress, completed,
}
use payment_gateway_sandbox.Store.Idempotency.Rows.{
  is_key, has_row, find_key-has_row, has_row-append, has_row-complete, has_row-release_other,
}
use payment_gateway_sandbox.Api.Idempotency.{
  Request, Response, Gate, Verdict, verdict_of, admit_as, admit_key, admit_header, admit,
  record_response, or_null, endpoint_of, fingerprint, is_mutating,
}
use payment_gateway_sandbox.Api.Idempotency.Runs.{
  count, take_out, Served, Event, runs_of, no_requests, arrived, step, serve, count-take_out_same,
  count-take_out_other, arrives, finishes,
}

module _ {Json : Type 0} where
  abbrev Bounded : ℕ → Bytes → List (KeyRow Json) → List (ℕ × Bytes) → List (ℕ × Bytes) → Type 0
  Bounded m k keys running recorded =
      count m k running + count m k recorded ≤ (if has_row m k keys then 1 else 0)

  no_row :
      (m : ℕ) (k : Bytes) (m' : ℕ) (k' : Bytes) (keys : List (KeyRow Json))
      → find_key m' k' keys ≡ none
      → is_key m k (m', k') ≡ true
      → has_row m k keys ≡ false
  no_row m k m' k' keys h e = ground (arith, find_key-has_row m' k' keys h, eq_bytes_sound k' k)

  begun :
      (m : ℕ) (k : Bytes) (m' : ℕ) (k' : Bytes) (row : KeyRow Json) (s : Served Json)
      → Bounded m k s.keys s.running s.recorded
      → find_key m' k' s.keys ≡ none
      → is_row m k row ≡ is_key m k (m', k')
      → Bounded m k (s.keys ++ row ∷ []) ((m', k') ∷ s.running) s.recorded
  unfolding count
  begun m k m' k' row s b h r = elim (Bool-cases (is_key m k (m', k'))) [
    | inl e ↦ ground (arith, no_row m k m' k' s.keys h e, has_row-append m k s.keys row)
    | inr e ↦ ground (arith, has_row-append m k s.keys row)
  ]

  ended :
      (m : ℕ) (k : Bytes) (m' : ℕ) (k' : Bytes) (s : Served Json) (rest : List (ℕ × Bytes))
      (keys' : List (KeyRow Json))
      → Bounded m k s.keys s.running s.recorded
      → take_out m' k' s.running ≡ some rest
      → (is_key m k (m', k') ≡ false → has_row m k keys' ≡ has_row m k s.keys)
      → Bounded m k keys' rest s.recorded
  unfolding count
  ended m k m' k' s rest keys' b h r = elim (Bool-cases (is_key m k (m', k'))) [
    | inl e ↦ ground (arith, count-take_out_same m k m' k' s.running rest h e)
    | inr e ↦ ground (arith, r e, count-take_out_other m k m' k' s.running rest h e)
  ]

  kept :
      (m : ℕ) (k : Bytes) (m' : ℕ) (k' : Bytes) (s : Served Json) (rest : List (ℕ × Bytes))
      (keys' : List (KeyRow Json))
      → Bounded m k s.keys s.running s.recorded
      → take_out m' k' s.running ≡ some rest
      → has_row m k keys' ≡ has_row m k s.keys
      → Bounded m k keys' rest ((m', k') ∷ s.recorded)
  unfolding count
  kept m k m' k' s rest keys' b h r = elim (Bool-cases (is_key m k (m', k'))) [
    | inl e ↦ ground (arith, r, count-take_out_same m k m' k' s.running rest h e)
    | inr e ↦ ground (arith, r, count-take_out_other m k m' k' s.running rest h e)
  ]

module _ {Json : Type 0} (gate : Gate Json) where
  abbrev Holds : ℕ → Bytes → Served Json → Verdict gate × List (KeyRow Json) → Type 0
  Holds m k s (v, keys) = let t = arrived gate s v keys in Bounded m k t.keys t.running t.recorded

  outcome-Bounded :
      (m : ℕ) (k : Bytes) (m' : ℕ) (k' : Bytes) (row r : KeyRow Json) (state : IdempotencyState)
      (s : Served Json)
      → Bounded m k s.keys s.running s.recorded
      → Holds m k s (verdict_of gate m' k' (outcome_of row.request_hash r state), s.keys)
  outcome-Bounded m k m' k' row r in_progress s b = b
  outcome-Bounded m k m' k' row r completed s b =
      elim (Bool-cases (eq_bytes r.request_hash row.request_hash)) [
        | inl e ↦ rw e b
        | inr e ↦ rw e b
      ]

  acquire-Bounded :
      (m : ℕ) (k : Bytes) (m' : ℕ) (k' endpoint hash : Bytes) (expires now : ℕ) (s : Served Json)
      → Bounded m k s.keys s.running s.recorded
      → let got = acquire m' k' endpoint hash expires now s.keys in
        Holds m k s (verdict_of gate m' k' got.0, got.1)
  unfolding acquire
  acquire-Bounded m k m' k' endpoint hash expires now s b =
      let row = new_row m' k' endpoint hash expires now in
      elim (Option-cases (find_key m' k' s.keys)) [
        | inl n ↦ rw n (begun m k m' k' row s b n refl)
        | inr (r, h) ↦ rw h (outcome-Bounded m k m' k' row r r.state s b)
      ]

  admit_as-Bounded :
      (m : ℕ) (k : Bytes) (stored : Bool) (now : ℕ) (req : Request) (key : Bytes)
      (merchant : Option ℕ) (s : Served Json)
      → Bounded m k s.keys s.running s.recorded
      → Holds m k s (admit_as gate stored now req key merchant s.keys)
  admit_as-Bounded m k stored now req key none s b = b
  admit_as-Bounded m k stored now req key (some merchant) s b =
      let endpoint = endpoint_of req.method req.path in
      let got =
        acquire-Bounded m k merchant key endpoint (fingerprint gate endpoint req.body)
          (now + gate.idempotency_ttl) now s b in
      elim (Bool-cases (ltb gate.max_body_bytes (length req.body))) [
        | inl e ↦ rw e b
        | inr e ↦ elim (Bool-cases stored) [ inl u ↦ rw (e, u) got | inr u ↦ rw (e, u) b ]
      ]

  admit_key-Bounded :
      (m : ℕ) (k : Bytes) (stored : Bool) (now : ℕ) (req : Request) (key : Result Bytes ApiError)
      (s : Served Json)
      → Bounded m k s.keys s.running s.recorded
      → Holds m k s (admit_key gate stored now req key s.keys)
  admit_key-Bounded m k stored now req (err e) s b = b
  admit_key-Bounded m k stored now req (ok key) s b =
      admit_as-Bounded m k stored now req key req.merchant s b

  admit_header-Bounded :
      (m : ℕ) (k : Bytes) (stored : Bool) (now : ℕ) (req : Request) (raw : Option Bytes)
      (s : Served Json)
      → Bounded m k s.keys s.running s.recorded
      → Holds m k s (admit_header gate stored now req raw s.keys)
  admit_header-Bounded m k stored now req none s b = b
  admit_header-Bounded m k stored now req (some raw) s b =
      admit_key-Bounded m k stored now req (idempotency_key raw) s b

  arrived-Bounded :
      (m : ℕ) (k : Bytes) (stored : Bool) (now : ℕ) (req : Request) (s : Served Json)
      → Bounded m k s.keys s.running s.recorded
      → let t = step gate (arrives stored now req) s in Bounded m k t.keys t.running t.recorded
  unfolding step admit
  arrived-Bounded m k stored now req s b = elim (Bool-cases (is_mutating req.method)) [
    | inl e ↦ rw e (admit_header-Bounded m k stored now req req.key_header s b)
    | inr e ↦ rw e b
  ]

  finished-Bounded :
      (m : ℕ) (k : Bytes) (m' : ℕ) (k' : Bytes) (stored : Bool) (response : Response)
      (s : Served Json)
      → Bounded m k s.keys s.running s.recorded
      → let t = step gate (finishes stored m' k' response) s in
        Bounded m k t.keys t.running t.recorded
  unfolding step record_response
  finished-Bounded m k m' k' stored response s b = elim (Option-cases (take_out m' k' s.running)) [
    | inl n ↦ rw n b
    | inr (rest, h) ↦
        let body = or_null gate (gate.parse response.body) in
        rw h (
          ground (
            arith,
            ended m k m' k' s rest s.keys b h (λ (e : is_key m k (m', k') ≡ false). refl),
            ended m k m' k' s rest (release m' k' s.keys) b h
                (has_row-release_other m k m' k' s.keys),
            kept m k m' k' s rest s.keys b h refl,
            kept m k m' k' s rest (complete m' k' (pos response.status) body s.keys) b h
                (has_row-complete m k m' k' (pos response.status) body s.keys),
          ))
  ]

  step-Bounded :
      (m : ℕ) (k : Bytes) (e : Event) (s : Served Json)
      → Bounded m k s.keys s.running s.recorded
      → Bounded m k (step gate e s).keys (step gate e s).running (step gate e s).recorded
  step-Bounded m k (arrives stored now req) s b = arrived-Bounded m k stored now req s b
  step-Bounded m k (finishes stored m' k' response) s b =
      finished-Bounded m k m' k' stored response s b

  serve-Bounded :
      (m : ℕ) (k : Bytes) (es : List Event) (s : Served Json)
      → Bounded m k s.keys s.running s.recorded
      → Bounded m k (serve gate es s).keys (serve gate es s).running (serve gate es s).recorded
  unfolding serve
  serve-Bounded m k [] s b = b
  serve-Bounded m k (e ∷ es) s b = serve-Bounded m k es (step gate e s) (step-Bounded m k e s b)

  -- In whatever order requests arrive and handlers end, and whichever statements on the table of keys
  -- fail, a merchant's key has one run at most that goes on or has its response kept, and none while the table
  -- has no row for the key.
  pub run_at_most_once :
      (m : ℕ) (k : Bytes) (es : List Event)
      → let s = serve gate es no_requests in runs_of m k s ≤ (if has_row m k s.keys then 1 else 0)
  unfolding runs_of no_requests count
  run_at_most_once m k es = serve-Bounded m k es no_requests (omega arith)
