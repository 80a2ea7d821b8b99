-- ===== src/Api/Idempotency/Runs.antt =====
-- Requests under keys as a run of the middleware: arrivals and ends of handlers in any order, each with a
-- statement on the table of keys that gets through or fails, and the count of the runs of a key.
use payment_gateway_sandbox.Prelude.{
  ℕ, suc, ◌+◌, ◌≡◌, arith, Bool, true, false, Bool-cases, Option, none, some, List, [], ◌∷◌,
  if◌then◌else◌, inl, inr, Option-cases,
}
use payment_gateway_sandbox.Prelude.Bytes.{Bytes, eq_bytes_sound}
use payment_gateway_sandbox.Store.Idempotency.{KeyRow}
use payment_gateway_sandbox.Store.Idempotency.Rows.{is_key}
use payment_gateway_sandbox.Api.Idempotency.{
  Request, Response, Gate, Verdict, run, admit, is_recorded, record_response,
}

-- How often a key stands in a list of runs.
unfoldable pub count : ℕ → Bytes → List (ℕ × Bytes) → ℕ
count m k [] = 0
count m k (x ∷ xs) = let rest = count m k xs in if is_key m k x then suc rest else rest

-- Takes the first run of a key out of a list.
abbrev pub keep_first : ℕ × Bytes → Option (List (ℕ × Bytes)) → Option (List (ℕ × Bytes))
keep_first x none = none
keep_first x (some xs) = some (x ∷ xs)

unfoldable pub take_out : ℕ → Bytes → List (ℕ × Bytes) → Option (List (ℕ × Bytes))
take_out m k [] = none
take_out m k (x ∷ xs) =
    let rest = keep_first x (take_out m k xs) in if is_key m k x then some xs else rest

-- The table, the handlers that run under a key, and those whose response was kept.
pub record Served (Json : Type 0) : Type 0 where
  pub keys : List (KeyRow Json)
  pub running : List (ℕ × Bytes)
  pub recorded : List (ℕ × Bytes)

pub data Event : Type 0 where
  arrives : Bool → ℕ → Request → Event
  finishes : Bool → ℕ → Bytes → Response → Event

module _ {Json : Type 0} where
  -- How many runs of a key go on or have their response kept.
  unfoldable pub runs_of : ℕ → Bytes → Served Json → ℕ
  unfolding count
  runs_of m k s = count m k s.running + count m k s.recorded

  unfoldable pub no_requests : Served Json
  no_requests = record { keys = []; running = []; recorded = [] }

module _ {Json : Type 0} (gate : Gate Json) where
  abbrev pub arrived : Served Json → Verdict gate → List (KeyRow Json) → Served Json
  arrived s (run m k) keys = record s { keys = keys; running = (m, k) ∷ s.running }
  arrived s _ keys = record s { keys = keys }

  abbrev pub finished :
      Bool → ℕ → Bytes → Response → Served Json → Option (List (ℕ × Bytes)) → Served Json
  finished stored m k response s none = s
  finished stored m k response s (some rest) = record {
    keys = (record_response gate stored m k response s.keys).1;
    running = rest;
    recorded = if is_recorded gate response then (m, k) ∷ s.recorded else s.recorded;
  }

  unfoldable pub step : Event → Served Json → Served Json
  unfolding admit record_response take_out
  step (arrives stored now req) s = let r = admit gate stored now req s.keys in arrived s r.0 r.1
  step (finishes stored m k response) s = finished stored m k response s (take_out m k s.running)

  unfoldable pub serve : List Event → Served Json → Served Json
  unfolding step
  serve [] s = s
  serve (e ∷ es) s = serve es (step e s)

pub count-take_out :
    (m : ℕ) (k : Bytes) (l l' : List (ℕ × Bytes))
    → take_out m k l ≡ some l'
    → count m k l ≡ suc (count m k l')
unfolding count take_out
count-take_out m k [] l' h = cc
count-take_out m k (x ∷ xs) l' h = elim (Bool-cases (is_key m k x)) [
  | inl e ↦ ground arith
  | inr e ↦ elim (Option-cases (take_out m k xs)) [
    | inl n ↦ ground arith
    | inr (ys, q) ↦ ground (arith, count-take_out m k xs ys q)
  ]
]

pub count-take_out_same :
    (m : ℕ) (k : Bytes) (m' : ℕ) (k' : Bytes) (l l' : List (ℕ × Bytes))
    → take_out m' k' l ≡ some l'
    → is_key m k (m', k') ≡ true
    → count m k l ≡ suc (count m k l')
count-take_out_same m k m' k' l l' h e =
    ground (arith, eq_bytes_sound k' k, count-take_out m' k' l l' h)

pub is_key_trans :
    (m : ℕ) (k : Bytes) (m' : ℕ) (k' : Bytes) (x : ℕ × Bytes)
    → is_key m' k' x ≡ true
    → is_key m k x ≡ is_key m k (m', k')
is_key_trans m k m' k' (a, b) h = ground (arith, eq_bytes_sound b k')

pub count-take_out_other :
    (m : ℕ) (k : Bytes) (m' : ℕ) (k' : Bytes) (l l' : List (ℕ × Bytes))
    → take_out m' k' l ≡ some l'
    → is_key m k (m', k') ≡ false
    → count m k l ≡ count m k l'
unfolding count take_out
count-take_out_other m k m' k' [] l' h d = cc
count-take_out_other m k m' k' (x ∷ xs) l' h d = elim (Bool-cases (is_key m' k' x)) [
  | inl e ↦ ground (arith, is_key_trans m k m' k' x)
  | inr e ↦ elim (Option-cases (take_out m' k' xs)) [
    | inl n ↦ ground arith
    | inr (ys, q) ↦ ground (arith, count-take_out_other m k m' k' xs ys q d)
  ]
]
