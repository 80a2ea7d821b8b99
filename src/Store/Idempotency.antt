-- ===== src/Store/Idempotency.antt =====
-- Idempotency keys (crates/store/src/idempotency.rs): each statement on the table, with its primary key
-- of merchant and key (migrations/20260726102433_idempotency_keys.up.sql). A JSON body is of any type.
pub mod Rows
use payment_gateway_sandbox.Prelude.{
  ℕ, ◌≡◌, refl, arith, Bool, true, false, Bool-cases, not, ◌&&◌, Option, none, some, List, [], ◌∷◌,
  ◌++◌, ltb, ◌==◌, if◌then◌else◌, inl, inr,
}
use payment_gateway_sandbox.Prelude.Int.{ℤ, pos}
use payment_gateway_sandbox.Prelude.Bytes.{Bytes, eq_bytes}
use payment_gateway_sandbox.Prelude.Result.{Result, ok, err}
use payment_gateway_sandbox.Store.Error.{StoreError, row_not_found}

pub data IdempotencyState : Type 0 where
  in_progress completed : IdempotencyState

pub record KeyRow (Json : Type 0) : Type 0 where
  pub merchant_id : ℕ
  pub key : Bytes
  pub endpoint : Bytes
  pub request_hash : Bytes
  pub state : IdempotencyState
  pub response_status : Option ℤ
  pub response_body : Option Json
  pub expires_at : ℕ
  pub created_at : ℕ

pub data AcquireOutcome (Json : Type 0) : Type 0 where
  acquired : AcquireOutcome Json
  replay : ℤ → Option Json → AcquireOutcome Json
  mismatch in_flight : AcquireOutcome Json

abbrev pub status_or_200 : Option ℤ → ℤ
status_or_200 none = pos 200
status_or_200 (some s) = s

abbrev pub is_in_progress : IdempotencyState → Bool
is_in_progress in_progress = true
is_in_progress completed = false

module _ {Json : Type 0} where
  abbrev pub is_row : ℕ → Bytes → KeyRow Json → Bool
  is_row merchant key r = r.merchant_id == merchant && eq_bytes r.key key

  -- `WHERE merchant_id = $1 AND key = $2`
  unfoldable pub find_key : ℕ → Bytes → List (KeyRow Json) → Option (KeyRow Json)
  find_key merchant key [] = none
  find_key merchant key (r ∷ rs) =
      if is_row merchant key r then some r else find_key merchant key rs

  abbrev pub new_row : ℕ → Bytes → Bytes → Bytes → ℕ → ℕ → KeyRow Json
  new_row merchant key endpoint request_hash expires_at now = record {
    merchant_id = merchant;
    key = key;
    endpoint = endpoint;
    request_hash = request_hash;
    state = in_progress;
    response_status = none;
    response_body = none;
    expires_at = expires_at;
    created_at = now;
  }

  -- The `match` on the row that is already there.
  abbrev pub outcome_of : Bytes → KeyRow Json → IdempotencyState → AcquireOutcome Json
  outcome_of request_hash r in_progress = in_flight
  outcome_of request_hash r completed =
      if eq_bytes r.request_hash request_hash
      then replay (status_or_200 r.response_status) r.response_body
      else mismatch

  -- `INSERT … ON CONFLICT DO NOTHING`, then the answer by the row that is there.
  abbrev pub acquire_at :
      KeyRow Json
      → Option (KeyRow Json)
      → List (KeyRow Json)
      → AcquireOutcome Json × List (KeyRow Json)
  acquire_at row none table = (acquired, table ++ row ∷ [])
  acquire_at row (some r) table = (outcome_of row.request_hash r r.state, table)

  unfoldable pub acquire :
      ℕ
      → Bytes
      → Bytes
      → Bytes
      → ℕ
      → ℕ
      → List (KeyRow Json)
      → AcquireOutcome Json × List (KeyRow Json)
  unfolding find_key
  acquire merchant key endpoint request_hash expires_at now table =
      acquire_at (new_row merchant key endpoint request_hash expires_at now)
        (find_key merchant key table) table

  abbrev pub completed_row : ℤ → Json → KeyRow Json → KeyRow Json
  completed_row status body r = record r {
    state = completed;
    response_status = some status;
    response_body = some body;
  }

  unfoldable pub complete : ℕ → Bytes → ℤ → Json → List (KeyRow Json) → List (KeyRow Json)
  complete merchant key status body [] = []
  complete merchant key status body (r ∷ rs) =
      (if is_row merchant key r then completed_row status body r else r)
      ∷ complete merchant key status body rs

  unfoldable pub release : ℕ → Bytes → List (KeyRow Json) → List (KeyRow Json)
  release merchant key [] = []
  release merchant key (r ∷ rs) =
      let rest = release merchant key rs in
      if is_row merchant key r && is_in_progress r.state then rest else r ∷ rest

  unfoldable pub purge_expired : ℕ → List (KeyRow Json) → List (KeyRow Json)
  purge_expired now [] = []
  purge_expired now (r ∷ rs) =
      let rest = purge_expired now rs in if ltb r.expires_at now then rest else r ∷ rest
