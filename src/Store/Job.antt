-- ===== src/Store/Job.antt =====
-- The job queue's table and its statements (crates/store/src/job.rs), with the CHECK of its
-- migration (migrations/20260726102323_jobs.up.sql): a job has at most `max_attempts` attempts.
pub mod Claim
use payment_gateway_sandbox.Prelude.{
  ℕ, zero, suc, ◌+◌, String, Bool, true, false, not, Option, none, some, List, [], ◌∷◌, ◌++◌, ◌&&◌,
  ltb, leb, ◌==◌, if◌then◌else◌, map,
}
use payment_gateway_sandbox.Prelude.Result.{Result, ok, err, ◌>>=◌}
use payment_gateway_sandbox.Store.Error.{StoreError, check_violation}

pub data JobState : Type 0 where
  pending running completed failed dead : JobState

-- The JSON that the program enqueues: `{payment_id}`, or `{delivery_id, event_id, endpoint_id}`.
pub data Payload : Type 0 where
  payment_payload : ℕ → Payload
  delivery_payload : ℕ → ℕ → ℕ → Payload

pub record Job : Type 0 where
  pub id : ℕ
  pub kind : String
  pub payload : Payload
  pub state : JobState
  pub run_at : ℕ
  pub attempts : ℕ
  pub max_attempts : ℕ
  pub last_error : Option String
  pub locked_at : Option ℕ
  pub locked_by : Option String
  pub created_at : ℕ
  pub updated_at : ℕ

-- The row that `enqueue` inserts, under the id that `JobId::new` draws.
unfoldable pub enqueue : ℕ → String → Payload → ℕ → ℕ → ℕ → List Job → List Job
enqueue id kind payload run_at max_attempts now jobs =
    jobs
    ++ record {
      id = id;
      kind = kind;
      payload = payload;
      state = pending;
      run_at = run_at;
      attempts = 0;
      max_attempts = max_attempts;
      last_error = none;
      locked_at = none;
      locked_by = none;
      created_at = now;
      updated_at = now;
    }
      ∷ []

abbrev pub is_pending : JobState → Bool
is_pending pending = true
is_pending _ = false

abbrev pub is_running : JobState → Bool
is_running running = true
is_running _ = false

-- `state = 'pending' AND run_at <= now`, and not a row that another worker has locked
abbrev pub is_due : (ℕ → Bool) → ℕ → Job → Bool
is_due locked now j = is_pending j.state && (leb j.run_at now && not (locked j.id))

-- `ORDER BY run_at` over the due rows; rows of one time stay in the order of the table.
unfoldable pub insert_by_run_at : Job → List Job → List Job
insert_by_run_at j [] = j ∷ []
insert_by_run_at j (k ∷ ks) =
    if leb j.run_at k.run_at then j ∷ k ∷ ks else k ∷ insert_by_run_at j ks

unfoldable pub due_by_run_at : (ℕ → Bool) → ℕ → List Job → List Job
unfolding insert_by_run_at
due_by_run_at locked now [] = []
due_by_run_at locked now (j ∷ js) =
    if is_due locked now j
    then insert_by_run_at j (due_by_run_at locked now js)
    else due_by_run_at locked now js

-- `LIMIT`, and the ids
unfoldable pub take_ids : ℕ → List Job → List ℕ
take_ids zero js = []
take_ids (suc n) [] = []
take_ids (suc n) (j ∷ js) = j.id ∷ take_ids n js

unfoldable pub id_in : ℕ → List ℕ → Bool
id_in i [] = false
id_in i (k ∷ ks) = if i == k then true else id_in i ks

abbrev pub claimed_row : String → ℕ → Job → Job
claimed_row worker now j = record j {
  state = running;
  locked_at = some now;
  locked_by = some worker;
  attempts = j.attempts + 1;
  updated_at = now;
}

-- The `UPDATE … RETURNING` of `claim_batch`: the new table and the rows returned. A row over its
-- CHECK aborts the statement.
unfoldable pub claim_rows : String → ℕ → List ℕ → List Job → Result (List Job × List Job) StoreError
claim_rows worker now ids [] = ok ([], [])
claim_rows worker now ids (j ∷ js) = do
  (table, claimed) ← claim_rows worker now ids js
  if id_in j.id ids
      then (if ltb j.max_attempts (j.attempts + 1)
          then err (check_violation "jobs_attempts_bounds")
          else ok (claimed_row worker now j ∷ table, claimed_row worker now j ∷ claimed))
      else ok (j ∷ table, claimed)

unfoldable pub claim_batch :
    (ℕ → Bool) → String → ℕ → ℕ → List Job → Result (List Job × List Job) StoreError
unfolding claim_rows
claim_batch locked worker limit now jobs =
    claim_rows worker now (take_ids limit (due_by_run_at locked now jobs)) jobs

-- `UPDATE jobs SET … WHERE id = $1`
abbrev pub update_job : ℕ → (Job → Job) → List Job → List Job
update_job id f [] = []
update_job id f (j ∷ js) = (if j.id == id then f j else j) ∷ update_job id f js

unfoldable pub complete : ℕ → ℕ → List Job → List Job
complete id now =
    update_job id
      (λ j. record j { state = completed; locked_at = none; locked_by = none; updated_at = now })

unfoldable pub fail_and_reschedule : ℕ → String → Option ℕ → ℕ → List Job → List Job
fail_and_reschedule id error (some when) now = update_job id (λ j. record j {
  state = pending;
  run_at = when;
  last_error = some error;
  locked_at = none;
  locked_by = none;
  updated_at = now;
})
fail_and_reschedule id error none now = update_job id (λ j. record j {
  state = dead;
  last_error = some error;
  locked_at = none;
  locked_by = none;
  updated_at = now;
})

-- `locked_at < $1`, which is not so of a NULL
abbrev pub locked_before : Option ℕ → ℕ → Bool
locked_before none t = false
locked_before (some at) t = ltb at t

abbrev pub is_stale : ℕ → Job → Bool
is_stale stale_before j = is_running j.state && locked_before j.locked_at stale_before

abbrev pub released_row : ℕ → Job → Job
released_row now j = record j {
  state = pending;
  locked_at = none;
  locked_by = none;
  updated_at = now;
}

unfoldable pub reap_stale_leases : ℕ → ℕ → List Job → List Job
reap_stale_leases stale_before now [] = []
reap_stale_leases stale_before now (j ∷ js) =
    (if is_stale stale_before j then released_row now j else j)
    ∷ reap_stale_leases stale_before now js
