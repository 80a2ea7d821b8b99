-- ===== src/Queue/Worker.antt =====
-- The worker (crates/queue/worker.rs, crates/queue/job.rs). A handler is a function of the payload and
-- the state; the clock is read once at the start of a tick and once for each job.
use payment_gateway_sandbox.Prelude.{
  ℕ, ◌-◌, ◌≤◌, ◌≡◌, refl, String, Bool, true, Option, none, some, List, [], ◌∷◌, ◌++◌,
  if◌then◌else◌,
}
use payment_gateway_sandbox.Prelude.Result.{Result, ok, err}
use payment_gateway_sandbox.Store.Error.{StoreError}
use payment_gateway_sandbox.Store.Db.{Db}
use payment_gateway_sandbox.Store.Job.{
  Job, Payload, claim_batch, complete, fail_and_reschedule, reap_stale_leases, due_by_run_at,
  take_ids, id_in,
}
use payment_gateway_sandbox.Store.Job.Claim.{exhausted_job_blocks_claim}
use payment_gateway_sandbox.Queue.Scheduler.{next_retry_at}
use text.Mathlib.Text.{◌==◌ as str_eq}

-- What `JobHandler::handle` returns: `Ok(())`, or a `JobError`.
pub data Handled : Type 0 where
  handled : Handled
  retryable permanent : String → Handled

abbrev pub Handler : Type 0
Handler = Payload → Db → Handled × Db

-- `HashMap::get` on the registered handlers; `register` replaces, so the last one of a kind counts.
unfoldable pub handler_of : String → List (String × Handler) → Option Handler
handler_of kind [] = none
handler_of kind ((k, h) ∷ hs) = elim (handler_of kind hs) [
  | some h' ↦ some h'
  | none ↦ if str_eq k kind then some h else none
]

abbrev pub on_jobs : (List Job → List Job) → Db → Db
on_jobs f db = record db { jobs = f db.jobs }

-- What `execute` records of a handler's outcome.
unfoldable pub record_outcome : Job → ℕ → Handled → Db → Db
record_outcome job now handled = on_jobs (complete job.id now)
record_outcome job now (permanent msg) = on_jobs (fail_and_reschedule job.id msg none now)
record_outcome job now (retryable msg) =
    on_jobs (fail_and_reschedule job.id msg (next_retry_at job.attempts now) now)

-- The `match` on the registered handler in `execute`.
abbrev pub run_handler : ℕ → Job → Option Handler → Db → Db
run_handler now job none db =
    on_jobs (fail_and_reschedule job.id "no handler registered" none now) db
run_handler now job (some handle) db =
    record_outcome job now (handle job.payload db).0 (handle job.payload db).1

-- `Worker::execute`
unfoldable pub execute : List (String × Handler) → ℕ → Job → Db → Db
unfolding handler_of record_outcome
execute handlers now job db = run_handler now job (handler_of job.kind handlers) db

-- The loop over the claimed jobs; `clock` gives the time at which each is executed.
unfoldable pub execute_all : List (String × Handler) → (Job → ℕ) → List Job → Db → Db
unfolding execute
execute_all handlers clock [] db = db
execute_all handlers clock (j ∷ js) db =
    execute_all handlers clock js (execute handlers (clock j) j db)

pub record WorkerConfig : Type 0 where
  pub worker_id : String
  pub batch_size : ℕ
  pub lease_timeout : ℕ

-- What follows the claim: on an error nothing more is done.
abbrev after_claim :
    List (String × Handler)
    → (Job → ℕ)
    → List Job
    → Db
    → Result (List Job × List Job) StoreError
    → Db
after_claim handlers clock reaped db (err _) = record db { jobs = reaped }
after_claim handlers clock reaped db (ok (table, claimed)) =
    execute_all handlers clock claimed (record db { jobs = table })

-- `Worker::tick`; `locked` are the rows that other workers hold a lock on.
unfoldable pub tick : WorkerConfig → List (String × Handler) → (ℕ → Bool) → ℕ → (Job → ℕ) → Db → Db
tick config handlers locked now clock db =
    let reaped = reap_stale_leases (now - config.lease_timeout) now db.jobs in
    after_claim handlers clock reaped db
      (claim_batch locked config.worker_id config.batch_size now reaped)

-- If the rows that a tick picks include a job that has used up its attempts, the tick does nothing
-- but reap: no handler runs, and the table stays as it was after reaping, whatever else is due.
pub exhausted_job_stops_tick :
    (config : WorkerConfig) (handlers : List (String × Handler)) (locked : ℕ → Bool) (now : ℕ)
    → (clock : Job → ℕ) (db : Db) (before after : List Job) (j : Job)
    → reap_stale_leases (now - config.lease_timeout) now db.jobs ≡ before ++ j ∷ after
    → id_in j.id (take_ids config.batch_size (due_by_run_at locked now (before ++ j ∷ after)))
      ≡ true
    → j.max_attempts ≤ j.attempts
    → tick config handlers locked now clock db ≡ record db { jobs = before ++ j ∷ after }
unfolding tick
exhausted_job_stops_tick config handlers locked now clock db before after j reaped picked used =
    rw
      (
        reaped,
        exhausted_job_blocks_claim locked config.worker_id config.batch_size now before after j
            picked used,
      )
      refl
