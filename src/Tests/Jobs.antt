-- ===== src/Tests/Jobs.antt =====
-- The theorems on the queue at concrete tables.
use payment_gateway_sandbox.Prelude.{
  ℕ, ◌≡◌, refl, arith, String, Bool, true, false, none, some, List, [], ◌∷◌, ◌++◌,
}
use payment_gateway_sandbox.Prelude.Result.{ok}
use payment_gateway_sandbox.Store.Db.{Db}
use payment_gateway_sandbox.Store.Job.{
  Job, pending, running, payment_payload, claim_batch, claim_rows, due_by_run_at, insert_by_run_at,
  take_ids, id_in, reap_stale_leases,
}
use payment_gateway_sandbox.Store.Job.Claim.{claims_are_disjoint}
use payment_gateway_sandbox.Queue.Worker.{
  WorkerConfig, Handler, handled, tick, exhausted_job_stops_tick,
}

abbrev job : ℕ → ℕ → ℕ → ℕ → Job
job id run_at attempts most = record {
  id = id;
  kind = "deliver_webhook";
  payload = payment_payload 1;
  state = pending;
  run_at = run_at;
  attempts = attempts;
  max_attempts = most;
  last_error = none;
  locked_at = none;
  locked_by = none;
  created_at = 0;
  updated_at = 0;
}

abbrev unlocked : ℕ → Bool
unlocked _ = false

abbrev as_claimed : Job → Job
as_claimed j = record j {
  state = running;
  locked_at = some 100;
  locked_by = some "w1";
  attempts = 1;
  updated_at = 100;
}

-- Two due jobs, of which one is claimed.
abbrev two_jobs : List Job
two_jobs = job 1 20 0 7 ∷ job 2 10 0 7 ∷ []

first-claim :
    claim_batch unlocked "w1" 1 100 two_jobs
    ≡ ok (job 1 20 0 7 ∷ as_claimed (job 2 10 0 7) ∷ [], as_claimed (job 2 10 0 7) ∷ [])
unfolding claim_batch claim_rows due_by_run_at insert_by_run_at take_ids id_in
first-claim = refl

second-picked : id_in 2 (take_ids 1 (due_by_run_at unlocked 100 two_jobs)) ≡ true
unfolding due_by_run_at insert_by_run_at take_ids id_in
second-picked = refl

second-claim-other :
    id_in 2
      (take_ids 5 (due_by_run_at unlocked 900 (job 1 20 0 7 ∷ as_claimed (job 2 10 0 7) ∷ [])))
    ≡ false
second-claim-other =
    claims_are_disjoint unlocked unlocked "w1" 1 5 100 900 two_jobs first-claim 2 second-picked

-- A job of one attempt is enqueued, claimed, and reaped after its worker has died.
abbrev lost_job : List Job
lost_job = record (job 1 10 1 1) { updated_at = 500 } ∷ []

abbrev claimed_job : Job
claimed_job = as_claimed (record (job 1 10 0 1) { max_attempts = 1 })

lost_job-picked :
    id_in 1 (take_ids 10 (due_by_run_at unlocked 500 ((job 2 5 0 7 ∷ []) ++ lost_job))) ≡ true
unfolding due_by_run_at insert_by_run_at take_ids id_in
lost_job-picked = refl

abbrev db : Db
db = record {
  orders = [];
  payments = [];
  attempts = [];
  refunds = [];
  accounts = [];
  postings = [];
  endpoints = [];
  events = [];
  deliveries = [];
  jobs = (job 2 5 0 7 ∷ []) ++ lost_job;
  drawn = 0;
}

abbrev config : WorkerConfig
config = record { worker_id = "w2"; batch_size = 10; lease_timeout = 300 }

abbrev handlers : List (String × Handler)
handlers = ("deliver_webhook", λ p d. (handled, d)) ∷ []

nothing_stale : reap_stale_leases 200 500 db.jobs ≡ db.jobs
unfolding reap_stale_leases
nothing_stale = refl

stopped_example : tick config handlers unlocked 500 (λ j. 500) db ≡ db
stopped_example =
    exhausted_job_stops_tick config handlers unlocked 500 (λ j. 500) db (job 2 5 0 7 ∷ []) []
      (record (job 1 10 1 1) { updated_at = 500 }) nothing_stale lost_job-picked (omega arith)
