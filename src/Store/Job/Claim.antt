-- ===== src/Store/Job/Claim.antt =====
-- What `claim_batch` guarantees to the workers, and what stops it.
use payment_gateway_sandbox.Prelude.{
  ℕ, zero, suc, ◌+◌, ◌≤◌, ◌≡◌, ◌≢◌, ◌⊎◌, refl, arith, inl, inr, String, Bool, true, false,
  Bool-cases, List, [], ◌∷◌, ◌++◌, leb, ◌==◌,
}
use payment_gateway_sandbox.Prelude.Lists.{All}
use payment_gateway_sandbox.Prelude.Result.{ok, err, Result-cases}
use payment_gateway_sandbox.Store.Error.{StoreError, check_violation}
use payment_gateway_sandbox.Store.Job.{
  Job, is_due, insert_by_run_at, due_by_run_at, take_ids, id_in, claimed_row, claim_rows,
  claim_batch,
}

insert-All :
    (P : Job → Type 0) (j : Job) (js : List Job) → P j → All P js → All P (insert_by_run_at j js)
unfolding insert_by_run_at
insert-All P j [] h hs = (h, tt)
insert-All P j (k ∷ ks) h hs = elim (Bool-cases (leb j.run_at k.run_at)) [
  | inl first ↦ rw first (h, hs)
  | inr later ↦ rw later (hs.0, insert-All P j ks h hs.1)
]

-- What holds of every due row of a table holds of the rows that are picked from it.
due-All :
    (P : Job → Type 0) (locked : ℕ → Bool) (now : ℕ) (js : List Job)
    → All (λ j. is_due locked now j ≡ true → P j) js
    → All P (due_by_run_at locked now js)
unfolding due_by_run_at
due-All P locked now [] h = tt
due-All P locked now (j ∷ js) h = elim (Bool-cases (is_due locked now j)) [
  | inl due ↦ rw due (insert-All P j _ (h.0 due) (due-All P locked now js h.1))
  | inr other ↦ rw other (due-All P locked now js h.1)
]

take_ids-not_in :
    (i n : ℕ) (js : List Job) → All (λ j. j.id ≢ i) js → id_in i (take_ids n js) ≡ false
unfolding id_in take_ids
take_ids-not_in i zero js h = refl
take_ids-not_in i (suc n) [] h = refl
take_ids-not_in i (suc n) (j ∷ js) h = ground (arith, take_ids-not_in i n js h.1)

take_ids-in :
    (P : ℕ → Type 0) (i n : ℕ) (js : List Job)
    → All (λ j. P j.id) js
    → id_in i (take_ids n js) ≡ true
    → P i
unfolding id_in take_ids
take_ids-in P i zero js h e = cc
take_ids-in P i (suc n) [] h e = cc
take_ids-in P i (suc n) (j ∷ js) h e = elim (Bool-cases (i == j.id)) [
  | inl same ↦ let e' : i ≡ j.id = ground arith in rw e' h.0
  | inr other ↦ take_ids-in P i n js h.1 (rw other at e)
]

-- What a claim that goes through did with the first row.
pub record Step (worker : String) (now : ℕ) (ids : List ℕ) (j : Job) (js t c : List Job)
    : Type 0 where
  pub table : List Job
  pub claimed : List Job
  pub rest : claim_rows worker now ids js ≡ ok (table, claimed)
  pub row :
      ((id_in j.id ids ≡ true)
        × (j.attempts + 1 ≤ j.max_attempts)
        × (t ≡ claimed_row worker now j ∷ table)
        × (c ≡ claimed_row worker now j ∷ claimed))
      ⊎ ((id_in j.id ids ≡ false) × (t ≡ j ∷ table) × (c ≡ claimed))

pub step :
    (worker : String) (now : ℕ) (ids : List ℕ) (j : Job) (js t c : List Job)
    → claim_rows worker now ids (j ∷ js) ≡ ok (t, c)
    → Step worker now ids j js t c
unfolding claim_rows
step worker now ids j js t c e = elim (Result-cases (claim_rows worker now ids js)) [
  | inr (x, failed) ↦ cc (rw failed at e)
  | inl (tc, done) ↦ elim (Bool-cases (id_in j.id ids)) [
    | inl mine ↦ record { table = tc.0; claimed = tc.1; rest = done; row = inl (ground arith) }
    | inr other ↦ record { table = tc.0; claimed = tc.1; rest = done; row = inr (ground arith) }
  ]
]

-- A claimed row is no longer pending.
claimed-not_due :
    (locked : ℕ → Bool) (worker : String) (i now later : ℕ) (ids : List ℕ) (js t c : List Job)
    → id_in i ids ≡ true
    → claim_rows worker now ids js ≡ ok (t, c)
    → All (λ j. is_due locked later j ≡ true → j.id ≢ i) t
unfolding claim_rows
claimed-not_due locked worker i now later ids [] t c h e = let e' : t ≡ [] = cc in rw e' tt
claimed-not_due locked worker i now later ids (j ∷ js) t c h e =
    let s = step worker now ids j js t c e in
    let hs = claimed-not_due locked worker i now later ids js s.table s.claimed h s.rest in
    elim s.row [
      | inl (mine, fits, et, ec) ↦ rw et (λ d. cc, hs)
      | inr (other, et, ec) ↦ rw et (λ d same. cc (rw same at other), hs)
    ]

-- Two claims never take the same job: whichever rows a second worker sees locked, and whenever it
-- asks, what it picks from the table that a claim left has no id that the claim took.
pub claims_are_disjoint :
    (locked locked' : ℕ → Bool) (worker : String) (limit limit' now later : ℕ) (js : List Job)
    → {t c : List Job} → claim_batch locked worker limit now js ≡ ok (t, c)
    → (i : ℕ) → id_in i (take_ids limit (due_by_run_at locked now js)) ≡ true
    → id_in i (take_ids limit' (due_by_run_at locked' later t)) ≡ false
unfolding claim_batch
claims_are_disjoint locked locked' worker limit limit' now later js {t} {c} e i h =
    take_ids-not_in i limit' _ (
      due-All (λ j. j.id ≢ i) locked' later t
        (claimed-not_due locked' worker i now later _ js t c h e))

-- The CHECK is the only way for the statement to fail.
claim_rows-err :
    (worker : String) (now : ℕ) (ids : List ℕ) (js : List Job) (e : StoreError)
    → claim_rows worker now ids js ≡ err e
    → e ≡ check_violation "jobs_attempts_bounds"
unfolding claim_rows
claim_rows-err worker now ids [] e h = cc
claim_rows-err worker now ids (j ∷ js) e h = elim (Result-cases (claim_rows worker now ids js)) [
  | inr (x, failed) ↦ cc (claim_rows-err worker now ids js x failed, rw failed at h)
  | inl (tc, done) ↦ ground arith
]

exhausted-fails :
    (worker : String) (now : ℕ) (ids : List ℕ) (before after : List Job) (j : Job)
    → id_in j.id ids ≡ true
    → j.max_attempts ≤ j.attempts
    → claim_rows worker now ids (before ++ j ∷ after) ≡ err (check_violation "jobs_attempts_bounds")
unfolding claim_rows
exhausted-fails worker now ids [] after j h e =
    elim (Result-cases (claim_rows worker now ids after)) [
      | inr (x, failed) ↦ rw (failed, claim_rows-err worker now ids after x failed) refl
      | inl (tc, done) ↦ ground (arith)
    ]
exhausted-fails worker now ids (k ∷ before) after j h e =
    rw (exhausted-fails worker now ids before after j h e) refl

-- One job that has used up its attempts, if it is among the rows picked, makes the claim of the whole
-- batch fail: no job is claimed at all, whatever else is due.
pub exhausted_job_blocks_claim :
    (locked : ℕ → Bool) (worker : String) (limit now : ℕ) (before after : List Job) (j : Job)
    → id_in j.id (take_ids limit (due_by_run_at locked now (before ++ j ∷ after))) ≡ true
    → j.max_attempts ≤ j.attempts
    → claim_batch locked worker limit now (before ++ j ∷ after)
      ≡ err (check_violation "jobs_attempts_bounds")
unfolding claim_batch
exhausted_job_blocks_claim locked worker limit now before after j h e =
    exhausted-fails worker now _ before after j h e
