-- ===== src/Api/Idempotency/Replay.antt =====
-- What a second request under a key gets: the first one's response, a conflict, or a run of its own.
use payment_gateway_sandbox.Prelude.{
  ℕ, ◌≡◌, ◌≤◌, refl, ap, ◌∙◌, arith, true, false, Bool-cases, none, some, List, [], ◌∷◌, ◌++◌,
  if◌then◌else◌, inl, inr,
}
use payment_gateway_sandbox.Prelude.Int.{pos}
use payment_gateway_sandbox.Prelude.Bytes.{Bytes, eq_bytes, lacks, eq_bytes_refl, eq_bytes_sound}
use payment_gateway_sandbox.Prelude.Result.{ok, err}
use payment_gateway_sandbox.Api.Error.{conflicting, retry_after}
use payment_gateway_sandbox.Store.Idempotency.{KeyRow, find_key, complete, release, completed_row}
use payment_gateway_sandbox.Store.Idempotency.Rows.{
  find_key-append, find_key-complete, find_key-release_in_progress,
}
use payment_gateway_sandbox.Api.Idempotency.{
  preimage, Request, Response, Gate, Verdict, answer, run, admit, is_recorded, or_null, endpoint_of,
  fingerprint, replayed_response,
}
use payment_gateway_sandbox.Api.Idempotency.Steps.{
  IsKeyed, hash_of, while_running, when_done, row_for, begins, finds, is_row-row_for,
  while_running_lem, when_done_kept, when_done_dropped,
}
use payment_gateway_sandbox.Api.Idempotency.Fingerprint.{preimage_injective}

module _ {Json : Type 0} (gate : Gate Json) where
  -- While the first request under a key runs, which found the key free, every other request under the key gets
  -- the conflict that says to come back after a second, and the table stays as it is.
  pub second_request_waits :
      (now now' : ℕ) (req req' : Request) (m : ℕ) (k : Bytes) (table : List (KeyRow Json))
      → IsKeyed gate req m k
      → IsKeyed gate req' m k
      → find_key m k table ≡ none
      → admit gate true now' req' (while_running gate now req table) ≡ (
        answer (err (retry_after 1 (conflicting "idempotency_key_in_flight"))),
        while_running gate now req table,
      )
  second_request_waits now now' req req' m k table h h' n =
      rw (while_running_lem gate now req m k table h n) (
        finds gate now' req' m k (table ++ row_for gate now req m k ∷ []) (row_for gate now req m k)
          h'
          (find_key-append m k table (row_for gate now req m k) n
            (is_row-row_for gate now req m k)))

  second_request_finds_response :
      (now now' : ℕ) (req req' : Request) (m : ℕ) (k : Bytes) (response : Response)
      (table : List (KeyRow Json))
      → IsKeyed gate req m k
      → IsKeyed gate req' m k
      → find_key m k table ≡ none
      → is_recorded gate response ≡ true
      → admit gate true now' req' (when_done gate now req m k response table) ≡ (
        answer (
            if eq_bytes (hash_of gate req) (hash_of gate req')
            then ok (
                replayed_response gate
                  (pos response.status)
                  (some (or_null gate (gate.parse response.body))))
            else err (conflicting "idempotency_key_reused")),
        when_done gate now req m k response table,
      )
  second_request_finds_response now now' req req' m k response table h h' n r =
      let row = row_for gate now req m k in
      let body = or_null gate (gate.parse response.body) in
      let begun = table ++ row ∷ [] in
      rw (when_done_kept gate now req m k response table h n r) (
        rw
          (finds gate now' req' m k (complete m k (pos response.status) body begun)
            (completed_row (pos response.status) body row) h'
            (find_key-complete m k (pos response.status) body begun row
              (find_key-append m k table row n (is_row-row_for gate now req m k))))
          (elim (Bool-cases (eq_bytes (hash_of gate req) (hash_of gate req'))) [
            | inl e ↦ rw e refl
            | inr e ↦ rw e refl
          ]))

  -- When the first request under a key, which found the key free, had a response that is not kept (a server's
  -- error, or a body too long), a second request under the key runs its handler.
  pub second_request_runs :
      (now now' : ℕ) (req req' : Request) (m : ℕ) (k : Bytes) (response : Response)
      (table : List (KeyRow Json))
      → IsKeyed gate req m k
      → IsKeyed gate req' m k
      → find_key m k table ≡ none
      → is_recorded gate response ≡ false
      → (admit gate true now' req' (when_done gate now req m k response table)).0 ≡ run m k
  second_request_runs now now' req req' m k response table h h' n r =
      let row = row_for gate now req m k in
      let begun = table ++ row ∷ [] in
      rw (when_done_dropped gate now req m k response table h n r) (
        ap (λ (x : Verdict gate × List (KeyRow Json)). x.0)
          (begins gate now' req' m k (release m k begun) h'
            (find_key-release_in_progress m k table row n (is_row-row_for gate now req m k) refl)))

  -- When the first request under a key, which found the key free, had a response that is kept, of a status
  -- 100 to 999 and a body that prints as it parses, the same request again gets that response, marked as
  -- replayed; its handler does not run and the table stays as it is.
  pub retry_replays :
      (now now' : ℕ) (req req' : Request) (m : ℕ) (k : Bytes) (response : Response) (j : Json)
      (table : List (KeyRow Json))
      → IsKeyed gate req m k
      → IsKeyed gate req' m k
      → find_key m k table ≡ none
      → is_recorded gate response ≡ true
      → (100 ≤ response.status) × (response.status ≤ 999)
      → (gate.parse response.body ≡ some j) × (gate.print j ≡ response.body)
      → (req'.method ≡ req.method) × (req'.path ≡ req.path) × (req'.body ≡ req.body)
      → admit gate true now' req' (when_done gate now req m k response table) ≡ (
        answer (ok (record response { replayed = true })),
        when_done gate now req m k response table,
      )
  unfolding hash_of replayed_response
  retry_replays now now' req req' m k response j table h h' n r s p q =
      second_request_finds_response now now' req req' m k response table h h' n r
      ∙ ground (arith, eq_bytes_refl (hash_of gate req), p, q, s)

  -- When the first request under a key, which found the key free, had a response that is kept, a request under
  -- the key with another method, path or body gets the conflict of a reused key, and the table stays as it is.
  -- The paths have no NUL byte, and SHA-256 tells the two requests' texts apart.
  pub key_reuse_conflicts :
      (now now' : ℕ) (req req' : Request) (m : ℕ) (k : Bytes) (response : Response)
      (table : List (KeyRow Json))
      → IsKeyed gate req m k
      → IsKeyed gate req' m k
      → find_key m k table ≡ none
      → is_recorded gate response ≡ true
      → (lacks 0 req.path ≡ true) × (lacks 0 req'.path ≡ true)
      → (let text = λ (x : Request). preimage (endpoint_of x.method x.path) x.body in
          gate.sha256_hex (text req) ≡ gate.sha256_hex (text req') → text req ≡ text req')
      → ¬ ((req.method ≡ req'.method) × (req.path ≡ req'.path) × (req.body ≡ req'.body))
      → admit gate true now' req' (when_done gate now req m k response table) ≡ (
        answer (err (conflicting "idempotency_key_reused")),
        when_done gate now req m k response table,
      )
  unfolding hash_of fingerprint
  key_reuse_conflicts now now' req req' m k response table h h' n r l c d =
      second_request_finds_response now now' req req' m k response table h h' n r
      ∙ elim (Bool-cases (eq_bytes (hash_of gate req) (hash_of gate req'))) [
        | inl e ↦ absurd (
            d (
              preimage_injective req.method req'.method req.path req'.path req.body req'.body l.0
                l.1 (c (eq_bytes_sound (hash_of gate req) (hash_of gate req') e))))
        | inr e ↦ rw e refl
      ]
