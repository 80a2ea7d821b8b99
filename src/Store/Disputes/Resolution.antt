-- ===== src/Store/Disputes/Resolution.antt =====
-- What is found of a dispute after it has been inserted and resolved.
use payment_gateway_sandbox.Prelude.{
  ℕ, ◌≡◌, refl, arith, inl, inr, Bool, true, Bool-cases, Option-cases, Option, none, some, List, [],
  ◌∷◌, ◌++◌,
}
use payment_gateway_sandbox.Prelude.Result.{ok}
use payment_gateway_sandbox.Store.Rows.{
  find_row, update_rows, all_rows, find_row-append_new, find_row-update_rows,
}
use payment_gateway_sandbox.Store.Payments.Row.{money_from_columns-money_to_columns}
use payment_gateway_sandbox.Store.Disputes.{
  DisputeStatus, Dispute, DisputeRow, is_consistent, row_id, dispute_checks, into_dispute,
  row_of_dispute, insert_dispute, find_dispute, coalesce, resolved, update_dispute,
}

module _ {Json : Type 0} where
  into_dispute-row_of_dispute : (d : Dispute Json) → into_dispute (row_of_dispute d) ≡ ok d
  unfolding into_dispute row_of_dispute
  into_dispute-row_of_dispute d = rw (money_from_columns-money_to_columns d.amount) refl

  -- What is known where `insert` has got through.
  record Inserted (d : Dispute Json) (table : List (DisputeRow Json)) : Type 0 where
    fine : dispute_checks (row_of_dispute d) ≡ true
    is_new : find_row row_id d.id table ≡ none
    written : (insert_dispute d table).1 ≡ table ++ row_of_dispute d ∷ []

  insert_dispute-Inserted :
      (d : Dispute Json) (table : List (DisputeRow Json))
      → (insert_dispute d table).0 ≡ ok tt
      → Inserted d table
  unfolding insert_dispute
  insert_dispute-Inserted d table h = elim (Bool-cases (dispute_checks (row_of_dispute d))) [
    | inl c ↦ elim (Option-cases (find_row row_id d.id table)) [
      | inl n ↦ record { fine = c; is_new = n; written = rw c (rw n refl) }
      | inr (r, f) ↦ absurd (ground (arith, c, f, h))
    ]
    | inr c ↦ absurd (ground (arith, c, h))
  ]

  all_rows-new :
      (p : DisputeRow Json → Bool) (r : DisputeRow Json) (table : List (DisputeRow Json))
      → find_row row_id r.id table ≡ none
      → p r ≡ true
      → all_rows row_id r.id p (table ++ r ∷ []) ≡ true
  unfolding find_row all_rows
  all_rows-new p r [] n h = ground arith
  all_rows-new p r (x ∷ xs) n h = ground (arith, all_rows-new p r xs)

  abbrev pub as_resolved : DisputeStatus → Option Json → Option ℕ → Dispute Json → Dispute Json
  as_resolved status evidence at d = record d {
    status = status;
    evidence = coalesce evidence d.evidence;
    resolved_at = at;
  }

  resolved-checks :
      (d : Dispute Json) (status : DisputeStatus) (evidence : Option Json) (at : Option ℕ)
      → dispute_checks (row_of_dispute d) ≡ true
      → is_consistent status at ≡ true
      → dispute_checks (resolved status evidence at (row_of_dispute d)) ≡ true
  unfolding dispute_checks row_of_dispute
  resolved-checks d status evidence at h c = ground (arith, c, h)

  update_dispute-new :
      (d : Dispute Json) (status : DisputeStatus) (evidence : Option Json) (at : Option ℕ)
      (table : List (DisputeRow Json))
      → Inserted d table
      → is_consistent status at ≡ true
      → update_dispute d.id status evidence at (table ++ row_of_dispute d ∷ []) ≡ (
        ok tt,
        update_rows row_id d.id (resolved status evidence at) (table ++ row_of_dispute d ∷ []),
      )
  unfolding update_dispute row_of_dispute
  update_dispute-new d status evidence at table i c =
      rw
        (all_rows-new (λ r. dispute_checks (resolved status evidence at r)) (row_of_dispute d) table
          i.is_new (resolved-checks d status evidence at i.fine c))
        refl

  find_row-resolved :
      (d : Dispute Json) (status : DisputeStatus) (evidence : Option Json) (at : Option ℕ)
      (table : List (DisputeRow Json))
      → Inserted d table
      → find_row row_id d.id
          (update_rows row_id d.id (resolved status evidence at) (table ++ row_of_dispute d ∷ []))
        ≡ some (resolved status evidence at (row_of_dispute d))
  unfolding row_of_dispute
  find_row-resolved d status evidence at table i =
      find_row-update_rows row_id d.id (resolved status evidence at)
        (table ++ row_of_dispute d ∷ []) (row_of_dispute d) refl
        (find_row-append_new row_id d.id table (row_of_dispute d) i.is_new refl)

  -- A dispute that `insert` has taken can be given any status with a time of resolution exactly where it is won
  -- or lost, and is then found with them, with its own evidence where none was given, and otherwise unchanged.
  pub inserted_dispute_resolves :
      (d : Dispute Json) (table : List (DisputeRow Json)) (status : DisputeStatus)
      (evidence : Option Json) (at : Option ℕ)
      → (insert_dispute d table).0 ≡ ok tt
      → is_consistent status at ≡ true
      → let after = update_dispute d.id status evidence at (insert_dispute d table).1 in
        (after.0 ≡ ok tt) × (find_dispute d.id after.1 ≡ ok (as_resolved status evidence at d))
  unfolding find_dispute row_of_dispute
  inserted_dispute_resolves d table status evidence at h c =
      let i = insert_dispute-Inserted d table h in
      rw (i.written) (
        rw (update_dispute-new d status evidence at table i c) (
          refl,
          rw (find_row-resolved d status evidence at table i)
              (into_dispute-row_of_dispute (as_resolved status evidence at d)),
        ))
