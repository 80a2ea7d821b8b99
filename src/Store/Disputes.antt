-- ===== src/Store/Disputes.antt =====
-- Dispute persistence (crates/store/src/dispute.rs), with the constraints of the table
-- (migrations/20260726095325_disputes.up.sql). The table is a list of rows; evidence is JSON of any kind.
pub mod Resolution
use payment_gateway_sandbox.Prelude.{
  ℕ, ◌+◌, ◌≡◌, ◌≢◌, refl, ap, ◌∙◌, arith, inl, inr, String, Bool, true, false, Bool-cases,
  Option-cases, not, ◌&&◌, Option, none, some, List, [], ◌∷◌, ◌++◌, leb, ◌==◌, if◌then◌else◌,
}
use payment_gateway_sandbox.Prelude.Int.{ℤ, pos, ltb_ℤ}
use payment_gateway_sandbox.Prelude.Result.{Result, ok, err, ◌>>=◌}
use payment_gateway_sandbox.Domain.Money.{Money}
use payment_gateway_sandbox.Store.Error.{StoreError, row_not_found, conflict, check_violation}
use payment_gateway_sandbox.Store.Rows.{
  find_row, update_rows, all_rows, is_found, find_row-append_new, find_row-update_rows,
}
use payment_gateway_sandbox.Store.Listing.{listing}
use payment_gateway_sandbox.Store.Payments.Row.{
  money_to_columns, money_from_columns, money_from_columns-money_to_columns,
}

pub data DisputeReason : Type 0 where
  fraudulent duplicate product_not_received product_unacceptable : DisputeReason
  subscription_cancelled unrecognized credit_not_processed general : DisputeReason

pub data DisputeStatus : Type 0 where
  opened under_review won lost : DisputeStatus

module _ (Json : Type 0) where
  pub record Dispute : Type 0 where
    pub id : ℕ
    pub payment_id : ℕ
    pub merchant_id : ℕ
    pub amount : Money
    pub reason : DisputeReason
    pub status : DisputeStatus
    pub evidence : Json
    pub respond_by : ℕ
    pub created_at : ℕ
    pub resolved_at : Option ℕ

  pub record DisputeRow : Type 0 where
    pub id : ℕ
    pub payment_id : ℕ
    pub merchant_id : ℕ
    pub amount_minor : ℤ
    pub currency : String
    pub reason : DisputeReason
    pub status : DisputeStatus
    pub evidence : Json
    pub respond_by : ℕ
    pub created_at : ℕ
    pub resolved_at : Option ℕ

-- `dispute_resolved_at_consistency`
abbrev pub is_resolved : DisputeStatus → Bool
is_resolved won = true
is_resolved lost = true
is_resolved _ = false

abbrev pub is_consistent : DisputeStatus → Option ℕ → Bool
is_consistent s (some _) = is_resolved s
is_consistent s none = not (is_resolved s)

module _ {Json : Type 0} where
  abbrev pub row_id : DisputeRow Json → ℕ
  row_id r = r.id

  abbrev row_time : DisputeRow Json → ℕ
  row_time r = r.created_at

  -- The CHECKs on the amount and on the time of the resolution.
  unfoldable pub dispute_checks : DisputeRow Json → Bool
  dispute_checks r = ltb_ℤ (pos 0) r.amount_minor && is_consistent r.status r.resolved_at

  -- `DisputeRow::into_domain`
  unfoldable pub into_dispute : DisputeRow Json → Result (Dispute Json) StoreError
  unfolding money_from_columns
  into_dispute r = do
    amount ← money_from_columns r.amount_minor r.currency
    ok (record {
      id = r.id;
      payment_id = r.payment_id;
      merchant_id = r.merchant_id;
      amount = amount;
      reason = r.reason;
      status = r.status;
      evidence = r.evidence;
      respond_by = r.respond_by;
      created_at = r.created_at;
      resolved_at = r.resolved_at;
    })

  -- The values that `insert` binds.
  unfoldable pub row_of_dispute : Dispute Json → DisputeRow Json
  unfolding money_to_columns
  row_of_dispute d = record {
    id = d.id;
    payment_id = d.payment_id;
    merchant_id = d.merchant_id;
    amount_minor = (money_to_columns d.amount).0;
    currency = (money_to_columns d.amount).1;
    reason = d.reason;
    status = d.status;
    evidence = d.evidence;
    respond_by = d.respond_by;
    created_at = d.created_at;
    resolved_at = d.resolved_at;
  }

  -- `insert`, with the CHECKs and the primary key
  unfoldable pub insert_dispute :
      Dispute Json → List (DisputeRow Json) → Result (Unit {0}) StoreError × List (DisputeRow Json)
  unfolding row_of_dispute dispute_checks find_row
  insert_dispute d table =
      if not (dispute_checks (row_of_dispute d))
      then (err (check_violation "disputes"), table)
      else if is_found row_id (find_row row_id d.id table)
      then (err (conflict "disputes_pkey"), table)
      else (ok tt, table ++ row_of_dispute d ∷ [])

  abbrev read_dispute : Option (DisputeRow Json) → Result (Dispute Json) StoreError
  read_dispute none = err (row_not_found "dispute")
  read_dispute (some r) = into_dispute r

  -- `find_by_id` and `find_by_id_for_update`
  unfoldable pub find_dispute : ℕ → List (DisputeRow Json) → Result (Dispute Json) StoreError
  unfolding into_dispute find_row
  find_dispute id table = read_dispute (find_row row_id id table)

  -- `COALESCE($3, evidence)`
  abbrev pub coalesce : Option Json → Json → Json
  coalesce none old = old
  coalesce (some new) old = new

  abbrev pub resolved : DisputeStatus → Option Json → Option ℕ → DisputeRow Json → DisputeRow Json
  resolved status evidence at r = record r {
    status = status;
    evidence = coalesce evidence r.evidence;
    resolved_at = at;
  }

  -- `update_status`, which says nothing of an id that no row has
  unfoldable pub update_dispute :
      ℕ
      → DisputeStatus
      → Option Json
      → Option ℕ
      → List (DisputeRow Json)
      → Result (Unit {0}) StoreError × List (DisputeRow Json)
  unfolding dispute_checks update_rows all_rows
  update_dispute id status evidence at table =
      if all_rows row_id id (λ r. dispute_checks (resolved status evidence at r)) table
      then (ok tt, update_rows row_id id (resolved status evidence at) table)
      else (err (check_violation "disputes"), table)

  -- `collect`, up to the first error
  abbrev pub collect_disputes : List (DisputeRow Json) → Result (List (Dispute Json)) StoreError
  collect_disputes [] = ok []
  collect_disputes (r ∷ rs) = do d ← into_dispute r; ds ← collect_disputes rs; ok (d ∷ ds)

  unfoldable pub disputes_of : ℕ → List (DisputeRow Json) → List (DisputeRow Json)
  disputes_of merchant [] = []
  disputes_of merchant (r ∷ rs) =
      if r.merchant_id == merchant then r ∷ disputes_of merchant rs else disputes_of merchant rs

  -- `list_for_merchant`
  unfoldable pub list_disputes :
      ℕ → ℤ → List (DisputeRow Json) → Result (List (Dispute Json)) StoreError
  unfolding disputes_of listing into_dispute
  list_disputes merchant limit table =
      collect_disputes (listing row_time none limit (disputes_of merchant table))
