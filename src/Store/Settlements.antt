-- ===== src/Store/Settlements.antt =====
-- Settlement persistence (crates/store/src/settlement.rs), with the CHECK of migrations/20260726102341_settlements.up.sql on
-- the period. The table is a list of rows.
use payment_gateway_sandbox.Prelude.{
  ℕ, ◌≡◌, refl, arith, inl, inr, String, Bool-cases, Option-cases, not, Option, none, some, List,
  [], ◌∷◌, ◌++◌, ltb, ◌==◌, if◌then◌else◌,
}
use payment_gateway_sandbox.Prelude.Int.{ℤ}
use payment_gateway_sandbox.Prelude.Result.{Result, ok, err, ◌>>=◌, map_err}
use payment_gateway_sandbox.Domain.Money.{Currency, code, currency_from_str}
use payment_gateway_sandbox.Domain.Money.Laws.{currency_from_str-code}
use payment_gateway_sandbox.Store.Error.{
  StoreError, row_not_found, conflict, check_violation, decode,
}
use payment_gateway_sandbox.Store.Rows.{
  find_row, update_rows, is_found, find_row-append_new, find_row-update_rows,
}
use payment_gateway_sandbox.Store.Listing.{listing}

pub data SettlementStatus : Type 0 where
  pending processed : SettlementStatus

-- A settlement, with its currency as a value or as the text of its column.
pub record SettlementOf (C : Type 0) : Type 0 where
  pub id : ℕ
  pub merchant_id : ℕ
  pub currency : C
  pub period_start : ℕ
  pub period_end : ℕ
  pub gross_minor : ℤ
  pub fees_minor : ℤ
  pub tax_minor : ℤ
  pub refunds_minor : ℤ
  pub net_minor : ℤ
  pub status : SettlementStatus
  pub created_at : ℕ
  pub processed_at : Option ℕ

abbrev pub Settlement : Type 0
Settlement = SettlementOf Currency

abbrev pub SettlementRow : Type 0
SettlementRow = SettlementOf String

-- The other columns are the fields themselves.
abbrev pub with_currency : {C D : Type 0} → D → SettlementOf C → SettlementOf D
with_currency c s = record {
  id = s.id;
  merchant_id = s.merchant_id;
  currency = c;
  period_start = s.period_start;
  period_end = s.period_end;
  gross_minor = s.gross_minor;
  fees_minor = s.fees_minor;
  tax_minor = s.tax_minor;
  refunds_minor = s.refunds_minor;
  net_minor = s.net_minor;
  status = s.status;
  created_at = s.created_at;
  processed_at = s.processed_at;
}

abbrev pub settlement_id : SettlementRow → ℕ
settlement_id s = s.id

abbrev period_end_of : SettlementRow → ℕ
period_end_of s = s.period_end

-- `currency_from_column`
unfoldable pub currency_from_column : String → Result Currency StoreError
unfolding currency_from_str
currency_from_column c = map_err (λ _. decode "currency") (currency_from_str c)

-- `SettlementRow::into_domain`
unfoldable pub into_settlement : SettlementRow → Result Settlement StoreError
unfolding currency_from_column
into_settlement r = do currency ← currency_from_column r.currency; ok (with_currency currency r)

-- The values that `insert` binds.
unfoldable pub row_of_settlement : Settlement → SettlementRow
row_of_settlement s = with_currency (code s.currency) s

-- `insert`, with the CHECK `settlement_period_valid` and the primary key
unfoldable pub insert_settlement :
    Settlement → List SettlementRow → Result (Unit {0}) StoreError × List SettlementRow
unfolding row_of_settlement find_row
insert_settlement s table =
    if not (ltb s.period_start s.period_end)
    then (err (check_violation "settlement_period_valid"), table)
    else if is_found settlement_id (find_row settlement_id s.id table)
    then (err (conflict "settlements_pkey"), table)
    else (ok tt, table ++ row_of_settlement s ∷ [])

abbrev read_settlement : Option SettlementRow → Result Settlement StoreError
read_settlement none = err (row_not_found "settlement")
read_settlement (some r) = into_settlement r

-- `find_by_id`
unfoldable pub find_settlement : ℕ → List SettlementRow → Result Settlement StoreError
unfolding into_settlement find_row
find_settlement id table = read_settlement (find_row settlement_id id table)

abbrev pub as_processed : {C : Type 0} → ℕ → SettlementOf C → SettlementOf C
as_processed at s = record s { status = processed; processed_at = some at }

-- `mark_processed`
unfoldable pub mark_processed : ℕ → ℕ → List SettlementRow → List SettlementRow
unfolding update_rows
mark_processed id at table = update_rows settlement_id id (as_processed at) table

unfoldable pub settlements_of : ℕ → List SettlementRow → List SettlementRow
settlements_of merchant [] = []
settlements_of merchant (r ∷ rs) =
    if r.merchant_id == merchant then r ∷ settlements_of merchant rs else settlements_of merchant rs

abbrev pub collect_settlements : List SettlementRow → Result (List Settlement) StoreError
collect_settlements [] = ok []
collect_settlements (r ∷ rs) = do
  s ← into_settlement r
  rest ← collect_settlements rs
  ok (s ∷ rest)

-- `list_for_merchant`, the latest end of a period first
unfoldable pub list_settlements : ℕ → ℤ → List SettlementRow → Result (List Settlement) StoreError
unfolding settlements_of listing into_settlement
list_settlements merchant limit table =
    collect_settlements (listing period_end_of none limit (settlements_of merchant table))

inserted_row :
    (s : Settlement) (table : List SettlementRow)
    → (insert_settlement s table).0 ≡ ok tt
    → (find_row settlement_id s.id table ≡ none)
      × ((insert_settlement s table).1 ≡ table ++ row_of_settlement s ∷ [])
unfolding insert_settlement
inserted_row s table h = elim (Bool-cases (ltb s.period_start s.period_end)) [
  | inl p ↦ elim (Option-cases (find_row settlement_id s.id table)) [
    | inl n ↦ (n, rw p (rw n refl))
    | inr (r, f) ↦ absurd (ground (arith, p, f, h))
  ]
  | inr p ↦ absurd (ground (arith, p, h))
]

into_settlement-row : (s : Settlement) → into_settlement (row_of_settlement s) ≡ ok s
unfolding into_settlement row_of_settlement currency_from_column
into_settlement-row s = rw (currency_from_str-code s.currency) refl

-- A settlement that `insert` has taken is found as it was written, and after `mark_processed` as processed at
-- that time, with its amounts as they were.
pub inserted_settlement_is_processed :
    (s : Settlement) (at : ℕ) (table : List SettlementRow)
    → (insert_settlement s table).0 ≡ ok tt
    → let after = (insert_settlement s table).1 in
      (find_settlement s.id after ≡ ok s)
      × (find_settlement s.id (mark_processed s.id at after) ≡ ok (as_processed at s))
unfolding find_settlement mark_processed row_of_settlement
inserted_settlement_is_processed s at table h =
    let i = inserted_row s table h in
    let found = find_row-append_new settlement_id s.id table (row_of_settlement s) i.0 refl in
    rw (i.1) (
      rw found (into_settlement-row s),
      rw
          (find_row-update_rows settlement_id s.id (as_processed at)
            (table ++ row_of_settlement s ∷ []) (row_of_settlement s) refl found)
          (into_settlement-row (as_processed at s)),
    )
