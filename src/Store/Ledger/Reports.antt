-- ===== src/Store/Ledger/Reports.antt =====
-- What the ledger reports (`balances_for_merchant` and `entries_for_transaction` in crates/store/src/ledger.rs).
-- A merchant has one account of each type and currency at most, by the unique index, so that a group of accounts
-- is an account.
use payment_gateway_sandbox.Prelude.{
  ℕ, ◌≡◌, refl, arith, Bool, false, ◌&&◌, Option, none, some, List, [], ◌∷◌, ◌++◌, ◌==◌, ◌=?◌,
  if◌then◌else◌,
}
use payment_gateway_sandbox.Prelude.Int.{ℤ, pos, leb_ℤ, eqb_ℤ, to_i64}
use payment_gateway_sandbox.Prelude.Result.{Result, ok, err, ◌>>=◌, map_err}
use payment_gateway_sandbox.Domain.Money.{Currency, Currency_enum, Money, money, is_zero}
use payment_gateway_sandbox.Domain.Ledger.Account.{AccountType, LedgerAccount}
use payment_gateway_sandbox.Domain.Ledger.Entry.{LedgerEntry, entry_minor, from_signed}
use payment_gateway_sandbox.Store.Error.{StoreError, database, decode}
use payment_gateway_sandbox.Store.Db.{Posting}
use payment_gateway_sandbox.Store.Rows.{order_by, insert_ordered}
use payment_gateway_sandbox.Store.Ledger.{same_owner, balance, has_zero}

pub record AccountBalance : Type 0 where
  pub account_type : AccountType
  pub balance : Money

abbrev of_account : Currency → LedgerAccount → Option ℤ → Result AccountBalance StoreError
of_account c a none = err database
of_account c a (some b) = ok (record { account_type = a.account_type; balance = money b c })

-- `balances_for_merchant`; the cast to bigint fails on a sum that does not fit.
unfoldable pub balances_for_merchant :
    ℕ → Currency → List LedgerAccount → List Posting → Result (List AccountBalance) StoreError
unfolding balance
balances_for_merchant merchant c [] postings = ok []
balances_for_merchant merchant c (a ∷ as') postings =
    let rest = balances_for_merchant merchant c as' postings in
    if same_owner (some merchant) a.merchant_id && (a.currency =? c)
    then (do
      first ← of_account c a (to_i64 (balance a.id postings))
      others ← rest
      ok (first ∷ others))
    else rest

unfoldable pub entries_of : ℕ → List Posting → List LedgerEntry
entries_of id [] = []
entries_of id (p ∷ ps) =
    if p.id == id then p.transaction.entries ++ entries_of id ps else entries_of id ps

-- `from_signed` on each row
abbrev pub collect_entries : List LedgerEntry → Result (List LedgerEntry) StoreError
collect_entries [] = ok []
collect_entries (e ∷ es) = do
  first ← map_err (λ _. decode "ledger_entry") (from_signed e.account_id e.amount)
  others ← collect_entries es
  ok (first ∷ others)

abbrev pub largest_first : LedgerEntry → LedgerEntry → Bool
largest_first a b = leb_ℤ (entry_minor b) (entry_minor a)

-- `entries_for_transaction`
unfoldable pub entries_for_transaction : ℕ → List Posting → Result (List LedgerEntry) StoreError
unfolding entries_of from_signed order_by
entries_for_transaction id postings =
    collect_entries (order_by largest_first (entries_of id postings))

has_zero-insert_ordered :
    (e : LedgerEntry) (es : List LedgerEntry)
    → eqb_ℤ (entry_minor e) (pos 0) ≡ false
    → has_zero es ≡ false
    → has_zero (insert_ordered largest_first e es) ≡ false
unfolding has_zero insert_ordered
has_zero-insert_ordered e [] n h = rw n refl
has_zero-insert_ordered e (x ∷ xs) n h = ground (arith, n, h, has_zero-insert_ordered e xs n)

has_zero-order_by :
    (es : List LedgerEntry) → has_zero es ≡ false → has_zero (order_by largest_first es) ≡ false
unfolding has_zero order_by
has_zero-order_by [] h = refl
has_zero-order_by (e ∷ es) h =
    has_zero-insert_ordered e (order_by largest_first es) (ground (arith, h))
      (has_zero-order_by es (ground (arith, h)))

has_zero-head :
    (e : LedgerEntry) (es : List LedgerEntry) → has_zero (e ∷ es) ≡ false → is_zero e.amount ≡ false
unfolding has_zero is_zero
has_zero-head e es h = ground (arith, h)

collect_entries-nonzero : (es : List LedgerEntry) → has_zero es ≡ false → collect_entries es ≡ ok es
unfolding has_zero from_signed
collect_entries-nonzero [] h = refl
collect_entries-nonzero (e ∷ es) h =
    rw (has_zero-head e es h) (rw (collect_entries-nonzero es (ground (arith, h))) refl)

-- The entries of a transaction without zeros, which is what `post` stores, are all read, the largest first.
pub entries_for_transaction_lem :
    (id : ℕ) (postings : List Posting)
    → has_zero (entries_of id postings) ≡ false
    → entries_for_transaction id postings ≡ ok (order_by largest_first (entries_of id postings))
unfolding entries_for_transaction
entries_for_transaction_lem id postings h =
    collect_entries-nonzero (order_by largest_first (entries_of id postings))
      (has_zero-order_by (entries_of id postings) h)
