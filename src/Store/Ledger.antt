-- ===== src/Store/Ledger.antt =====
-- Ledger persistence (crates/store/src/ledger.rs), with the constraint trigger that runs at COMMIT
-- (migrations/20260726095459_ledger_constraints.up.sql).
pub mod Trigger
pub mod Reports
use payment_gateway_sandbox.Prelude.{
  ℕ, String, Bool, true, false, not, Option, none, some, List, [], ◌∷◌, ◌++◌, ◌&&◌, ltb, ◌==◌, ◌=?◌,
  if◌then◌else◌,
}
use payment_gateway_sandbox.Prelude.Lists.{length}
use payment_gateway_sandbox.Prelude.Int.{ℤ, pos, ◌+ℤ◌, eqb_ℤ}
use payment_gateway_sandbox.Prelude.Result.{Result, ok, err}
use payment_gateway_sandbox.Domain.Money.{Currency, Currency_enum, inr, usd, eur, jpy, kwd}
use payment_gateway_sandbox.Domain.Ledger.Account.{
  AccountType, AccountType_enum, LedgerAccount, LedgerError, from_parts, for_merchant,
}
use payment_gateway_sandbox.Domain.Ledger.Entry.{LedgerEntry, entry_minor}
use payment_gateway_sandbox.Domain.Ledger.Transaction.{BalancedTransaction}
use payment_gateway_sandbox.Domain.Ledger.Sums.{total}
use payment_gateway_sandbox.Store.Error.{
  row_not_found, decode, check_violation, ledger_integrity, EngineError, store_error,
}
use payment_gateway_sandbox.Store.Db.{
  Db, Env, Tx, ◌>>=◌, ◌>>◌, pure, throw, gets, modify, throw_if, new_id, Posting,
}

-- `merchant_id IS NULL`, or `merchant_id = $1`
abbrev pub same_owner : Option ℕ → Option ℕ → Bool
same_owner none none = true
same_owner (some a) (some b) = a == b
same_owner _ _ = false

abbrev pub is_account : Option ℕ → AccountType → Currency → LedgerAccount → Bool
is_account merchant t c a =
    same_owner merchant a.merchant_id && (a.account_type =? t && a.currency =? c)

unfoldable pub lookup_account :
    Option ℕ → AccountType → Currency → List LedgerAccount → Option LedgerAccount
lookup_account merchant t c [] = none
lookup_account merchant t c (a ∷ as') =
    if is_account merchant t c a then some a else lookup_account merchant t c as'

-- `AccountRow::into_domain`
abbrev pub into_domain : LedgerAccount → Result LedgerAccount LedgerError
into_domain a = from_parts a.id a.merchant_id a.account_type a.currency

abbrev pub decoded : Result LedgerAccount LedgerError → Tx LedgerAccount
decoded (ok a) = pure a
decoded (err _) = throw (store_error (decode "ledger_account"))

abbrev pub found_account : String → Option LedgerAccount → Tx LedgerAccount
found_account what none = throw (store_error (row_not_found what))
found_account what (some a) = decoded (into_domain a)

unfoldable pub find_platform_account : AccountType → Currency → Tx LedgerAccount
find_platform_account t c = do
  found_account "platform ledger account" (← gets (λ db. lookup_account none t c db.accounts))

unfoldable pub find_merchant_account : ℕ → AccountType → Currency → Tx LedgerAccount
find_merchant_account merchant t c = do
  found_account "merchant ledger account"
      (← gets (λ db. lookup_account (some merchant) t c db.accounts))

-- `INSERT … ON CONFLICT DO NOTHING` on the unique index, and whether a row was inserted.
abbrev pub insert_account_or_nothing : ℕ → LedgerAccount → Tx Bool
insert_account_or_nothing merchant a db =
    elim (lookup_account (some merchant) a.account_type a.currency db.accounts) [
      | none ↦ (ok true, record db { accounts = db.accounts ++ a ∷ [] })
      | some _ ↦ (ok false, db)
    ]

-- The slow path of `find_or_create_merchant_account`.
unfoldable pub create_merchant_account : Env → ℕ → AccountType → Currency → Tx LedgerAccount
unfolding find_merchant_account new_id
create_merchant_account env merchant t c = do
  id ← new_id env
  account ← decoded (for_merchant id merchant t c)
  inserted ← insert_account_or_nothing merchant account
  if inserted then pure account else find_merchant_account merchant t c

-- `if let Ok(acct) = …` goes on to create after any error.
abbrev pub or_create :
    Env
    → ℕ
    → AccountType
    → Currency
    → Db
    → Result LedgerAccount EngineError
    → Result LedgerAccount EngineError × Db
or_create env merchant t c db (ok a) = (ok a, db)
or_create env merchant t c db (err _) = create_merchant_account env merchant t c db

unfoldable pub find_or_create_merchant_account : Env → ℕ → AccountType → Currency → Tx LedgerAccount
unfolding find_merchant_account
find_or_create_merchant_account env merchant t c db =
    or_create env merchant t c db (find_merchant_account merchant t c db).0

-- the CHECK `ledger_entry_nonzero` on the inserted entries
unfoldable pub has_zero : List LedgerEntry → Bool
has_zero [] = false
has_zero (e ∷ es) = if eqb_ℤ (entry_minor e) (pos 0) then true else has_zero es

-- `post`
unfoldable pub post : Env → BalancedTransaction → String → ℕ → Tx (Unit {0})
post env txn reference_type reference_id = do
  id ← new_id env
  throw_if (has_zero txn.entries) (store_error (check_violation "ledger_entry_nonzero"))
  modify (λ db. record db {
    postings =
        db.postings
        ++ record {
          id = id;
          transaction = txn;
          reference_type = reference_type;
          reference_id = reference_id;
          created_at = env.now;
        }
          ∷ [];
  })

-- What the entries of a transaction add to an account's balance.
unfoldable pub entries_balance : ℕ → List LedgerEntry → ℤ
entries_balance account [] = pos 0
entries_balance account (e ∷ es) =
    (if e.account_id == account then entry_minor e else pos 0) +ℤ entries_balance account es

-- `balance`: the sum over the account's entries
unfoldable pub balance : ℕ → List Posting → ℤ
unfolding entries_balance
balance account [] = pos 0
balance account (p ∷ ps) = entries_balance account p.transaction.entries +ℤ balance account ps

-- `ledger_transaction_must_balance` for one transaction
unfoldable pub must_balance : List LedgerEntry → Bool
must_balance es =
    not (ltb (length es) 2)
    && (eqb_ℤ (total inr es) (pos 0)
        && (eqb_ℤ (total usd es) (pos 0)
            && (eqb_ℤ (total eur es) (pos 0)
                && (eqb_ℤ (total jpy es) (pos 0) && eqb_ℤ (total kwd es) (pos 0)))))

unfoldable pub all_balance : List Posting → Bool
unfolding must_balance
all_balance [] = true
all_balance (p ∷ ps) = if must_balance p.transaction.entries then all_balance ps else false

-- How a transaction ends that began in `before`: the deferred trigger runs at COMMIT, and an error
-- anywhere rolls back.
abbrev pub commit_or_roll_back :
    {A : Type 0} → Db → Result A EngineError → Db → Result A EngineError × Db
commit_or_roll_back before (ok a) after =
    if all_balance after.postings
    then (ok a, after)
    else (err (store_error ledger_integrity), before)
commit_or_roll_back before (err e) after = (err e, before)

-- One database transaction, from `pool.begin` to the end of its scope.
unfoldable pub transaction : {A : Type 0} → Tx A → Tx A
transaction body db = commit_or_roll_back db (body db).0 (body db).1
