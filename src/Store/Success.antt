-- ===== src/Store/Success.antt =====
-- What a statement on the tables leaves where it succeeds, and which statements leave the payments as they are.
use mathlib.Core.List.{List, Memᴰ}
use mathlib.Core.Path.{subst}
use payment_gateway_sandbox.Domain.Payment.{Payment}
use payment_gateway_sandbox.Store.Ledger.{transaction, commit_or_roll_back, all_balance}
use payment_gateway_sandbox.Prelude.{
  inl, inr, Bool-cases, ◌≡◌, refl, Bool, true, false, if◌then◌else◌,
}
use payment_gateway_sandbox.Prelude.Result.{Result, ok, err}
use payment_gateway_sandbox.Store.Error.{EngineError}
use payment_gateway_sandbox.Store.Db.{Db, Tx, ◌>>=◌, followed_by, throw_if, lift, pure, gets}

abbrev pub OnSuccess : {A : Type 0} → (A → Db → Type 0) → Result A EngineError × Db → Type 0
OnSuccess q (err e, db) = Unit {0}
OnSuccess q (ok a, db) = q a db

OnSuccess-followed_by :
    {A B : Type 0} (p : A → Db → Type 0) (q : B → Db → Type 0) (k : A → Tx B)
    (r : Result A EngineError) (after : Db)
    → OnSuccess p (r, after)
    → ((a : A) (db : Db) → p a db → OnSuccess q (k a db))
    → OnSuccess q (followed_by k r after)
OnSuccess-followed_by p q k (err e) after h next = tt
OnSuccess-followed_by p q k (ok a) after h next = next a after h

pub OnSuccess-bind :
    {A B : Type 0} (p : A → Db → Type 0) (q : B → Db → Type 0) (m : Tx A) (k : A → Tx B) (db : Db)
    → OnSuccess p (m db)
    → ((a : A) (after : Db) → p a after → OnSuccess q (k a after))
    → OnSuccess q ((m >>= k) db)
OnSuccess-bind p q m k db h next = OnSuccess-followed_by p q k (m db).0 (m db).1 h next

-- A statement that leaves the payments as they are, where it succeeds.
pub record KeepsPayments {A : Type 0} (m : Tx A) : Type 0 where
  pub keeps : (db : Db) → OnSuccess (λ _ after. after.payments ≡ db.payments) (m db)

pub bind-KeepsPayments :
    {A B : Type 0} {m : Tx A} {k : A → Tx B}
    → KeepsPayments m
    → ((a : A) → KeepsPayments (k a))
    → KeepsPayments (m >>= k)
bind-KeepsPayments {m} {k} first next = record {
  keeps = λ db.
      OnSuccess-bind (λ _ after. after.payments ≡ db.payments)
        (λ _ after. after.payments ≡ db.payments) m k db (first.keeps db)
        (λ a after same. rw (← same) ((next a).keeps after));
}

pub pure-KeepsPayments : {A : Type 0} (a : A) → KeepsPayments (pure a)
pure-KeepsPayments a = record { keeps = λ db. refl }

pub gets-KeepsPayments : {A : Type 0} (f : Db → A) → KeepsPayments (gets f)
gets-KeepsPayments f = record { keeps = λ db. refl }

pub lift-KeepsPayments :
    {A E : Type 0} (f : E → EngineError) (r : Result A E) → KeepsPayments (lift f r)
lift-KeepsPayments f (ok a) = record { keeps = λ db. refl }
lift-KeepsPayments f (err e) = record { keeps = λ db. tt }

pub throw_if-KeepsPayments : (b : Bool) (e : EngineError) → KeepsPayments (throw_if b e)
throw_if-KeepsPayments true e = record { keeps = λ db. tt }
throw_if-KeepsPayments false e = record { keeps = λ db. refl }

pub if-KeepsPayments :
    {A : Type 0} (b : Bool) {m n : Tx A}
    → KeepsPayments m
    → KeepsPayments n
    → KeepsPayments (if b then m else n)
if-KeepsPayments true h k = h
if-KeepsPayments false h k = k

-- What a statement makes true of the tables where it succeeds, given what was true of them.
pub record Ensures {A : Type 0} (m : Tx A) (p : Db → Type 0) (q : A → Db → Type 0) : Type 0 where
  pub ensures : (db : Db) → p db → OnSuccess q (m db)

pub bind-Ensures :
    {A B : Type 0} {m : Tx A} {k : A → Tx B} {p : Db → Type 0} {q : B → Db → Type 0}
    (r : A → Db → Type 0)
    → Ensures m p r
    → ((a : A) → Ensures (k a) (r a) q)
    → Ensures (m >>= k) p q
bind-Ensures {m} {k} {q} r first next = record {
  ensures = λ db h.
      OnSuccess-bind r q m k db (first.ensures db h) (λ a after g. (next a).ensures after g);
}

-- A first statement of which nothing need be known.
pub skip-Ensures :
    {A B : Type 0} (m : Tx A) {k : A → Tx B} {q : B → Db → Type 0}
    → ((a : A) → Ensures (k a) (λ _. Unit {0}) q)
    → Ensures (m >>= k) (λ _. Unit {0}) q
skip-Ensures {A} m next =
    bind-Ensures (λ _ _. Unit {0}) (record { ensures = λ db _. anything (m db) }) next
  where
    anything : (out : Result A EngineError × Db) → OnSuccess (λ _ _. Unit {0}) out
    anything (ok a, after) = tt
    anything (err e, after) = tt

abbrev pub HasPayment : Payment → Db → Type 0
HasPayment p db = Memᴰ p db.payments

kept :
    {A : Type 0} (holds : List Payment → Type 0) (db : Db) (out : Result A EngineError × Db)
    → OnSuccess (λ _ after. after.payments ≡ db.payments) out
    → holds db.payments
    → OnSuccess (λ _ after. holds after.payments) out
kept holds db (ok a, after) same h = rw same h
kept holds db (err e, after) same h = tt

-- What holds of the payments holds after a statement that leaves them as they are.
pub KeepsPayments-Ensures :
    {A : Type 0} (holds : List Payment → Type 0) {m : Tx A}
    → KeepsPayments m
    → Ensures m (λ db. holds db.payments) (λ _ db. holds db.payments)
KeepsPayments-Ensures holds {m} keep = record {
  ensures = λ db h. kept holds db (m db) (keep.keeps db) h;
}

-- A first statement that leaves the payments as they are.
pub kept-Ensures :
    {A B : Type 0} {m : Tx A} {k : A → Tx B} {p : Payment} {q : B → Db → Type 0}
    → KeepsPayments m
    → ((a : A) → Ensures (k a) (HasPayment p) q)
    → Ensures (m >>= k) (HasPayment p) q
kept-Ensures {p} keep next =
    bind-Ensures (λ _. HasPayment p) (KeepsPayments-Ensures (λ ps. Memᴰ p ps) keep) next

pub pure-Ensures :
    {A : Type 0} {a : A} {p : Db → Type 0} {q : A → Db → Type 0}
    → ((db : Db) → p db → q a db)
    → Ensures (pure a) p q
pure-Ensures h = record { ensures = h }

pub OnSuccess-ok :
    {A : Type 0} (q : A → Db → Type 0) (out : Result A EngineError × Db) (a : A) (after : Db)
    → OnSuccess q out
    → out ≡ (ok a, after)
    → q a after
OnSuccess-ok q out a after h e = subst (λ (x : Result _ EngineError × Db). OnSuccess q x) e h

-- A transaction ensures what its body does.
pub OnSuccess-transaction :
    {A : Type 0} (q : A → Db → Type 0) (body : Tx A) (db : Db)
    → OnSuccess q (body db)
    → OnSuccess q (transaction body db)
unfolding transaction
OnSuccess-transaction {A} q body db h = committed (body db).0 (body db).1 h
  where
    committed :
        (r : Result A EngineError) (after : Db)
        → OnSuccess q (r, after)
        → OnSuccess q (commit_or_roll_back db r after)
    committed (err e) after h = tt
    committed (ok a) after h = elim (Bool-cases (all_balance after.postings)) [
      | inl good ↦ rw good h
      | inr bad ↦ rw bad tt
    ]

-- What a statement is known to make true says more.
pub map-Ensures :
    {A : Type 0} {m : Tx A} {p : Db → Type 0} (q : A → Db → Type 0) {q' : A → Db → Type 0}
    → Ensures m p q
    → ((a : A) (db : Db) → q a db → q' a db)
    → Ensures m p q'
map-Ensures {A} {m} q {q'} first more = record {
  ensures = λ db h. mapped (m db) (first.ensures db h);
}
  where
    mapped : (out : Result A EngineError × Db) → OnSuccess q out → OnSuccess q' out
    mapped (ok a, after) h = more a after h
    mapped (err e, after) h = tt

-- What is known of more than the tables is a hypothesis.
pub given-Ensures :
    {A : Type 0} {m : Tx A} {known : Type 0} {q : A → Db → Type 0}
    → (known → Ensures m (λ _. Unit {0}) q)
    → Ensures m (λ _. known) q
given-Ensures next = record { ensures = λ db h. (next h).ensures db tt }
