-- ===== src/Api/Handler.antt =====
-- What the route handlers (crates/api/routes) have in common: a check that ends the request, an id from its
-- text, and a service whose error is turned into the answer.
use payment_gateway_sandbox.Prelude.{ℕ, ◌≡◌, refl, ap, Option}
use payment_gateway_sandbox.Prelude.Bytes.{Bytes}
use payment_gateway_sandbox.Prelude.Result.{Result, ok, err}
use payment_gateway_sandbox.Domain.Id.{Marker, IdParseError, id_from_str}
use payment_gateway_sandbox.Store.Error.{EngineError}
use payment_gateway_sandbox.Store.Db.{Db, Tx}
use payment_gateway_sandbox.Api.Error.{ApiError, missing, from_engine}

abbrev pub Handler : Type 0 → Type 0
Handler A = Db → Result A ApiError × Db

-- `?` on a result of the edge
abbrev pub checked : {A B : Type 0} → Result A ApiError → (A → Handler B) → Handler B
checked (err e) next db = (err e, db)
checked (ok a) next db = next a db

abbrev pub served :
    {A B : Type 0} → (A → Handler B) → Result A EngineError → Db → Result B ApiError × Db
served next (err e) db = (err (from_engine e), db)
served next (ok a) db = next a db

-- `?` on a service's result
abbrev pub serve : {A B : Type 0} → Tx A → (A → Handler B) → Handler B
serve service next db = served next (service db).0 (service db).1

abbrev pub reply : {A : Type 0} → Result A ApiError → Handler A
reply r db = (r, db)

abbrev not_found_if_unread : {A : Type 0} → Result A IdParseError → Result A ApiError
not_found_if_unread (ok u) = ok u
not_found_if_unread (err _) = err missing

-- `parse().map_err(|_| ApiError::not_found(…))`
unfoldable pub path_id : (Bytes → Option ℕ) → Marker → Bytes → Result ℕ ApiError
path_id parse_uuid marker text = not_found_if_unread (id_from_str parse_uuid marker text)

-- What follows a check that passes.
pub checked-ok :
    {A B : Type 0} (r : Result A ApiError) (a : A) (next : A → Handler B) (db : Db)
    → r ≡ ok a
    → checked r next db ≡ next a db
checked-ok {A} r a next db h = ap (λ (x : Result A ApiError). checked x next db) h

-- A property of the tables that every branch keeps.
pub checked-keeps :
    {A B : Type 0} (P : Db → Type 0) (r : Result A ApiError) (next : A → Handler B) (db : Db)
    → P db
    → ((a : A) → r ≡ ok a → P (next a db).1)
    → P (checked r next db).1
checked-keeps P (err e) next db p k = p
checked-keeps P (ok a) next db p k = k a refl

served-keeps :
    {A B : Type 0} (P : Db → Type 0) (r : Result A EngineError) (next : A → Handler B) (db : Db)
    → P db
    → ((a : A) → r ≡ ok a → P (next a db).1)
    → P (served next r db).1
served-keeps P (err e) next db p k = p
served-keeps P (ok a) next db p k = k a refl

pub serve-keeps :
    {A B : Type 0} (P : Db → Type 0) (service : Tx A) (next : A → Handler B) (db : Db)
    → P (service db).1
    → ((a : A) → (service db).0 ≡ ok a → P (next a (service db).1).1)
    → P (serve service next db).1
serve-keeps P service next db p k = served-keeps P (service db).0 next (service db).1 p k

-- A statement on the answer and the tables that holds of every refusal.
pub checked-ends :
    {A B : Type 0} (Q : Result B ApiError × Db → Type 0) (r : Result A ApiError)
    (next : A → Handler B) (db : Db)
    → ((e : ApiError) (db' : Db) → Q (err e, db'))
    → ((a : A) → r ≡ ok a → Q (next a db))
    → Q (checked r next db)
checked-ends Q (err e) next db n k = n e db
checked-ends Q (ok a) next db n k = k a refl
