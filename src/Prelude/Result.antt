-- ===== src/Prelude/Result.antt =====
-- Rust's `Result`, with `?` as the bind of a `do` block and `map_err` for the `From` conversions.
use mathlib.Core.Path.{◌≡◌, refl}
use mathlib.Core.Logic.{◌⊎◌, inl, inr}
use mathlib.Core.Option.{Option, none, some}
use mathlib.Core.Bool.{Bool, true, false}

pub data Result {ℓ κ} (A : Type ℓ) (E : Type κ) : Type (ℓ ⊔ κ) where
  ok : A → Result A E
  err : E → Result A E

infixl 5 ◌>>=◌ ◌>>◌
abbrev pub ◌>>=◌ {ℓ κ μ} :
    {A : Type ℓ} {B : Type κ} {E : Type μ} → Result A E → (A → Result B E) → Result B E
err x >>= next = err x
ok v >>= next = next v

abbrev pub map_err {ℓ κ μ} :
    {A : Type ℓ} {E : Type κ} {F : Type μ} → (E → F) → Result A E → Result A F
map_err f (ok a) = ok a
map_err f (err e) = err (f e)

-- `?` on a result without a value
abbrev pub ◌>>◌ {ℓ κ} : {B : Type ℓ} {E : Type κ} → Result (Unit {0}) E → Result B E → Result B E
check >> rest = check >>= λ _. rest

-- `Option::ok_or`
abbrev pub ok_or {ℓ κ} : {A : Type ℓ} {E : Type κ} → Option A → E → Result A E
ok_or (some a) e = ok a
ok_or none e = err e

-- An early return of an error when a test holds.
abbrev pub bail_if {ℓ} : {E : Type ℓ} → Bool → E → Result (Unit {0}) E
bail_if true e = err e
bail_if false e = ok tt

abbrev pub IsOk {ℓ κ} : {A : Type ℓ} {E : Type κ} → Result A E → Type 0
IsOk (ok a) = Unit {0}
IsOk (err e) = ⊥

-- What a chain that came out ok has gone through.
pub >>=-eq-ok {ℓ κ μ} :
    {A : Type ℓ} {B : Type κ} {E : Type μ} (r : Result A E) (next : A → Result B E) {out : B}
    → (r >>= next) ≡ ok out
    → (v : A) × (r ≡ ok v) × (next v ≡ ok out)
>>=-eq-ok (err x) next h = cc
>>=-eq-ok (ok v) next h = (v, refl, h)

pub Result-cases {ℓ κ} :
    {A : Type ℓ} {E : Type κ} (r : Result A E) → ((a : A) × (r ≡ ok a)) ⊎ ((e : E) × (r ≡ err e))
Result-cases (ok a) = inl (a, refl)
Result-cases (err e) = inr (e, refl)
