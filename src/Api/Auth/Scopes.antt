-- ===== src/Api/Auth/Scopes.antt =====
-- The set of scopes of a key as 16 bits (crates/api/auth.rs).
use payment_gateway_sandbox.Prelude.{
  ℕ, zero, suc, ◌≡◌, ◌<◌, ◌≤◌, refl, arith, Bool, true, false, not, ◌&&◌, ◌||◌, ltb, ◌==◌, ◌=?◌,
  List, [], ◌∷◌, if◌then◌else◌,
}
use Prim.Native.Nat.{bit_and, bit_or}
use payment_gateway_sandbox.Domain.ApiKey.{
  Scope, Scope_enum, orders_read, orders_write, payments_read, payments_write, refunds_write,
  webhooks_manage, has,
}

-- `bit`: `1 << 0` to `1 << 5`
unfoldable pub bit : Scope → ℕ
bit orders_read = 1
bit orders_write = 2
bit payments_read = 4
bit payments_write = 8
bit refunds_write = 16
bit webhooks_manage = 32

abbrev pub all_scopes : List Scope
all_scopes =
    orders_read ∷ orders_write ∷ payments_read ∷ payments_write ∷ refunds_write ∷ webhooks_manage
    ∷ []

abbrev pub ScopeSet : Type 0
ScopeSet = ℕ

-- `ScopeSet::with`
unfoldable pub with_scope : ScopeSet → Scope → ScopeSet
unfolding bit
with_scope s scope = bit_or s (bit scope)

-- `ScopeSet::contains`
unfoldable pub contains : ScopeSet → Scope → Bool
unfolding bit
contains s scope = not (bit_and s (bit scope) == 0)

-- `FromIterator`: `fold(Self::empty(), Self::with)`
unfoldable pub fold_scopes : ScopeSet → List Scope → ScopeSet
unfolding with_scope
fold_scopes s [] = s
fold_scopes s (x ∷ xs) = fold_scopes (with_scope s x) xs

unfoldable pub from_slice : List Scope → ScopeSet
unfolding fold_scopes
from_slice scopes = fold_scopes 0 scopes

-- `ScopeSet::iter`
unfoldable pub granted : ScopeSet → List Scope → List Scope
unfolding contains
granted s [] = []
granted s (x ∷ xs) = if contains s x then x ∷ granted s xs else granted s xs

unfoldable pub iter : ScopeSet → List Scope
unfolding granted
iter s = granted s all_scopes

-- Whether a test holds of 0 and of all numbers up to a highest one.
unfoldable every_upto : (ScopeSet → Bool) → ℕ → Bool
every_upto test zero = test zero
every_upto test (suc top) = every_upto test top && test (suc top)

every_upto_sound :
    (test : ScopeSet → Bool) (top s : ℕ) → every_upto test top ≡ true → s ≤ top → test s ≡ true
unfolding every_upto
every_upto_sound test zero s passed le = ground arith
every_upto_sound test (suc top) s passed le = ground (arith, every_upto_sound test top s)

abbrev same : Bool → Bool → Bool
same true b = b
same false b = not b

same_sound : (a b : Bool) → same a b ≡ true → a ≡ b
same_sound true b h = ground arith
same_sound false b h = ground arith

-- The effect of one more bit, on a set of six bits.
abbrev with_test : Scope → Scope → ℕ → Bool
with_test a b s =
    ltb (with_scope s a) 64 && same (contains (with_scope s a) b) (a =? b || contains s b)

abbrev all_scopes_pass : (Scope → Bool) → Bool
all_scopes_pass p =
    p orders_read
    && (p orders_write
        && (p payments_read && (p payments_write && (p refunds_write && p webhooks_manage))))

all_scopes_pass_sound : (p : Scope → Bool) (s : Scope) → all_scopes_pass p ≡ true → p s ≡ true
all_scopes_pass_sound p orders_read h = ground arith
all_scopes_pass_sound p orders_write h = ground arith
all_scopes_pass_sound p payments_read h = ground arith
all_scopes_pass_sound p payments_write h = ground arith
all_scopes_pass_sound p refunds_write h = ground arith
all_scopes_pass_sound p webhooks_manage h = ground arith

with_table : all_scopes_pass (λ a. all_scopes_pass (λ b. every_upto (with_test a b) 63)) ≡ true
unfolding every_upto with_scope contains bit
with_table = refl

with_scope_lem : (s : ScopeSet) (a b : Scope) → s < 64 → with_test a b s ≡ true
with_scope_lem s a b lt =
    every_upto_sound (with_test a b) 63 s
      (all_scopes_pass_sound (λ b. every_upto (with_test a b) 63) b
        (all_scopes_pass_sound (λ a. all_scopes_pass (λ b. every_upto (with_test a b) 63)) a
          with_table))
      (omega arith)

empty_contains : (b : Scope) → contains 0 b ≡ false
unfolding contains bit
empty_contains orders_read = refl
empty_contains orders_write = refl
empty_contains payments_read = refl
empty_contains payments_write = refl
empty_contains refunds_write = refl
empty_contains webhooks_manage = refl

fold_scopes-contains :
    (s : ScopeSet) (xs : List Scope) (b : Scope)
    → s < 64
    → contains (fold_scopes s xs) b ≡ (contains s b || has b xs)
unfolding fold_scopes has
fold_scopes-contains s [] b lt = ground arith
fold_scopes-contains s (x ∷ xs) b lt =
    let t = with_scope_lem s x b lt in
    ground (
      arith,
      t,
      same_sound (contains (with_scope s x) b) (x =? b || contains s b),
      fold_scopes-contains (with_scope s x) xs b (ground (arith, t)),
    )

-- The bits hold a scope exactly when the list that they were made from does.
pub from_slice-contains : (xs : List Scope) (b : Scope) → contains (from_slice xs) b ≡ has b xs
unfolding from_slice
from_slice-contains xs b = ground (arith, fold_scopes-contains 0 xs b, empty_contains b)
