-- ===== src/Domain/Ledger/Sums.antt =====
-- The table of sums: what each slot holds, and that no currency has two slots.
use payment_gateway_sandbox.Prelude.{
  ◌≡◌, ◌≢◌, refl, arith, Bool-cases, inl, inr, sym, List, [], ◌∷◌, ◌=?◌, if◌then◌else◌,
}
use payment_gateway_sandbox.Prelude.Int.{ℤ, pos, ◌+ℤ◌, zero-+ℤ, +ℤ-zero, +ℤ_assoc, eq_of_parts}
use payment_gateway_sandbox.Prelude.Lists.{All}
use payment_gateway_sandbox.Prelude.Result.{ok, >>=-eq-ok}
use payment_gateway_sandbox.Domain.Money.{Currency, Currency_enum, Currency_index_injective}
use payment_gateway_sandbox.Domain.Ledger.Entry.{LedgerEntry, entry_currency, entry_minor}
use payment_gateway_sandbox.Domain.Ledger.Transaction.{
  Sums, add_to_slot, sum_entries, nonzero, insert_by_code, sort_by_code, is_after,
}

-- What an amount in one currency adds to the sum in another.
abbrev pub part : Currency → Currency → ℤ → ℤ
part c d x = if c =? d then x else pos 0

-- The exact sum of the entries in one currency.
abbrev pub total : Currency → List LedgerEntry → ℤ
total d [] = pos 0
total d (e ∷ es) = part (entry_currency e) d (entry_minor e) +ℤ total d es

-- What a table holds for a currency, 0 if there is no slot.
abbrev pub slot : Currency → Sums → ℤ
slot c [] = pos 0
slot c ((d, t) ∷ s) = if d =? c then t else slot c s

abbrev pub IsFresh : Currency → Sums → Type 0
IsFresh c [] = Unit {0}
IsFresh c ((d, t) ∷ s) = (d ≢ c) × IsFresh c s

abbrev pub IsTable : Sums → Type 0
IsTable [] = Unit {0}
IsTable ((c, t) ∷ s) = IsFresh c s × IsTable s

-- How an addition that succeeds has changed a table that is not empty.
data Added (c : Currency) (x : ℤ) (e : Currency) (t : ℤ) (s : Sums) (s' : Sums) : Type 0 where
  here : e ≡ c → s' ≡ (e, t +ℤ x) ∷ s → Added c x e t s s'
  below : (r : Sums) → e ≢ c → add_to_slot c x s ≡ ok r → s' ≡ (e, t) ∷ r → Added c x e t s s'

add_to_slot-Added :
    (c : Currency) (x : ℤ) (e : Currency) (t : ℤ) (s s' : Sums)
    → add_to_slot c x ((e, t) ∷ s) ≡ ok s'
    → Added c x e t s s'
unfolding add_to_slot
add_to_slot-Added c x e t s s' h = elim (Bool-cases (e =? c)) [
  | inl same ↦ here (Currency_index_injective e c (ground arith)) (ground arith)
  | inr other ↦
      let (r, below_ok, rest) =
        >>=-eq-ok (add_to_slot c x s) (λ r. ok ((e, t) ∷ r)) (rw other at h) in
      below r (ground arith) below_ok (ground arith)
]

pub slot-add_to_slot :
    (c d : Currency) (x : ℤ) (s s' : Sums)
    → add_to_slot c x s ≡ ok s'
    → slot d s' ≡ slot d s +ℤ part c d x
unfolding add_to_slot
slot-add_to_slot c d x [] s' h = ground (arith, zero-+ℤ x, zero-+ℤ (pos 0))
slot-add_to_slot c d x ((e, t) ∷ s) s' h = elim (add_to_slot-Added c x e t s s' h) [
  | here same eq ↦ rw (eq, same) (ground (arith, +ℤ-zero (slot d s)))
  | below r other rest eq ↦
      rw eq
        (ground (arith, +ℤ-zero t, Currency_index_injective e c, slot-add_to_slot c d x s r rest))
]

pub add_to_slot-IsFresh :
    (c d : Currency) (x : ℤ) (s s' : Sums)
    → add_to_slot c x s ≡ ok s'
    → c ≢ d
    → IsFresh d s
    → IsFresh d s'
unfolding add_to_slot
add_to_slot-IsFresh c d x [] s' h ne f = ground arith
add_to_slot-IsFresh c d x ((e, t) ∷ s) s' h ne f = elim (add_to_slot-Added c x e t s s' h) [
  | here same eq ↦ rw eq f
  | below r other rest eq ↦ rw eq (f.0, add_to_slot-IsFresh c d x s r rest ne f.1)
]

pub add_to_slot-IsTable :
    (c : Currency) (x : ℤ) (s s' : Sums) → add_to_slot c x s ≡ ok s' → IsTable s → IsTable s'
unfolding add_to_slot
add_to_slot-IsTable c x [] s' h f = ground arith
add_to_slot-IsTable c x ((e, t) ∷ s) s' h f = elim (add_to_slot-Added c x e t s s' h) [
  | here same eq ↦ rw eq f
  | below r other rest eq ↦ rw eq (
    add_to_slot-IsFresh c e x s r rest (λ p. other (sym p)) f.0,
    add_to_slot-IsTable c x s r rest f.1,
  )
]

-- The loop leaves in each slot the exact sum of the entries in that currency.
pub slot-sum_entries :
    (d : Currency) (es : List LedgerEntry) (s s' : Sums)
    → sum_entries es s ≡ ok s'
    → slot d s' ≡ slot d s +ℤ total d es
unfolding sum_entries
slot-sum_entries d [] s s' h = ground (arith, +ℤ-zero (slot d s))
slot-sum_entries d (e ∷ es) s s' h =
    let (r, first, rest) =
      >>=-eq-ok (add_to_slot (entry_currency e) (entry_minor e) s) (sum_entries es) h in
    rw (slot-sum_entries d es r s' rest, slot-add_to_slot _ d _ s r first, +ℤ_assoc) refl

pub sum_entries-IsTable :
    (es : List LedgerEntry) (s s' : Sums) → sum_entries es s ≡ ok s' → IsTable s → IsTable s'
unfolding sum_entries
sum_entries-IsTable [] s s' h f = ground arith
sum_entries-IsTable (e ∷ es) s s' h f =
    let (r, first, rest) =
      >>=-eq-ok (add_to_slot (entry_currency e) (entry_minor e) s) (sum_entries es) h in
    sum_entries-IsTable es r s' rest (add_to_slot-IsTable _ _ s r first f)

pub slot-IsFresh : (c : Currency) (s : Sums) → IsFresh c s → slot c s ≡ pos 0
slot-IsFresh c [] f = refl
slot-IsFresh c ((d, t) ∷ s) f = ground (arith, Currency_index_injective d c, slot-IsFresh c s f.1)

-- Dropping the slots of zero changes no sum.
pub slot-nonzero : (c : Currency) (s : Sums) → IsTable s → slot c (nonzero s) ≡ slot c s
unfolding nonzero
slot-nonzero c [] f = refl
slot-nonzero c ((d, t) ∷ s) f = ground (
  arith,
  slot-nonzero c s f.1,
  eq_of_parts t (pos 0),
  Currency_index_injective d c,
  slot-IsFresh d s f.0,
)

pub nonzero-IsFresh : (c : Currency) (s : Sums) → IsFresh c s → IsFresh c (nonzero s)
unfolding nonzero
nonzero-IsFresh c [] f = f
nonzero-IsFresh c ((d, t) ∷ s) f = ground (arith, nonzero-IsFresh c s f.1)

pub nonzero-IsTable : (s : Sums) → IsTable s → IsTable (nonzero s)
unfolding nonzero
nonzero-IsTable [] f = f
nonzero-IsTable ((d, t) ∷ s) f = ground (arith, nonzero-IsTable s f.1, nonzero-IsFresh d s f.0)

-- What is left holds no zero.
pub nonzero-All : (s : Sums) → All (λ p. p.1 ≢ pos 0) (nonzero s)
unfolding nonzero
nonzero-All [] = tt
nonzero-All ((d, t) ∷ s) = ground (arith, nonzero-All s)

slot-insert_by_code :
    (c d : Currency) (t : ℤ) (s : Sums)
    → IsFresh d s
    → slot c (insert_by_code d t s) ≡ slot c ((d, t) ∷ s)
unfolding insert_by_code
slot-insert_by_code c d t [] f = refl
slot-insert_by_code c d t ((e, u) ∷ s) f = elim (Bool-cases (is_after e d)) [
  | inl after ↦ rw after refl
  | inr before ↦ rw before (
      ground (
        arith,
        slot-insert_by_code c d t s f.1,
        Currency_index_injective d c,
        Currency_index_injective e c,
      ))
]

insert_by_code-IsFresh :
    (c d : Currency) (t : ℤ) (s : Sums) → d ≢ c → IsFresh c s → IsFresh c (insert_by_code d t s)
unfolding insert_by_code
insert_by_code-IsFresh c d t [] ne f = (ne, tt)
insert_by_code-IsFresh c d t ((e, u) ∷ s) ne f =
    ground (arith, insert_by_code-IsFresh c d t s ne f.1)

sort_by_code-IsFresh : (c : Currency) (s : Sums) → IsFresh c s → IsFresh c (sort_by_code s)
unfolding sort_by_code
sort_by_code-IsFresh c [] f = f
sort_by_code-IsFresh c ((d, t) ∷ s) f =
    insert_by_code-IsFresh c d t (sort_by_code s) f.0 (sort_by_code-IsFresh c s f.1)

-- Sorting changes no sum.
pub slot-sort_by_code : (c : Currency) (s : Sums) → IsTable s → slot c (sort_by_code s) ≡ slot c s
unfolding sort_by_code
slot-sort_by_code c [] f = refl
slot-sort_by_code c ((d, t) ∷ s) f =
    rw (slot-insert_by_code c d t (sort_by_code s) (sort_by_code-IsFresh d s f.0))
      (ground (arith, slot-sort_by_code c s f.1))

insert_by_code-All :
    (c : Currency) (t : ℤ) (s : Sums)
    → t ≢ pos 0
    → All (λ q. q.1 ≢ pos 0) s
    → All (λ q. q.1 ≢ pos 0) (insert_by_code c t s)
unfolding insert_by_code
insert_by_code-All c t [] h k = (h, tt)
insert_by_code-All c t ((d, u) ∷ s) h k = ground (arith, insert_by_code-All c t s h k.1)

pub sort_by_code-All :
    (s : Sums) → All (λ p. p.1 ≢ pos 0) s → All (λ p. p.1 ≢ pos 0) (sort_by_code s)
unfolding sort_by_code
sort_by_code-All [] h = h
sort_by_code-All ((c, t) ∷ s) h =
    insert_by_code-All c t (sort_by_code s) h.0 (sort_by_code-All s h.1)
