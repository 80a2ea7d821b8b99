-- ===== src/Engine/Posting/Effects.antt =====
-- What the posting rules write: transactions that always balance, entry by entry.
use payment_gateway_sandbox.Prelude.{
  ℕ, ◌+◌, ◌≤◌, ◌<◌, ◌≡◌, ◌∙◌, ap, sym, arith, List, [], ◌∷◌, ltb, if◌then◌else◌,
}
use payment_gateway_sandbox.Prelude.Int.{
  ℤ, pos, neg, neg_parts, ◌+ℤ◌, IsI64, to_i64-some, int_laws, +ℤ-zero,
}
use payment_gateway_sandbox.Prelude.Lists.{length}
use payment_gateway_sandbox.Prelude.Result.{ok}
use payment_gateway_sandbox.Domain.Money.{Currency, Currency_enum, money, negate}
use payment_gateway_sandbox.Domain.Ledger.Entry.{LedgerEntry, entry, credit, debit}
use payment_gateway_sandbox.Domain.Ledger.Sums.{total, part}
use payment_gateway_sandbox.Domain.Ledger.Balanced.{Fits, balanced_complete}
use payment_gateway_sandbox.Domain.Ledger.Transaction.{LedgerTransactionKind, balanced}

pub credit-eq :
    (a m : ℕ) (c : Currency) → 0 < m → credit a (money (pos m) c) ≡ ok (entry a (pos m) c)
unfolding credit
credit-eq a m c h = ground arith

pub debit-eq :
    (a m : ℕ) (c : Currency)
    → 0 < m
    → m ≤ 9223372036854775807
    → debit a (money (pos m) c) ≡ ok (entry a (neg (pos m)) c)
unfolding debit negate
debit-eq a m c h fits = ground (arith, neg_parts (pos m), to_i64-some (neg (pos m)))

part_self : (c : Currency) (x : ℤ) → part c c x ≡ x
part_self c x = ground arith

part-sum : (c d : Currency) (x y : ℤ) → part c d x +ℤ part c d y ≡ part c d (x +ℤ y)
part-sum c d x y = ground (arith, +ℤ-zero (pos 0))

part-zero : (c d : Currency) → part c d (pos 0) ≡ pos 0
part-zero c d = ground arith

-- Entries in one currency.
abbrev pub entries_of : Currency → List (ℕ × ℤ) → List LedgerEntry
entries_of c [] = []
entries_of c ((a, x) ∷ r) = entry a x c ∷ entries_of c r

abbrev pub sum_of : List (ℕ × ℤ) → ℤ
sum_of [] = pos 0
sum_of ((a, x) ∷ r) = x +ℤ sum_of r

total-entries_of :
    (c d : Currency) (r : List (ℕ × ℤ)) → total d (entries_of c r) ≡ part c d (sum_of r)
total-entries_of c d [] = sym (part-zero c d)
total-entries_of c d ((a, x) ∷ r) = rw (total-entries_of c d r) (part-sum c d x (sum_of r))

-- The running sums in one currency fit.
abbrev pub RunFits : ℤ → List (ℕ × ℤ) → Type 0
RunFits acc [] = Unit {0}
RunFits acc ((a, x) ∷ r) = IsI64 (acc +ℤ x) × RunFits (acc +ℤ x) r

Fits-entries_of :
    (c : Currency) (f : Currency → ℤ) (r : List (ℕ × ℤ)) → RunFits (f c) r → Fits f (entries_of c r)
Fits-entries_of c f [] h = tt
Fits-entries_of c f ((a, x) ∷ r) h =
    (h.0, Fits-entries_of c (λ d. f d +ℤ part c d x) r (rw (part_self c x) h.1))

-- A transaction in one currency whose entries sum to zero is accepted.
pub one_currency :
    (k : LedgerTransactionKind) (c : Currency) (r : List (ℕ × ℤ))
    → 2 ≤ length (entries_of c r)
    → RunFits (pos 0) r
    → sum_of r ≡ pos 0
    → balanced k (entries_of c r) ≡ ok (record { kind = k; entries = entries_of c r })
one_currency k c r long fits zero =
    balanced_complete k (entries_of c r) (Fits-entries_of c (λ c. pos 0) r fits) (record {
      double_entry = long;
      zero_sum = λ d. total-entries_of c d r ∙ ap (part c d) zero ∙ part-zero c d;
    })

-- The four shapes of transaction that the rules build.
abbrev pub transfer_moves : ℕ → ℕ → ℕ → List (ℕ × ℤ)
transfer_moves from to m = (from, neg (pos m)) ∷ (to, pos m) ∷ []

abbrev pub tax_move : ℕ → ℕ → List (ℕ × ℤ)
tax_move account t = if ltb 0 t then (account, pos t) ∷ [] else []

abbrev pub fee_moves : ℕ → ℕ → ℕ → ℕ → ℕ → List (ℕ × ℤ)
fee_moves pending revenue tax base t =
    (pending, neg (pos (base + t))) ∷ (revenue, pos base) ∷ tax_move tax t

transfer_RunFits :
    (from to m : ℕ) → m ≤ 9223372036854775807 → RunFits (pos 0) (transfer_moves from to m)
unfolding ◌+ℤ◌ neg
transfer_RunFits from to m h = ground arith

transfer_sum : (from to m : ℕ) → sum_of (transfer_moves from to m) ≡ pos 0
transfer_sum from to m = omega int_laws

pub transfer_built :
    (k : LedgerTransactionKind) (c : Currency) (from to m : ℕ)
    → m ≤ 9223372036854775807
    → balanced k (entries_of c (transfer_moves from to m))
      ≡ ok (record { kind = k; entries = entries_of c (transfer_moves from to m) })
transfer_built k c from to m h =
    one_currency k c (transfer_moves from to m) (omega arith) (transfer_RunFits from to m h)
      (transfer_sum from to m)

fee_RunFits :
    (pending revenue tax base t : ℕ)
    → base + t ≤ 9223372036854775807
    → RunFits (pos 0) (fee_moves pending revenue tax base t)
unfolding ◌+ℤ◌ neg
fee_RunFits pending revenue tax base t h = ground arith

fee_sum : (pending revenue tax base t : ℕ) → sum_of (fee_moves pending revenue tax base t) ≡ pos 0
unfolding ◌+ℤ◌ neg
fee_sum pending revenue tax base t = ground arith

fee_long :
    (pending revenue tax base t : ℕ) (c : Currency)
    → 2 ≤ length (entries_of c (fee_moves pending revenue tax base t))
fee_long pending revenue tax base t c = ground arith

pub fee_built :
    (k : LedgerTransactionKind) (c : Currency) (pending revenue tax base t : ℕ)
    → base + t ≤ 9223372036854775807
    → balanced k (entries_of c (fee_moves pending revenue tax base t))
      ≡ ok (record { kind = k; entries = entries_of c (fee_moves pending revenue tax base t) })
fee_built k c pending revenue tax base t h =
    one_currency k c (fee_moves pending revenue tax base t) (fee_long pending revenue tax base t c)
      (fee_RunFits pending revenue tax base t h) (fee_sum pending revenue tax base t)
