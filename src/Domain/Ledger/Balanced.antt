-- ===== src/Domain/Ledger/Balanced.antt =====
-- `BalancedTransaction::new` accepts exactly the balanced lists, and reports exactly the imbalance.
use payment_gateway_sandbox.Prelude.{
  ◌≤◌, ◌≡◌, ◌≢◌, ◌⊎◌, refl, sym, ap, ◌∙◌, arith, false, Bool-cases, inl, inr, List, [], ◌∷◌, ltb,
  ◌=?◌,
}
use payment_gateway_sandbox.Prelude.Lists.{length, All}
use payment_gateway_sandbox.Prelude.Int.{ℤ, pos, ◌+ℤ◌, IsI64, zero-+ℤ}
use payment_gateway_sandbox.Prelude.Result.{ok, err, Result-cases}
use payment_gateway_sandbox.Domain.Money.{Currency, Currency_enum}
use payment_gateway_sandbox.Domain.Ledger.Account.{
  LedgerError, unbalanced, too_few_entries, ledger_overflow,
}
use payment_gateway_sandbox.Domain.Ledger.Entry.{LedgerEntry, entry_currency, entry_minor}
use payment_gateway_sandbox.Domain.Ledger.Transaction.{
  Sums, LedgerTransactionKind, BalancedTransaction, add_to_slot, sum_entries, nonzero, sort_by_code,
  balanced, reject_unbalanced,
}
use payment_gateway_sandbox.Domain.Ledger.Sums.{
  part, total, slot, IsTable, slot-add_to_slot, slot-sum_entries, sum_entries-IsTable, slot-nonzero,
  nonzero-IsTable, nonzero-All, slot-sort_by_code, sort_by_code-All,
}

-- Every currency sums to zero, over at least two entries.
pub record IsBalanced (es : List LedgerEntry) : Type 0 where
  pub double_entry : 2 ≤ length es
  pub zero_sum : (c : Currency) → total c es ≡ pos 0

reject-eq-ok :
    (s : Sums) (t r : BalancedTransaction) → reject_unbalanced s t ≡ ok r → (s ≡ []) × (r ≡ t)
reject-eq-ok [] t r h = (refl, cc)
reject-eq-ok (p ∷ s) t r h = cc

reject-eq-err :
    (s : Sums) (t : BalancedTransaction) (ds : Sums)
    → reject_unbalanced s t ≡ err (unbalanced ds)
    → ds ≡ sort_by_code s
reject-eq-err [] t ds h = cc
reject-eq-err (p ∷ s) t ds h = cc

-- What is known of the sums where the entries are long enough and nothing overflows.
record Summed (k : LedgerTransactionKind) (es : List LedgerEntry) : Type 0 where
  sums : Sums
  is_table : IsTable sums
  exact : (c : Currency) → slot c sums ≡ total c es
  outcome : balanced k es ≡ reject_unbalanced (nonzero sums) (record { kind = k; entries = es })

summed :
    (k : LedgerTransactionKind) (es : List LedgerEntry) (s : Sums)
    → ltb (length es) 2 ≡ false
    → sum_entries es [] ≡ ok s
    → Summed k es
unfolding balanced
summed k es s long done = record {
  sums = s;
  is_table = sum_entries-IsTable es [] s done tt;
  exact = λ c. slot-sum_entries c es [] s done ∙ zero-+ℤ (total c es);
  outcome = rw (long, done) refl;
}

long_enough : (es : List LedgerEntry) → ltb (length es) 2 ≡ false → 2 ≤ length es
long_enough es h = ground arith

add_to_slot-err :
    (c : Currency) (x : ℤ) (s : Sums) (e : LedgerError)
    → add_to_slot c x s ≡ err e
    → e ≡ ledger_overflow
unfolding add_to_slot
add_to_slot-err c x [] e h = ground arith
add_to_slot-err c x ((d, t) ∷ s) e h = ground (arith, add_to_slot-err c x s e)

-- The loop fails only by an overflow.
pub sum_entries-err :
    (es : List LedgerEntry) (s : Sums) (e : LedgerError)
    → sum_entries es s ≡ err e
    → e ≡ ledger_overflow
unfolding sum_entries
sum_entries-err [] s e h = cc
sum_entries-err (x ∷ es) s e h =
    elim (Result-cases (add_to_slot (entry_currency x) (entry_minor x) s)) [
      | inl (s', done) ↦ sum_entries-err es s' e (rw done at h)
      | inr (e', failed) ↦
          cc (add_to_slot-err (entry_currency x) (entry_minor x) s e' failed, (rw failed at h))
    ]

-- Whatever `balanced` does, it overflowed, found too few entries, or went by the sums.
balanced-Summed :
    (k : LedgerTransactionKind) (es : List LedgerEntry)
    → ((e : LedgerError) × (balanced k es ≡ err e) × ((ds : Sums) → e ≢ unbalanced ds))
      ⊎ (Summed k es × (2 ≤ length es))
unfolding balanced
balanced-Summed k es = elim (Bool-cases (ltb (length es) 2)) [
  | inl short ↦ inl (too_few_entries (length es), rw short refl, λ ds e. cc)
  | inr long ↦ elim (Result-cases (sum_entries es [])) [
    | inl (s, done) ↦ inr (summed k es s long done, long_enough es long)
    | inr (e, failed) ↦ inl (e, rw (long, failed) refl, λ ds p. cc (sum_entries-err es [] e failed))
  ]
]

-- An accepted transaction holds the given entries, at least two, and they sum to zero in every
-- currency.
pub balanced_sound :
    (k : LedgerTransactionKind) (es : List LedgerEntry) {t : BalancedTransaction}
    → balanced k es ≡ ok t
    → (t.kind ≡ k) × (t.entries ≡ es) × IsBalanced t.entries
balanced_sound k es {t} h = elim (balanced-Summed k es) [
  | inl (e, failed, _) ↦ cc
  | inr (s, long) ↦
      let (empty, eq) = reject-eq-ok (nonzero s.sums) _ t (sym s.outcome ∙ h) in
      rw eq (
        refl,
        refl,
        record {
          double_entry = long;
          zero_sum =
              λ c. sym (s.exact c) ∙ sym (slot-nonzero c s.sums s.is_table) ∙ ap (slot c) empty;
        },
      )
]

-- A rejection as unbalanced lists, with its sign, exactly what each currency is off by, and no
-- currency that balances.
pub balanced_imbalance :
    (k : LedgerTransactionKind) (es : List LedgerEntry) {ds : Sums}
    → balanced k es ≡ err (unbalanced ds)
    → ((c : Currency) → slot c ds ≡ total c es) × All (λ p. p.1 ≢ pos 0) ds
balanced_imbalance k es {ds} h = elim (balanced-Summed k es) [
  | inl (e, failed, other) ↦ absurd (other ds cc)
  | inr (s, long) ↦
      let eq = reject-eq-err (nonzero s.sums) _ ds (sym s.outcome ∙ h) in
      let table = nonzero-IsTable s.sums s.is_table in
      rw eq (
        λ c.
            slot-sort_by_code c (nonzero s.sums) table
            ∙ slot-nonzero c s.sums s.is_table
            ∙ s.exact c,
        sort_by_code-All (nonzero s.sums) (nonzero-All s.sums),
      )
]

-- Every running sum of a list, from the sums `f` on, fits in 64 bits.
abbrev pub Fits : (Currency → ℤ) → List LedgerEntry → Type 0
Fits f [] = Unit {0}
Fits f (e ∷ es) =
    IsI64 (f (entry_currency e) +ℤ entry_minor e)
    × Fits (λ d. f d +ℤ part (entry_currency e) d (entry_minor e)) es

add_to_slot-total :
    (c : Currency) (x : ℤ) (s : Sums)
    → IsI64 (slot c s +ℤ x)
    → (s' : Sums) × (add_to_slot c x s ≡ ok s')
unfolding add_to_slot
add_to_slot-total c x [] h = ((c, pos 0 +ℤ x) ∷ [], ground arith)
add_to_slot-total c x ((d, t) ∷ s) h = elim (Bool-cases (d =? c)) [
  | inl same ↦ ((d, t +ℤ x) ∷ s, ground arith)
  | inr other ↦
      let (r, done) = add_to_slot-total c x s (rw other at h) in ((d, t) ∷ r, rw (other, done) refl)
]

sum_entries-total :
    (es : List LedgerEntry) (s : Sums) (f : Currency → ℤ)
    → ((c : Currency) → slot c s ≡ f c)
    → Fits f es
    → (s' : Sums) × (sum_entries es s ≡ ok s')
unfolding sum_entries
sum_entries-total [] s f eq fits = (s, refl)
sum_entries-total (e ∷ es) s f eq fits =
    let c = entry_currency e in
    let x = entry_minor e in
    let (s1, first) = add_to_slot-total c x s (rw (eq c) fits.0) in
    let (s2, done) =
      sum_entries-total es s1 (λ d. f d +ℤ part c d x)
        (λ d. slot-add_to_slot c d x s s1 first ∙ ap (λ t. t +ℤ part c d x) (eq d)) fits.1 in
    (s2, rw first done)

nonzero-nil : (s : Sums) → All (λ p. p.1 ≢ pos 0) s → ((c : Currency) → slot c s ≡ pos 0) → s ≡ []
nonzero-nil [] h z = refl
nonzero-nil ((c, t) ∷ s) h z = absurd (h.0 (ground (arith, z c)))

-- A balanced list of at least two entries is accepted if its running sums fit in 64 bits.
pub balanced_complete :
    (k : LedgerTransactionKind) (es : List LedgerEntry)
    → Fits (λ c. pos 0) es
    → IsBalanced es
    → balanced k es ≡ ok (record { kind = k; entries = es })
balanced_complete k es fits b =
    let (s, done) = sum_entries-total es [] (λ c. pos 0) (λ c. refl) fits in
    let r = summed k es s (ground (arith, b.double_entry)) done in
    let empty =
      nonzero-nil (nonzero r.sums) (nonzero-All r.sums)
        (λ c. slot-nonzero c r.sums r.is_table ∙ r.exact c ∙ b.zero_sum c) in
    r.outcome ∙ rw empty refl
