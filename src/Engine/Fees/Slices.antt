-- ===== src/Engine/Fees/Slices.antt =====
-- `proportional_fee_refund`: the fee comes back in slices that are never negative and that add up
-- to exactly the fee charged.
use payment_gateway_sandbox.Prelude.{ℕ, ◌+◌, ◌-◌, ◌*◌, ◌≤◌, ◌<◌, ◌≡◌, arith, List, [], ◌∷◌}
use payment_gateway_sandbox.Prelude.Int.{pos, ◌+ℤ◌, ◌-ℤ◌, -ℤ-pos, wrap_i64, wrap_i64-eq}
use payment_gateway_sandbox.Prelude.Result.{Result, ok, ◌>>=◌}
use payment_gateway_sandbox.Domain.Money.{Currency, Money, MoneyError, money}
use payment_gateway_sandbox.Domain.Money.Percent.{
  half_up, percent-pos, half_up_mono, half_up-zero, half_up-mul_self, half_up-share_le, +ℤ-pos,
}
use payment_gateway_sandbox.Engine.Fees.{
  FeeBreakdown, FeeRefund, for_currency, compute, owed, proportional_fee_refund,
}
use payment_gateway_sandbox.Engine.Fees.Charge.{base_fee, tax_fee, fee_bounds, compute-eq}
use native.Mathlib.Nat.{mul-le-mul_left, mul-zero, add-zero, add_assoc}

-- The part of a fee of `k` on an amount of `m` that is due back once `r` is refunded.
unfoldable pub share : ℕ → ℕ → ℕ → ℕ
share k r m = half_up (k * r) m

pub share_le : (k r m : ℕ) → 0 < m → r ≤ m → share k r m ≤ k
unfolding share
share_le k r m h p = half_up-share_le k r m h p

pub share_mono : (k r s m : ℕ) → 0 < m → r ≤ s → share k r m ≤ share k s m
unfolding share
share_mono k r s m h p = half_up_mono (k * r) (k * s) m h (mul-le-mul_left k p)

pub share-zero : (k m : ℕ) → 0 < m → share k 0 m ≡ 0
unfolding share
share-zero k m h = rw mul-zero (half_up-zero m h)

pub share-whole : (k m : ℕ) → 0 < m → share k m m ≡ k
unfolding share
share-whole k m h = half_up-mul_self k m h

owed-eq :
    (c : Currency) (m k r : ℕ)
    → 0 < m
    → r ≤ m
    → k ≤ 9223372036854775807
    → owed (money (pos m) c) (pos k) (pos r) ≡ ok (pos (share k r m))
unfolding owed share
owed-eq c m k r h p q = ground (arith, percent-pos k r m c, half_up-share_le k r m)

-- What is returned between two refunded totals, in each component.
abbrev pub slice : Currency → ℕ → ℕ → ℕ → FeeRefund
slice c m old new = record {
  base = pos (share (base_fee c m) new m - share (base_fee c m) old m);
  tax = pos (share (tax_fee c m) new m - share (tax_fee c m) old m);
}

wrapped_slice :
    (k m r s : ℕ)
    → 0 < m
    → r ≤ s
    → s ≤ m
    → k ≤ 9223372036854775807
    → wrap_i64 (pos (share k s m) -ℤ pos (share k r m)) ≡ pos (share k s m - share k r m)
wrapped_slice k m r s h p q fits =
    let mono = share_mono k r s m h p in
    let cap = share_le k s m h q in rw (-ℤ-pos _ _ mono) (wrap_i64-eq _ (omega arith))

pub proportional_fee_refund-eq :
    (c : Currency) (m old new : ℕ)
    → 0 < m
    → m ≤ 9223372036854775807
    → old ≤ new
    → new ≤ m
    → proportional_fee_refund (money (pos m) c) (pos old) (pos new) ≡ ok (slice c m old new)
unfolding proportional_fee_refund
proportional_fee_refund-eq c m old new h fits p q =
    let b = fee_bounds c m in
    rw (
      compute-eq c m fits,
      owed-eq c m (base_fee c m) new h q (omega arith),
      owed-eq c m (base_fee c m) old h (omega arith) (omega arith),
      owed-eq c m (tax_fee c m) new h q (omega arith),
      owed-eq c m (tax_fee c m) old h (omega arith) (omega arith),
      wrapped_slice (base_fee c m) m old new h p q (omega arith),
      wrapped_slice (tax_fee c m) m old new h p q (omega arith),
    )

abbrev pub sum : List ℕ → ℕ
sum [] = 0
sum (s ∷ ss) = s + sum ss

-- The fee returned by refunds of the listed amounts, one after another, from a refunded total on.
pub returned : Money → ℕ → List ℕ → Result FeeRefund MoneyError
returned payment_amount total [] = ok (record { base = pos 0; tax = pos 0 })
returned payment_amount total (s ∷ ss) = do
  f ← proportional_fee_refund payment_amount (pos total) (pos (total + s))
  rest ← returned payment_amount (total + s) ss
  ok (record { base = f.base +ℤ rest.base; tax = f.tax +ℤ rest.tax })

slices_join :
    (k m r s t : ℕ)
    → 0 < m
    → r ≤ s
    → s ≤ t
    → (share k s m - share k r m) + (share k t m - share k s m) ≡ share k t m - share k r m
slices_join k m r s t h p q = omega (arith, share_mono k r s m h p, share_mono k s t m h q)

returned-eq :
    (c : Currency) (m total : ℕ) (ss : List ℕ)
    → 0 < m
    → m ≤ 9223372036854775807
    → total + sum ss ≤ m
    → returned (money (pos m) c) total ss ≡ ok (slice c m total (total + sum ss))
unfolding returned
returned-eq c m total [] h fits p = rw add-zero (ground arith)
returned-eq c m total (s ∷ ss) h fits p =
    let q : total + s + sum ss ≤ m = omega arith in
    let join = λ (k : ℕ).
      slices_join k m total (total + s) (total + s + sum ss) h (omega arith) (omega arith) in
    rw (
      ← add_assoc,
      proportional_fee_refund-eq c m total (total + s) h fits (omega arith) (omega arith),
      returned-eq c m (total + s) ss h fits q,
      +ℤ-pos,
      +ℤ-pos,
      join (base_fee c m),
      join (tax_fee c m),
    )

-- Refunds of any amounts that add up to the payment return, together, exactly the fee that was
-- charged on it, in both components.
pub slices_return_whole_fee :
    (c : Currency) (m : ℕ) (ss : List ℕ) {fees : FeeBreakdown}
    → 0 < m
    → m ≤ 9223372036854775807
    → sum ss ≡ m
    → compute (for_currency c) (money (pos m) c) ≡ ok fees
    → returned (money (pos m) c) 0 ss ≡ ok (record { base = fees.base; tax = fees.tax })
slices_return_whole_fee c m ss h fits whole charged = ground (
  arith,
  compute-eq c m fits,
  returned-eq c m 0 ss h fits (omega arith),
  share-zero (base_fee c m) m h,
  share-zero (tax_fee c m) m h,
  share-whole (base_fee c m) m h,
  share-whole (tax_fee c m) m h,
)
