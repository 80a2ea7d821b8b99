-- ===== src/Domain/Money/Percent.antt =====
-- `Money::percent`: what it rounds to, and the shares of a total that it deals out.
use payment_gateway_sandbox.Prelude.{ℕ, ◌+◌, ◌*◌, ◌/◌, ◌≤◌, ◌<◌, ◌≡◌, arith}
use payment_gateway_sandbox.Prelude.Int.{pos, ◌*ℤ◌, ◌+ℤ◌, quot, to_i64-some}
use payment_gateway_sandbox.Prelude.Result.{ok}
use payment_gateway_sandbox.Domain.Money.{Currency, money, round_quot, percent}
use native.Mathlib.Nat.{
  div-mul-le_self, le-div_iff_mul-le, mul-add-div_right, mul-le-mul_left, div-eq_of_lt,
}

-- x / d, rounded half up.
unfoldable pub half_up : ℕ → ℕ → ℕ
half_up x d = (x + d / 2) / d

pub *ℤ-pos : (a b : ℕ) → pos a *ℤ pos b ≡ pos (a * b)
unfolding ◌*ℤ◌
*ℤ-pos a b = ground arith

pub +ℤ-pos : (a b : ℕ) → pos a +ℤ pos b ≡ pos (a + b)
unfolding ◌+ℤ◌
+ℤ-pos a b = ground arith

pub round_quot-pos : (x d : ℕ) → round_quot (pos x) (pos d) ≡ pos (half_up x d)
unfolding round_quot quot half_up
round_quot-pos x d = ground (arith, +ℤ-pos x (d / 2))

pub half_up_bounds :
    (x d : ℕ) → 0 < d → (2 * (half_up x d * d) ≤ 2 * x + d) × (2 * x < 2 * (half_up x d * d) + d)
unfolding half_up
half_up_bounds x d h = omega arith

pub half_up_mono : (x y d : ℕ) → 0 < d → x ≤ y → half_up x d ≤ half_up y d
unfolding half_up
half_up_mono x y d p h = (le-div_iff_mul-le p).1 (omega (arith, div-mul-le_self (x + d / 2) d))

pub half_up-zero : (d : ℕ) → 0 < d → half_up 0 d ≡ 0
unfolding half_up
half_up-zero d h = div-eq_of_lt (omega arith)

pub half_up-mul_self : (c d : ℕ) → 0 < d → half_up (c * d) d ≡ c
unfolding half_up
half_up-mul_self c d h =
    rw (mul-add-div_right h c (d / 2))
      (omega (arith, div-eq_of_lt {n = d / 2} {m = d} (omega arith)))

pub half_up-share_le : (c r d : ℕ) → 0 < d → r ≤ d → half_up (c * r) d ≤ c
half_up-share_le c r d h k =
    let bound : half_up (c * r) d ≤ half_up (c * d) d =
      half_up_mono (c * r) (c * d) d h (mul-le-mul_left c k) in
    omega (arith, bound, half_up-mul_self c d h)

-- A percentage of a non-negative amount, where the result fits.
pub percent-pos :
    (m n d : ℕ) (c : Currency)
    → 0 < d
    → half_up (m * n) d ≤ 9223372036854775807
    → percent (money (pos m) c) (pos n) (pos d) ≡ ok (money (pos (half_up (m * n) d)) c)
unfolding percent
percent-pos m n d c h fits =
    ground (arith, *ℤ-pos m n, round_quot-pos (m * n) d, to_i64-some (pos (half_up (m * n) d)))
