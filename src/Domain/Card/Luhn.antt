-- ===== src/Domain/Card/Luhn.antt =====
-- The Luhn check finds every mistyped digit.
use payment_gateway_sandbox.Prelude.{
  ℕ, ◌+◌, ◌-◌, ◌≤◌, ◌≡◌, ◌≢◌, refl, arith, Bool, true, false, not, List, [], ◌∷◌, ◌++◌,
}
use payment_gateway_sandbox.Prelude.Lists.{length, length-append}
use payment_gateway_sandbox.Domain.Card.{
  is_ascii_digit, nums_of, luhn_value, luhn_sum, rev_onto, luhn_valid,
}
use mathlib.Core.List.{append_assoc}

-- What doubling makes of a digit is a digit again, and another one for another digit.
luhn_value_lt : (b : Bool) (d : ℕ) → d ≤ 9 → luhn_value b d ≤ 9
unfolding luhn_value
luhn_value_lt b d h = ground arith

luhn_value_injective :
    (b : Bool) (d e : ℕ) → d ≤ 9 → e ≤ 9 → luhn_value b d ≡ luhn_value b e → d ≡ e
unfolding luhn_value
luhn_value_injective b d e h k p = ground arith

luhn_sum-acc : (ds : List ℕ) (b : Bool) (s : ℕ) → luhn_sum ds b s ≡ s + luhn_sum ds b 0
unfolding luhn_sum
luhn_sum-acc [] b s = omega arith
luhn_sum-acc (d ∷ ds) b s = omega (
  arith,
  luhn_sum-acc ds (not b) (s + luhn_value b d),
  luhn_sum-acc ds (not b) (0 + luhn_value b d),
)

-- The sum as a function of one digit: a constant, and what that digit adds in its place.
luhn_sum-place :
    (rs ss : List ℕ) (b : Bool) (s : ℕ)
    → (k : ℕ) × (b' : Bool) × ((x : ℕ) → luhn_sum (rs ++ x ∷ ss) b s ≡ k + luhn_value b' x)
unfolding luhn_sum
luhn_sum-place [] ss b s =
    (s + luhn_sum ss (not b) 0, b, λ x. omega (arith, luhn_sum-acc ss (not b) (s + luhn_value b x)))
luhn_sum-place (r ∷ rs) ss b s = luhn_sum-place rs ss (not b) (s + luhn_value b r)

nums_of-append : (xs ys : List ℕ) → nums_of (xs ++ ys) ≡ nums_of xs ++ nums_of ys
unfolding nums_of
nums_of-append [] ys = refl
nums_of-append (x ∷ xs) ys = ground (arith, nums_of-append xs ys)

rev_onto-append : (xs ys acc : List ℕ) → rev_onto (xs ++ ys) acc ≡ rev_onto ys (rev_onto xs acc)
unfolding rev_onto
rev_onto-append [] ys acc = refl
rev_onto-append (x ∷ xs) ys acc = rev_onto-append xs ys (x ∷ acc)

rev_onto-acc : (xs acc : List ℕ) → rev_onto xs acc ≡ rev_onto xs [] ++ acc
unfolding rev_onto
rev_onto-acc [] acc = refl
rev_onto-acc (x ∷ xs) acc =
    rw (rev_onto-acc xs (x ∷ acc), rev_onto-acc xs (x ∷ []), append_assoc) refl

-- The numbers of a text with one digit in a given place, from the right.
reversed :
    (pre post : List ℕ) (c : ℕ)
    → is_ascii_digit c ≡ true
    → rev_onto (nums_of (pre ++ c ∷ post)) []
      ≡ rev_onto (nums_of post) [] ++ (c - 48) ∷ rev_onto (nums_of pre) []
unfolding nums_of rev_onto
reversed pre post c h =
    rw (nums_of-append pre (c ∷ post), h, rev_onto-append (nums_of pre))
      (rev_onto-acc (nums_of post) _)

same_length :
    (pre post : List ℕ) (c d : ℕ)
    → is_ascii_digit c ≡ true
    → is_ascii_digit d ≡ true
    → length (nums_of (pre ++ c ∷ post)) ≡ length (nums_of (pre ++ d ∷ post))
unfolding nums_of
same_length pre post c d h k =
    rw (nums_of-append pre (c ∷ post), nums_of-append pre (d ∷ post), h, k)
      (rw (length-append (nums_of pre), length-append (nums_of pre)) refl)

-- A number that passes the check fails it when any one digit is replaced by another digit, whatever
-- stands around that digit.
pub luhn_detects_a_changed_digit :
    (pre post : List ℕ) (c d : ℕ)
    → is_ascii_digit c ≡ true
    → is_ascii_digit d ≡ true
    → c ≢ d
    → luhn_valid (pre ++ c ∷ post) ≡ true
    → luhn_valid (pre ++ d ∷ post) ≡ false
unfolding luhn_valid
luhn_detects_a_changed_digit pre post c d hc hd ne valid =
    let (k, b, place) =
      luhn_sum-place (rev_onto (nums_of post) []) (rev_onto (nums_of pre) []) false 0 in
    let x : ℕ = c - 48 in
    let y : ℕ = d - 48 in
    ground (
      arith,
      reversed pre post c hc,
      reversed pre post d hd,
      same_length pre post c d hc hd,
      place x,
      place y,
      luhn_value_lt b x,
      luhn_value_lt b y,
      luhn_value_injective b x y,
    )
