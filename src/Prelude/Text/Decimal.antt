-- ===== src/Prelude/Text/Decimal.antt =====
-- The decimal texts of 64-bit integers: `to_string` and `parse::<i64>`.
use payment_gateway_sandbox.Prelude.Tests.{ltb, leb, ◌==◌, if◌then◌else◌, Bool-cases}
use Prim.Native.Nat.{ℕ, zero, suc, ◌+◌, ◌-◌, ◌*◌, ◌/◌, ◌%◌, ◌≤◌, ◌<◌}
use mathlib.Core.Path.{◌≡◌, refl, ◌∙◌}
use mathlib.Core.Logic.{inl, inr}
use mathlib.Core.Bool.{Bool, true, false, ◌&&◌, ◌||◌}
use mathlib.Core.Option.{Option, none, some}
use mathlib.Core.List.{[], ◌∷◌}
use native.Mathlib.Omega.{arith}
use payment_gateway_sandbox.Prelude.Int.{ℤ, pos, negsuc, IsI64, in_i64}
use payment_gateway_sandbox.Prelude.Bytes.{Bytes, all_bytes}

-- The digits in front of a text, on fuel for one digit each.
unfoldable pub print_digits : ℕ → ℕ → Bytes → Bytes
print_digits zero n out = out
print_digits (suc fuel) n out =
    let more = print_digits fuel (n / 10) ((48 + n % 10) ∷ out) in
    if ltb n 10 then (48 + n) ∷ out else more

-- No number of 64 bits has more than twenty digits.
unfoldable pub print_ℕ : ℕ → Bytes
unfolding print_digits
print_ℕ n = print_digits 20 n []

-- `i64::to_string`
unfoldable pub print_i64 : ℤ → Bytes
unfolding print_ℕ
print_i64 (pos n) = print_ℕ n
print_i64 (negsuc n) = b'-' ∷ print_ℕ (suc n)

abbrev pub is_digit : ℕ → Bool
is_digit c = leb 48 c && leb c 57

unfoldable pub read_digits : ℕ → Bytes → Option ℕ
read_digits n [] = some n
read_digits n (c ∷ cs) =
    let rest = read_digits (n * 10 + (c - 48)) cs in if is_digit c then rest else none

-- At least one digit.
abbrev pub read_ℕ : Bytes → Option ℕ
read_ℕ [] = none
read_ℕ (c ∷ cs) = read_digits 0 (c ∷ cs)

abbrev pub within : ℤ → Option ℤ
within a = if in_i64 a then some a else none

abbrev pub signed : Bool → Option ℕ → Option ℤ
signed negative none = none
signed true (some zero) = some (pos 0)
signed true (some (suc n)) = within (negsuc n)
signed false (some n) = within (pos n)

-- `str::parse::<i64>`: a sign, if there is one, and digits whose number fits.
unfoldable pub parse_i64 : Bytes → Option ℤ
unfolding read_digits
parse_i64 [] = none
parse_i64 (c ∷ cs) =
    if c == b'-'
    then signed true (read_ℕ cs)
    else if c == b'+'
    then signed false (read_ℕ cs)
    else signed false (read_ℕ (c ∷ cs))

-- The first number that a fuel does not print.
abbrev bound : ℕ → ℕ
bound zero = 1
bound (suc fuel) = 10 * bound fuel

read_digits-print_digits :
    (fuel n : ℕ) (out : Bytes)
    → n < bound fuel
    → read_digits 0 (print_digits fuel n out) ≡ read_digits n out
unfolding print_digits read_digits
read_digits-print_digits zero n out h = let e : n ≡ 0 = omega arith in rw e refl
read_digits-print_digits (suc fuel) n out h = elim (Bool-cases (ltb n 10)) [
  | inl e ↦ ground arith
  | inr e ↦ ground (arith, read_digits-print_digits fuel (n / 10) ((48 + n % 10) ∷ out))
]

-- What is printed consists of digits, and of one at least.
print_digits-digits :
    (fuel n : ℕ) (out : Bytes)
    → all_bytes is_digit out ≡ true
    → all_bytes is_digit (print_digits fuel n out) ≡ true
unfolding print_digits all_bytes
print_digits-digits zero n out h = h
print_digits-digits (suc fuel) n out h =
    ground (arith, print_digits-digits fuel (n / 10) ((48 + n % 10) ∷ out))

abbrev starts_with_digit : Bytes → Bool
starts_with_digit [] = false
starts_with_digit (c ∷ _) = is_digit c

print_digits-starts :
    (fuel n : ℕ) (out : Bytes)
    → starts_with_digit out ≡ true
    → starts_with_digit (print_digits fuel n out) ≡ true
unfolding print_digits
print_digits-starts zero n out h = h
print_digits-starts (suc fuel) n out h =
    ground (arith, print_digits-starts fuel (n / 10) ((48 + n % 10) ∷ out))

print_ℕ-starts : (n : ℕ) → starts_with_digit (print_ℕ n) ≡ true
unfolding print_ℕ print_digits
print_ℕ-starts n = ground (arith, print_digits-starts 19 (n / 10) ((48 + n % 10) ∷ []))

read_ℕ-digits : (s : Bytes) → starts_with_digit s ≡ true → read_ℕ s ≡ read_digits 0 s
read_ℕ-digits [] h = cc
read_ℕ-digits (c ∷ cs) h = refl

read_ℕ-print_ℕ : (n : ℕ) → n ≤ 9223372036854775808 → read_ℕ (print_ℕ n) ≡ some n
unfolding print_ℕ read_digits
read_ℕ-print_ℕ n h =
    read_ℕ-digits (print_ℕ n) (print_ℕ-starts n) ∙ read_digits-print_digits 20 n [] (omega arith)

-- A text that starts with a digit has no sign.
parse_i64-unsigned :
    (s : Bytes) → starts_with_digit s ≡ true → parse_i64 s ≡ signed false (read_ℕ s)
unfolding parse_i64
parse_i64-unsigned [] h = cc
parse_i64-unsigned (c ∷ cs) h = ground arith

-- Every 64-bit integer is read back from its text.
pub parse_i64-print_i64 : (a : ℤ) → IsI64 a → parse_i64 (print_i64 a) ≡ some a
unfolding print_i64
parse_i64-print_i64 (pos n) h =
    parse_i64-unsigned (print_ℕ n) (print_ℕ-starts n)
    ∙ rw (read_ℕ-print_ℕ n (omega arith)) (ground arith)
parse_i64-print_i64 (negsuc n) h =
    unfold parse_i64 in rw (read_ℕ-print_ℕ (suc n) (omega arith)) (ground arith)

abbrev pub is_numeral : ℕ → Bool
is_numeral c = is_digit c || c == b'-'

digits-numeral : (s : Bytes) → all_bytes is_digit s ≡ true → all_bytes is_numeral s ≡ true
unfolding all_bytes
digits-numeral [] h = refl
digits-numeral (c ∷ cs) h = ground (arith, digits-numeral cs)

-- The text of an integer has no other characters than digits and the minus.
pub print_i64-numeral : (a : ℤ) → all_bytes is_numeral (print_i64 a) ≡ true
unfolding print_i64 print_ℕ all_bytes
print_i64-numeral (pos n) = digits-numeral (print_digits 20 n []) (print_digits-digits 20 n [] refl)
print_i64-numeral (negsuc n) =
    digits-numeral (print_digits 20 (suc n) []) (print_digits-digits 20 (suc n) [] refl)
