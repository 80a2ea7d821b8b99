-- ===== src/Prelude/Bytes.antt =====
-- Texts that the program walks byte by byte, as lists of numbers.
use Prim.Native.Nat.{ℕ}
use mathlib.Core.Path.{◌≡◌, refl}
use mathlib.Core.Bool.{Bool, true, false, ◌&&◌, not}
use mathlib.Core.Option.{Option, none, some}
use mathlib.Core.List.{List, [], ◌∷◌, ◌++◌}
use native.Mathlib.Omega.{arith}
use payment_gateway_sandbox.Prelude.Tests.{◌==◌, if◌then◌else◌}

abbrev pub Bytes : Type 0
Bytes = List ℕ

unfoldable pub eq_bytes : Bytes → Bytes → Bool
eq_bytes [] [] = true
eq_bytes (x ∷ xs) (y ∷ ys) = x == y && eq_bytes xs ys
eq_bytes _ _ = false

-- `bytes().all(…)`
unfoldable pub all_bytes : (ℕ → Bool) → Bytes → Bool
all_bytes p [] = true
all_bytes p (x ∷ xs) = p x && all_bytes p xs

unfoldable pub starts_with : Bytes → Bytes → Bool
starts_with xs [] = true
starts_with [] (y ∷ ys) = false
starts_with (x ∷ xs) (y ∷ ys) = x == y && starts_with xs ys

-- `str::split_once` at a byte
abbrev onto : ℕ → Option (Bytes × Bytes) → Option (Bytes × Bytes)
onto x none = none
onto x (some (a, b)) = some (x ∷ a, b)

unfoldable pub split_once : ℕ → Bytes → Option (Bytes × Bytes)
split_once c [] = none
split_once c (x ∷ xs) =
    let rest = onto x (split_once c xs) in if x == c then some ([], xs) else rest

pub eq_bytes_sound : (xs ys : Bytes) → eq_bytes xs ys ≡ true → xs ≡ ys
unfolding eq_bytes
eq_bytes_sound [] [] h = refl
eq_bytes_sound [] (y ∷ ys) h = cc
eq_bytes_sound (x ∷ xs) [] h = cc
eq_bytes_sound (x ∷ xs) (y ∷ ys) h = ground (arith, eq_bytes_sound xs ys)

pub eq_bytes_refl : (xs : Bytes) → eq_bytes xs xs ≡ true
unfolding eq_bytes
eq_bytes_refl [] = refl
eq_bytes_refl (x ∷ xs) = ground (arith, eq_bytes_refl xs)

abbrev pub lacks : ℕ → Bytes → Bool
lacks c xs = all_bytes (λ x. not (x == c)) xs

-- What stands before and after the first separator is determined.
pub split_unique :
    (c : ℕ) (a a' b b' : Bytes)
    → lacks c a ≡ true
    → lacks c a' ≡ true
    → a ++ c ∷ b ≡ a' ++ c ∷ b'
    → (a ≡ a') × (b ≡ b')
unfolding all_bytes
split_unique c [] [] b b' h h' e = (refl, (cc))
split_unique c [] (x ∷ xs) b b' h h' e = ground arith
split_unique c (x ∷ xs) [] b b' h h' e = ground arith
split_unique c (x ∷ xs) (y ∷ ys) b b' h h' e =
    let p : (xs ≡ ys) × (b ≡ b') =
      split_unique c xs ys b b' (ground arith) (ground arith) (ground arith) in
    ground (arith, p)

pub lacks-append : (c : ℕ) (a b : Bytes) → lacks c (a ++ b) ≡ (lacks c a && lacks c b)
unfolding all_bytes
lacks-append c [] b = refl
lacks-append c (x ∷ xs) b = ground (arith, lacks-append c xs b)
