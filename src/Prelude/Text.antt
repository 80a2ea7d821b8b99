-- ===== src/Prelude/Text.antt =====
-- Texts as lists of their characters: `trim`, `split`, and the decimal texts of 64-bit integers.
pub mod Decimal
use payment_gateway_sandbox.Prelude.Tests.{ltb, leb, ◌==◌, if◌then◌else◌, Bool-cases}
use Prim.Native.Char.{code}
use Prim.Native.String
use Prim.Native.String.{String}
use Prim.Native.Nat.{ℕ, zero, suc, ◌+◌, ◌-◌, ◌*◌, ◌/◌, ◌%◌, ◌≤◌, ◌<◌}
use mathlib.Core.Path.{◌≡◌, refl}
use mathlib.Core.Logic.{inl, inr}
use mathlib.Core.Bool.{Bool, true, false, ◌&&◌, ◌||◌, not}
use mathlib.Core.Option.{Option, none, some}
use mathlib.Core.List.{List, [], ◌∷◌, ◌++◌}
use native.Mathlib.Omega.{arith}
use payment_gateway_sandbox.Prelude.Int.{ℤ, pos, negsuc}
use payment_gateway_sandbox.Prelude.Bytes.{Bytes, all_bytes, lacks}

-- `char::is_whitespace`
abbrev pub is_whitespace : ℕ → Bool
is_whitespace c =
    c == 32
    || (leb 9 c && leb c 13)
    || c == 133
    || c == 160
    || c == 5760
    || (leb 8192 c && leb c 8202)
    || c == 8232
    || c == 8233
    || c == 8239
    || c == 8287
    || c == 12288

unfoldable pub trim_start : Bytes → Bytes
trim_start [] = []
trim_start (c ∷ cs) = let rest = trim_start cs in if is_whitespace c then rest else c ∷ cs

abbrev pub blank_end : ℕ → Bytes → Bytes
blank_end c [] = if is_whitespace c then [] else c ∷ []
blank_end c (d ∷ ds) = c ∷ d ∷ ds

unfoldable pub trim_end : Bytes → Bytes
trim_end [] = []
trim_end (c ∷ cs) = blank_end c (trim_end cs)

-- `str::trim`
unfoldable pub trim : Bytes → Bytes
unfolding trim_start trim_end
trim s = trim_start (trim_end s)

abbrev pub onto_first : ℕ → List Bytes → List Bytes
onto_first x [] = (x ∷ []) ∷ []
onto_first x (part ∷ parts) = (x ∷ part) ∷ parts

-- `str::split` at a character
unfoldable pub split : ℕ → Bytes → List Bytes
split c [] = [] ∷ []
split c (x ∷ xs) = let rest = split c xs in if x == c then [] ∷ rest else onto_first x rest

pub all_bytes-imp :
    (p q : ℕ → Bool) (xs : Bytes)
    → ((x : ℕ) → p x ≡ true → q x ≡ true)
    → all_bytes p xs ≡ true
    → all_bytes q xs ≡ true
unfolding all_bytes
all_bytes-imp p q [] imp h = refl
all_bytes-imp p q (x ∷ xs) imp h = ground (arith, imp x, all_bytes-imp p q xs imp)

pub all_bytes-append :
    (p : ℕ → Bool) (xs ys : Bytes) → all_bytes p (xs ++ ys) ≡ (all_bytes p xs && all_bytes p ys)
unfolding all_bytes
all_bytes-append p [] ys = refl
all_bytes-append p (x ∷ xs) ys = ground (arith, all_bytes-append p xs ys)

-- A text without blanks is left whole.
trim_end-solid : (s : Bytes) → all_bytes (λ c. not (is_whitespace c)) s ≡ true → trim_end s ≡ s
unfolding trim_end all_bytes
trim_end-solid [] h = refl
trim_end-solid (x ∷ []) h = ground arith
trim_end-solid (x ∷ y ∷ ys) h =
    let rest : trim_end (y ∷ ys) ≡ y ∷ ys = trim_end-solid (y ∷ ys) (ground arith) in rw rest refl

trim_start-solid : (s : Bytes) → all_bytes (λ c. not (is_whitespace c)) s ≡ true → trim_start s ≡ s
unfolding trim_start all_bytes
trim_start-solid [] h = refl
trim_start-solid (x ∷ xs) h = ground arith

pub trim-solid : (s : Bytes) → all_bytes (λ c. not (is_whitespace c)) s ≡ true → trim s ≡ s
unfolding trim
trim-solid s h = rw (trim_end-solid s h) (trim_start-solid s h)

pub split-lacks : (c : ℕ) (s : Bytes) → lacks c s ≡ true → split c s ≡ s ∷ []
unfolding split all_bytes
split-lacks c [] h = refl
split-lacks c (x ∷ xs) h = ground (arith, split-lacks c xs)

-- A text in front of the first separator is the first part.
pub split-append :
    (c : ℕ) (s rest : Bytes) → lacks c s ≡ true → split c (s ++ c ∷ rest) ≡ s ∷ split c rest
unfolding split all_bytes
split-append c [] rest h = ground arith
split-append c (x ∷ xs) rest h = ground (arith, split-append c xs rest)

-- The characters of a text that the source writes out.
abbrev pub characters : String → Bytes
characters String.[] = []
characters (String.◌∷◌ c s) = code c ∷ characters s
