-- ===== src/Crypto/Signing/Header.antt =====
-- What `parse_header` reads back: the header that `build_header` makes, and a header with parts of versions
-- that are not known.
use payment_gateway_sandbox.Prelude.{
  ℕ, ◌≡◌, refl, ◌∙◌, arith, Bool, true, false, Bool-cases, Option-cases, not, ◌&&◌, ◌||◌, Option,
  none, some, List, [], ◌∷◌, ◌++◌, leb, ◌==◌, inl, inr,
}
use payment_gateway_sandbox.Prelude.Int.{ℤ, IsI64}
use payment_gateway_sandbox.Prelude.Bytes.{Bytes, eq_bytes, all_bytes, lacks, split_once}
use payment_gateway_sandbox.Prelude.Text.{
  is_whitespace, trim, split, split-append, split-lacks, trim-solid, all_bytes-imp,
  all_bytes-append, onto_first,
}
use payment_gateway_sandbox.Prelude.Text.Decimal.{
  print_i64, is_digit, is_numeral, print_i64-numeral, parse_i64-print_i64,
}
use payment_gateway_sandbox.Prelude.Result.{ok}
use payment_gateway_sandbox.Crypto.Signing.{
  Libraries, parse_header, parse_parts, build_header, compute, timestamp_after, signature_after,
}

-- The digits that the hexadecimal coding writes.
abbrev pub is_hex_digit : ℕ → Bool
is_hex_digit c = is_digit c || (leb b'a' c && leb c b'f')

abbrev pub is_solid : ℕ → Bool
is_solid c = not (is_whitespace c)

abbrev is_plain : ℕ → Bool
is_plain c = not (is_whitespace c) && not (c == b',')

plain-solid : (s : Bytes) → all_bytes is_plain s ≡ true → all_bytes is_solid s ≡ true
plain-solid s = all_bytes-imp is_plain is_solid s (λ c h. ground arith)

plain-lacks : (s : Bytes) → all_bytes is_plain s ≡ true → lacks b',' s ≡ true
plain-lacks s = all_bytes-imp is_plain (λ x. not (x == b',')) s (λ c h. ground arith)

numeral-plain : (c : ℕ) → is_numeral c ≡ true → is_plain c ≡ true
numeral-plain c h = ground arith

hex-plain : (c : ℕ) → is_hex_digit c ≡ true → is_plain c ≡ true
hex-plain c h = ground arith

abbrev timestamp_part : ℤ → Bytes
timestamp_part t = b't' ∷ b'=' ∷ print_i64 t

timestamp_part-plain : (t : ℤ) → all_bytes is_plain (timestamp_part t) ≡ true
unfolding all_bytes
timestamp_part-plain t =
    all_bytes-imp is_numeral is_plain (print_i64 t) numeral-plain (print_i64-numeral t)

abbrev signature_part : Bytes → Bytes
signature_part s = b'v' ∷ b'1' ∷ b'=' ∷ s

signature_part-plain :
    (s : Bytes) → all_bytes is_hex_digit s ≡ true → all_bytes is_plain (signature_part s) ≡ true
unfolding all_bytes
signature_part-plain s h = all_bytes-imp is_hex_digit is_plain s hex-plain h

parse_parts-pair :
    (t : ℤ) (s : Bytes)
    → IsI64 t
    → all_bytes is_hex_digit s ≡ true
    → parse_parts none none (timestamp_part t ∷ signature_part s ∷ []) ≡ ok (t, s)
unfolding parse_parts split_once eq_bytes
parse_parts-pair t s i h =
    rw (trim-solid (timestamp_part t) (plain-solid (timestamp_part t) (timestamp_part-plain t))) (
      rw (trim-solid (signature_part s) (plain-solid (signature_part s) (signature_part-plain s h)))
        (rw (parse_i64-print_i64 t i) refl))

split-pair :
    (t : ℤ) (s : Bytes)
    → all_bytes is_hex_digit s ≡ true
    → split b',' (timestamp_part t ++ b',' ∷ signature_part s)
      ≡ timestamp_part t ∷ signature_part s ∷ []
split-pair t s h =
    split-append b',' (timestamp_part t) (signature_part s)
      (plain-lacks (timestamp_part t) (timestamp_part-plain t))
    ∙ rw
        (split-lacks b',' (signature_part s)
          (plain-lacks (signature_part s) (signature_part-plain s h)))
        refl

-- The header of a timestamp and a signature is read back.
pub parse_header-build_header :
    (lib : Libraries) (secret : Bytes) (t : ℤ) (payload : Bytes)
    → IsI64 t
    → all_bytes is_hex_digit (compute lib secret t payload) ≡ true
    → parse_header (build_header lib secret t payload) ≡ ok (t, compute lib secret t payload)
unfolding parse_header build_header
parse_header-build_header lib secret t payload i h =
    rw (split-pair t (compute lib secret t payload) h)
      (parse_parts-pair t (compute lib secret t payload) i h)

-- A part that both arms leave alone.
abbrev pub IsUnknown : Bytes → Bytes → Type 0
IsUnknown k v =
    (eq_bytes k (b't' ∷ []) ≡ false)
    × (eq_bytes k (b'v' ∷ b'1' ∷ []) ≡ false)
    × (all_bytes (λ c. is_plain c && not (c == b'=')) k ≡ true)
    × (all_bytes is_plain v ≡ true)

abbrev pub part_of : Bytes → Bytes → Bytes
part_of k v = k ++ b'=' ∷ v

split_once-append :
    (c : ℕ) (k v : Bytes) → lacks c k ≡ true → split_once c (k ++ c ∷ v) ≡ some (k, v)
unfolding split_once all_bytes
split_once-append c [] v h = ground arith
split_once-append c (x ∷ xs) v h = ground (arith, split_once-append c xs v)

part-plain : (k v : Bytes) → IsUnknown k v → all_bytes is_plain (part_of k v) ≡ true
part-plain k v u =
    all_bytes-append is_plain k (b'=' ∷ v)
    ∙ rw (all_bytes-imp (λ c. is_plain c && not (c == b'=')) is_plain k (λ c h. ground arith) u.2)
        (unfold all_bytes in u.3)

read_part : (k v : Bytes) → IsUnknown k v → split_once b'=' (trim (part_of k v)) ≡ some (k, v)
read_part k v u = rw (trim-solid (part_of k v) (plain-solid (part_of k v) (part-plain k v u))) (
    split_once-append b'=' k v (
      all_bytes-imp (λ c. is_plain c && not (c == b'=')) (λ x. not (x == b'=')) k
        (λ c h. ground arith) u.2))

parse_parts-unknown :
    (k v : Bytes) (timestamp : Option ℤ) (signature : Option Bytes) (parts : List Bytes)
    → IsUnknown k v
    → parse_parts timestamp signature (parts ++ part_of k v ∷ [])
      ≡ parse_parts timestamp signature parts
unfolding parse_parts
parse_parts-unknown k v timestamp signature [] u = rw (read_part k v u) (rw (u.0, u.1) refl)
parse_parts-unknown k v timestamp signature (p ∷ ps) u =
    elim (Option-cases (split_once b'=' (trim p))) [
      | inl e ↦ rw e refl
      | inr (kv, e) ↦ rw e (
          parse_parts-unknown k v (timestamp_after kv.0 kv.1 timestamp)
            (signature_after kv.0 kv.1 signature) ps u)
    ]

onto_first-cons :
    (x : ℕ) (ps : List Bytes) → (q : Bytes) × (qs : List Bytes) × (onto_first x ps ≡ q ∷ qs)
onto_first-cons x [] = (x ∷ [], [], refl)
onto_first-cons x (p ∷ ps) = (x ∷ p, ps, refl)

-- A text has a first part.
split-cons : (c : ℕ) (s : Bytes) → (q : Bytes) × (qs : List Bytes) × (split c s ≡ q ∷ qs)
unfolding split
split-cons c [] = ([], [], refl)
split-cons c (x ∷ xs) = elim (Bool-cases (x == c)) [
  | inl e ↦ ([], split c xs, rw e refl)
  | inr e ↦ let (q, qs, h) = onto_first-cons x (split c xs) in (q, qs, rw e h)
]

split-last : (c : ℕ) (s q : Bytes) → lacks c q ≡ true → split c (s ++ c ∷ q) ≡ split c s ++ q ∷ []
unfolding split
split-last c [] q h = ground (arith, split-lacks c q h)
split-last c (x ∷ xs) q h =
    let ih = split-last c xs q h in
    let (p, ps, e) = split-cons c xs in
    elim (Bool-cases (x == c)) [ inl y ↦ rw (y, ih) refl | inr n ↦ rw (n, ih, e) refl ]

-- A part of a version that is not known, at the end of a header, changes nothing.
pub unknown_versions_are_ignored :
    (header k v : Bytes)
    → IsUnknown k v
    → parse_header (header ++ b',' ∷ part_of k v) ≡ parse_header header
unfolding parse_header
unknown_versions_are_ignored header k v u =
    rw (split-last b',' header (part_of k v) (plain-lacks (part_of k v) (part-plain k v u)))
      (parse_parts-unknown k v none none (split b',' header) u)
