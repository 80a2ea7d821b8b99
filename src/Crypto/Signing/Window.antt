-- ===== src/Crypto/Signing/Window.antt =====
-- What `verify` accepts: the MAC of the body at the header's own timestamp, and a timestamp in the window.
use payment_gateway_sandbox.Prelude.{
  ℕ, zero, suc, ◌+◌, ◌≤◌, ◌<◌, ◌≡◌, ◌⊎◌, arith, Bool, true, false, Bool-cases, Option-cases, Option,
  none, some, List, [], ◌∷◌, leb, ◌==◌, inl, inr,
}
use mathlib.Core.Path.{subst}
use payment_gateway_sandbox.Prelude.Int.{
  ℤ, pos, pos_part, neg_part, ◌+ℤ◌, ◌-ℤ◌, ◌≤ℤ◌, ltb_ℤ, IsI64, wrap_i64, wrap_i64-eq, int_laws,
  -ℤ_parts, +ℤ_parts, parts_disjoint, eq_of_parts,
}
use payment_gateway_sandbox.Prelude.Bytes.{Bytes, eq_bytes, split_once}
use payment_gateway_sandbox.Prelude.Text.{trim}
use payment_gateway_sandbox.Prelude.Text.Decimal.{parse_i64, signed, read_ℕ}
use payment_gateway_sandbox.Prelude.Result.{ok}
use payment_gateway_sandbox.Crypto.Signing.{abs_i64, parse_parts, timestamp_after, signature_after}

abbrev pub InWindow : ℤ → ℤ → ℤ → Type 0
InWindow now t tolerance = (now ≤ℤ t +ℤ tolerance) × (t ≤ℤ now +ℤ tolerance)

-- A time of day that a server has, and a tolerance: neither negative, and less than 2 ^ 62 seconds.
abbrev pub IsModest : ℤ → Type 0
IsModest a = (neg_part a ≡ 0) × (pos_part a < 4611686018427387904)

abs_i64-eq :
    (a : ℤ)
    → pos_part a + neg_part a ≤ 9223372036854775807
    → abs_i64 a ≡ pos (pos_part a + neg_part a)
unfolding abs_i64
abs_i64-eq a h = wrap_i64-eq (pos (pos_part a + neg_part a)) (h, omega arith)

-- Whether the drift exceeds the tolerance.
abbrev pub late : ℤ → ℤ → ℤ → Bool
late now t tolerance = ltb_ℤ tolerance (abs_i64 (wrap_i64 (now -ℤ t)))

not_late :
    (d tolerance : ℤ)
    → pos_part d ≤ pos_part tolerance
    → neg_part d ≤ pos_part tolerance
    → IsModest tolerance
    → ltb_ℤ tolerance (abs_i64 (wrap_i64 d)) ≡ false
not_late d tolerance h k m =
    rw (wrap_i64-eq d (omega arith, omega arith))
      (rw (abs_i64-eq d (omega (arith, parts_disjoint d))) (ground (arith, parts_disjoint d)))

-- A difference that overflows wraps to a large one, except 2 ^ 63, whose absolute value stays negative.
overflowed :
    (m : ℕ) (tolerance : ℤ)
    → 9223372036854775808 ≤ m
    → m < 13835058055282163712
    → IsModest tolerance
    → ltb_ℤ tolerance (abs_i64 (wrap_i64 (pos m))) ≡ false
    → m ≡ 9223372036854775808
unfolding abs_i64 wrap_i64
overflowed m tolerance h k t e = ground arith

overflowed_least :
    (tolerance : ℤ)
    → IsModest tolerance
    → ltb_ℤ tolerance (abs_i64 (wrap_i64 (pos 9223372036854775808))) ≡ false
unfolding abs_i64 wrap_i64
overflowed_least tolerance t = ground arith

not_late-small :
    (d tolerance : ℤ)
    → pos_part d + neg_part d ≤ 9223372036854775807
    → IsModest tolerance
    → ltb_ℤ tolerance (abs_i64 (wrap_i64 d)) ≡ false
    → (pos_part d ≤ pos_part tolerance) × (neg_part d ≤ pos_part tolerance)
not_late-small d tolerance h m e =
    let w = wrap_i64-eq d (omega arith, omega arith) in
    let q : abs_i64 (wrap_i64 d) ≡ pos (pos_part d + neg_part d) = rw w (abs_i64-eq d h) in
    let f = subst (λ (x : ℤ). ltb_ℤ tolerance x ≡ false) q e in ground (arith, f)

-- The one timestamp outside the window that the check lets through.
abbrev pub far_past : ℤ → ℤ
far_past now = now -ℤ pos 9223372036854775808

pub late-window :
    (now t tolerance : ℤ)
    → IsModest now
    → IsModest tolerance
    → IsI64 t
    → late now t tolerance ≡ false
    → InWindow now t tolerance ⊎ (t ≡ far_past now)
late-window now t tolerance n m i e =
    elim (Bool-cases (leb (pos_part (now -ℤ t) + neg_part (now -ℤ t)) 9223372036854775807)) [
      | inl small ↦
          let s = not_late-small (now -ℤ t) tolerance (ground arith) m e in
          inl (omega (int_laws, s), omega (int_laws, s))
      | inr large ↦
          let big : 9223372036854775808 ≤ pos_part (now -ℤ t) + neg_part (now -ℤ t) =
            ground arith in
          let none_negative : neg_part (now -ℤ t) ≡ 0 =
            omega (arith, parts_disjoint (now -ℤ t), -ℤ_parts now t) in
          let whole : now -ℤ t ≡ pos (pos_part (now -ℤ t)) =
            eq_of_parts (now -ℤ t) (pos (pos_part (now -ℤ t))) (omega arith) in
          let least =
            overflowed (pos_part (now -ℤ t)) tolerance (omega arith) (omega (arith, -ℤ_parts now t))
              m (rw (← whole) e) in
          inr (
            eq_of_parts t (far_past now) (
              omega (
                arith,
                -ℤ_parts now t,
                -ℤ_parts now (pos 9223372036854775808),
                parts_disjoint t,
                parts_disjoint (far_past now),
                least,
              )))
    ]

pub window-late :
    (now t tolerance : ℤ)
    → IsModest now
    → IsModest tolerance
    → InWindow now t tolerance ⊎ (t ≡ far_past now)
    → late now t tolerance ≡ false
window-late now t tolerance n m (inl w) =
    not_late (now -ℤ t) tolerance
      (omega (
        arith,
        -ℤ_parts now t,
        +ℤ_parts t tolerance,
        +ℤ_parts now tolerance,
        parts_disjoint (now -ℤ t),
        w,
      ))
      (omega (
        arith,
        -ℤ_parts now t,
        +ℤ_parts t tolerance,
        +ℤ_parts now tolerance,
        parts_disjoint (now -ℤ t),
        w,
      ))
      m
window-late now t tolerance n m (inr e) =
    let d : now -ℤ t ≡ pos 9223372036854775808 =
      eq_of_parts (now -ℤ t) (pos 9223372036854775808) (
        rw e
          (omega (arith, -ℤ_parts now (far_past now), -ℤ_parts now (pos 9223372036854775808)))) in
    rw d (overflowed_least tolerance m)

signed-IsI64 : (negative : Bool) (o : Option ℕ) (a : ℤ) → signed negative o ≡ some a → IsI64 a
signed-IsI64 negative none a h = cc
signed-IsI64 true (some zero) a h = ground arith
signed-IsI64 true (some (suc n)) a h = ground arith
signed-IsI64 false (some n) a h = ground arith

-- The timestamps that are read are 64-bit integers.
parse_i64-IsI64 : (s : Bytes) (a : ℤ) → parse_i64 s ≡ some a → IsI64 a
unfolding parse_i64
parse_i64-IsI64 [] a h = cc
parse_i64-IsI64 (c ∷ cs) a h = elim (Bool-cases (c == b'-')) [
  | inl m ↦ signed-IsI64 true (read_ℕ cs) a (rw m at h)
  | inr m ↦ elim (Bool-cases (c == b'+')) [
    | inl p ↦ signed-IsI64 false (read_ℕ cs) a (rw (m, p) at h)
    | inr p ↦ signed-IsI64 false (read_ℕ (c ∷ cs)) a (rw (m, p) at h)
  ]
]

abbrev pub All64 : Option ℤ → Type 0
All64 none = Unit {0}
All64 (some a) = IsI64 a

timestamp_after-All64 : (k v : Bytes) (o : Option ℤ) → All64 o → All64 (timestamp_after k v o)
timestamp_after-All64 k v o h = elim (Bool-cases (eq_bytes k (b't' ∷ []))) [
  | inl e ↦ elim (Option-cases (parse_i64 v)) [
    | inl n ↦ rw (e, n) tt
    | inr (a, p) ↦ rw (e, p) (parse_i64-IsI64 v a p)
  ]
  | inr e ↦ rw e h
]

pub parse_parts-IsI64 :
    (timestamp : Option ℤ) (signature : Option Bytes) (parts : List Bytes) (t : ℤ) (s : Bytes)
    → All64 timestamp
    → parse_parts timestamp signature parts ≡ ok (t, s)
    → IsI64 t
unfolding parse_parts
parse_parts-IsI64 none signature [] t s i h = cc
parse_parts-IsI64 (some a) none [] t s i h = cc
parse_parts-IsI64 (some a) (some b) [] t s i h = let e : a ≡ t = cc in subst IsI64 e i
parse_parts-IsI64 timestamp signature (p ∷ ps) t s i h =
    elim (Option-cases (split_once b'=' (trim p))) [
      | inl e ↦ ground arith
      | inr (kv, e) ↦
          parse_parts-IsI64 (timestamp_after kv.0 kv.1 timestamp)
            (signature_after kv.0 kv.1 signature) ps t s
            (timestamp_after-All64 kv.0 kv.1 timestamp i) (rw e at h)
    ]
