-- ===== src/Domain/Id.antt =====
-- Typed identifiers (crates/domain/src/id.rs). A uuid is a number; its text and the reading of a text as a
-- uuid come from the uuid library.
use payment_gateway_sandbox.Prelude.{
  ℕ, ◌≡◌, ◌≢◌, refl, arith, true, Option-cases, Option, none, some, [], ◌∷◌, ◌++◌, ◌==◌,
  if◌then◌else◌, inl, inr,
}
use payment_gateway_sandbox.Prelude.Bytes.{Bytes, lacks, all_bytes, split_unique}
use payment_gateway_sandbox.Prelude.Result.{Result, ok, err, ◌>>=◌, ok_or}

pub data Marker : Type 0 where
  payment_intent payment_method customer refund dispute merchant api_key event : Marker
  webhook_endpoint settlement ledger_transaction job order payment ledger_account : Marker

-- `Prefixed::PREFIX`
unfoldable pub prefix : Marker → Bytes
prefix payment_intent = b'p' ∷ b'i' ∷ []
prefix payment_method = b'p' ∷ b'm' ∷ []
prefix customer = b'c' ∷ b'u' ∷ b's' ∷ []
prefix refund = b'r' ∷ b'e' ∷ []
prefix dispute = b'd' ∷ b'p' ∷ []
prefix merchant = b'm' ∷ b'e' ∷ b'r' ∷ []
prefix api_key = b'k' ∷ b'e' ∷ b'y' ∷ []
prefix event = b'e' ∷ b'v' ∷ b't' ∷ []
prefix webhook_endpoint = b'w' ∷ b'e' ∷ []
prefix settlement = b's' ∷ b'e' ∷ b't' ∷ []
prefix ledger_transaction = b'l' ∷ b't' ∷ b'x' ∷ []
prefix job = b'j' ∷ b'o' ∷ b'b' ∷ []
prefix order = b'o' ∷ b'r' ∷ b'd' ∷ b'e' ∷ b'r' ∷ []
prefix payment = b'p' ∷ b'a' ∷ b'y' ∷ []
prefix ledger_account = b'a' ∷ b'c' ∷ b'c' ∷ b't' ∷ []

pub data IdParseError : Type 0 where
  wrong_prefix : Bytes → Bytes → IdParseError
  invalid_uuid : IdParseError

-- `str::strip_prefix`
unfoldable pub strip_prefix : Bytes → Bytes → Option Bytes
strip_prefix [] s = some s
strip_prefix (p ∷ ps) [] = none
strip_prefix (p ∷ ps) (c ∷ cs) = if p == c then strip_prefix ps cs else none

-- `strip_prefix(prefix).and_then(|r| r.strip_prefix("_"))`
abbrev pub after_mark : Option Bytes → Option Bytes
after_mark none = none
after_mark (some []) = none
after_mark (some (c ∷ cs)) = if c == b'_' then some cs else none

-- `Display`
unfoldable pub id_to_string : (ℕ → Bytes) → Marker → ℕ → Bytes
unfolding prefix
id_to_string print_uuid m u = prefix m ++ b'_' ∷ print_uuid u

-- `FromStr`
unfoldable pub id_from_str : (Bytes → Option ℕ) → Marker → Bytes → Result ℕ IdParseError
unfolding prefix strip_prefix
id_from_str parse_uuid m s = do
  rest ← ok_or (after_mark (strip_prefix (prefix m) s)) (wrong_prefix (prefix m) s)
  ok_or (parse_uuid rest) invalid_uuid

pub strip_prefix-append : (p s : Bytes) → strip_prefix p (p ++ s) ≡ some s
unfolding strip_prefix
strip_prefix-append [] s = refl
strip_prefix-append (x ∷ xs) s = ground (arith, strip_prefix-append xs s)

strip_prefix-some : (p s r : Bytes) → strip_prefix p s ≡ some r → s ≡ p ++ r
unfolding strip_prefix
strip_prefix-some [] s r h = cc
strip_prefix-some (x ∷ xs) [] r h = cc
strip_prefix-some (x ∷ xs) (c ∷ cs) r h = ground (arith, strip_prefix-some xs cs r)

prefix-lacks : (m : Marker) → lacks b'_' (prefix m) ≡ true
unfolding prefix all_bytes
prefix-lacks m = ground arith

prefix_injective : (m m' : Marker) → prefix m ≡ prefix m' → m ≡ m'
unfolding prefix
prefix_injective m m' h = ground arith

-- The text of an id is read back under its own marker, where the library reads back what it prints.
pub id_from_str-id_to_string :
    (print_uuid : ℕ → Bytes) (parse_uuid : Bytes → Option ℕ) (m : Marker) (u : ℕ)
    → parse_uuid (print_uuid u) ≡ some u
    → id_from_str parse_uuid m (id_to_string print_uuid m u) ≡ ok u
unfolding id_from_str id_to_string
id_from_str-id_to_string print_uuid parse_uuid m u h =
    rw (strip_prefix-append (prefix m) (b'_' ∷ print_uuid u), h) refl

after_mark-some : (o : Option Bytes) (r : Bytes) → after_mark o ≡ some r → o ≡ some (b'_' ∷ r)
after_mark-some none r h = cc
after_mark-some (some []) r h = cc
after_mark-some (some (c ∷ cs)) r h = ground arith

-- The text of an id is refused where an id of another marker is read, whatever the library makes of the
-- texts of uuids.
pub id_from_str-other_marker :
    (print_uuid : ℕ → Bytes) (parse_uuid : Bytes → Option ℕ) (m m' : Marker) (u : ℕ)
    → m ≢ m'
    → id_from_str parse_uuid m' (id_to_string print_uuid m u)
      ≡ err (wrong_prefix (prefix m') (id_to_string print_uuid m u))
unfolding id_from_str id_to_string
id_from_str-other_marker print_uuid parse_uuid m m' u ne =
    let s = prefix m ++ b'_' ∷ print_uuid u in
    elim (Option-cases (after_mark (strip_prefix (prefix m') s))) [
      | inl n ↦ rw n refl
      | inr (r, e) ↦
          let split = strip_prefix-some (prefix m') s (b'_' ∷ r) (after_mark-some _ r e) in
          absurd (
            ne (
              prefix_injective m m'
                (split_unique b'_' (prefix m) (prefix m') (print_uuid u) r (prefix-lacks m)
                  (prefix-lacks m') split).0))
    ]
