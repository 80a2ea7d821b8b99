-- ===== src/Api/RequestId.antt =====
-- The correlation id of a request (crates/api/middleware/request_id.rs). The header of the request is the
-- text that `to_str` reads, if it reads one; the library's check of a header value is a parameter.
use payment_gateway_sandbox.Prelude.{
  ℕ, ◌≡◌, refl, arith, Bool, true, Bool-cases, inl, inr, not, ◌&&◌, ◌||◌, Option, none, some, [],
  ◌∷◌, leb, ◌==◌, if◌then◌else◌,
}
use payment_gateway_sandbox.Prelude.Lists.{length}
use payment_gateway_sandbox.Prelude.Bytes.{Bytes, all_bytes}
use payment_gateway_sandbox.Prelude.Text.{is_whitespace, trim, trim-solid, all_bytes-imp}

abbrev pub min_len : ℕ
min_len = 8

abbrev pub max_len : ℕ
max_len = 128

unfoldable pub is_id_char : ℕ → Bool
is_id_char b =
    (leb b'0' b && leb b b'9')
    || (leb b'A' b && leb b b'Z')
    || (leb b'a' b && leb b b'z')
    || b == b'-'
    || b == b'_'
    || b == b'.'
    || b == b':'

unfoldable pub is_acceptable : Bytes → Bool
unfolding is_id_char all_bytes
is_acceptable candidate =
    leb min_len (length candidate)
    && leb (length candidate) max_len
    && all_bytes is_id_char candidate

-- `RequestId::generate`, from the plain text of a new uuid
unfoldable pub generate_id : Bytes → Bytes
generate_id simple = b'r' ∷ b'e' ∷ b'q' ∷ b'_' ∷ simple

abbrev adopted : Bytes → Bytes → Bytes
adopted simple v = if is_acceptable v then v else generate_id simple

-- `propagate`: the id of the request
unfoldable pub request_id : Option Bytes → Bytes → Bytes
unfolding is_acceptable generate_id trim
request_id none simple = generate_id simple
request_id (some v) simple = adopted simple (trim v)

abbrev or_static : Option Bytes → Bytes
or_static none = b'r' ∷ b'e' ∷ b'q' ∷ b'_' ∷ b'x' ∷ []
or_static (some v) = v

-- `propagate`: the header of the response, which keeps one of its own
unfoldable pub response_id : (Bytes → Option Bytes) → Option Bytes → Bytes → Bytes
response_id from_str (some own) id = own
response_id from_str none id = or_static (from_str id)

abbrev pub is_hex : ℕ → Bool
is_hex c = (leb b'0' c && leb c b'9') || (leb b'a' c && leb c b'f')

abbrev pub is_visible : ℕ → Bool
is_visible c = leb 32 c && leb c 126

hex-IsIdChar : (c : ℕ) → is_hex c ≡ true → is_id_char c ≡ true
unfolding is_id_char
hex-IsIdChar c h = ground arith

id_char-not_blank : (c : ℕ) → is_id_char c ≡ true → not (is_whitespace c) ≡ true
unfolding is_id_char
id_char-not_blank c h = ground arith

id_char-visible : (c : ℕ) → is_id_char c ≡ true → is_visible c ≡ true
unfolding is_id_char
id_char-visible c h = ground arith

generate_id-acceptable :
    (simple : Bytes)
    → length simple ≡ 32
    → all_bytes is_hex simple ≡ true
    → is_acceptable (generate_id simple) ≡ true
unfolding is_acceptable generate_id all_bytes
generate_id-acceptable simple l h =
    rw (l, all_bytes-imp is_hex is_id_char simple hex-IsIdChar h) refl

request_id-acceptable :
    (header : Option Bytes) (simple : Bytes)
    → length simple ≡ 32
    → all_bytes is_hex simple ≡ true
    → is_acceptable (request_id header simple) ≡ true
unfolding request_id
request_id-acceptable none simple l h = generate_id-acceptable simple l h
request_id-acceptable (some v) simple l h = elim (Bool-cases (is_acceptable (trim v))) [
  | inl a ↦ rw a a
  | inr a ↦ rw a (generate_id-acceptable simple l h)
]

acceptable-chars : (id : Bytes) → is_acceptable id ≡ true → all_bytes is_id_char id ≡ true
unfolding is_acceptable
acceptable-chars id h = ground arith

adopts : (id simple : Bytes) → is_acceptable id ≡ true → request_id (some id) simple ≡ id
unfolding request_id
adopts id simple h =
    rw
      (trim-solid id (
        all_bytes-imp is_id_char (λ c. not (is_whitespace c)) id id_char-not_blank
          (acceptable-chars id h)))
      (rw h refl)

-- Whatever header a request brings, its id has the accepted form, is the header of a response that has none of
-- its own, and is adopted unchanged where it comes in again, given that the plain text of a uuid is 32 hexadecimal
-- digits and that the library takes visible ASCII characters as a header value.
pub request_id_travels :
    (from_str : Bytes → Option Bytes) (header : Option Bytes) (simple simple' : Bytes)
    → ((s : Bytes) → all_bytes is_visible s ≡ true → from_str s ≡ some s)
    → length simple ≡ 32
    → all_bytes is_hex simple ≡ true
    → let id = request_id header simple in
      (is_acceptable id ≡ true)
      × (response_id from_str none id ≡ id)
      × (request_id (some (response_id from_str none id)) simple' ≡ id)
unfolding response_id
request_id_travels from_str header simple simple' reads l h =
    let id = request_id header simple in
    let fine = request_id-acceptable header simple l h in
    let shown =
      reads id
        (all_bytes-imp is_id_char is_visible id id_char-visible (acceptable-chars id fine)) in
    rw shown (fine, refl, adopts id simple' fine)
