-- ===== src/Api/Extract.antt =====
-- The extractors' errors (crates/api/extract.rs): what becomes of a rejection of the web framework, whose text
-- is given as the list of its characters.
pub mod Names
use payment_gateway_sandbox.Prelude.{
  ℕ, zero, suc, ◌+◌, ◌≡◌, ◌≤◌, refl, arith, Bool, true, false, Bool-cases, inl, inr, not, ◌&&◌,
  ◌||◌, Option, none, some, List, [], ◌∷◌, ◌++◌, map, ltb, leb, ◌==◌, if◌then◌else◌,
}
use payment_gateway_sandbox.Prelude.Lists.{length, length-append}
use payment_gateway_sandbox.Prelude.Bytes.{Bytes, all_bytes}
use payment_gateway_sandbox.Prelude.Text.{
  is_whitespace, trim_end, trim, split, blank_end, characters, all_bytes-append,
}
use payment_gateway_sandbox.Domain.Id.{strip_prefix}
use payment_gateway_sandbox.Store.Listing.{take}
use payment_gateway_sandbox.Api.Error.{
  ApiError, invalid_request, unsupported_media_type, payload_too_large, missing,
}

abbrev pub max_echo : ℕ
max_echo = 200

-- `char::is_control`
unfoldable pub is_control : ℕ → Bool
is_control c = leb c 31 || (leb 127 c && leb c 159)

abbrev pub blanked : ℕ → ℕ
blanked c = if is_control c then b' ' else c

abbrev pub blank_controls : Bytes → Bytes
blank_controls [] = []
blank_controls (c ∷ cs) = blanked c ∷ blank_controls cs

-- `…`
abbrev pub ellipsis : ℕ
ellipsis = 8230

unfoldable pub sanitize : Bytes → Bytes
unfolding is_control trim_end take
sanitize raw =
    let out = trim_end (take max_echo (blank_controls raw)) in
    if ltb max_echo (length raw) then out ++ ellipsis ∷ [] else out

abbrev pub framing : Bytes
framing = characters "Failed to deserialize the JSON body into the target type: "

abbrev pub or_whole : Bytes → Option Bytes → Bytes
or_whole text none = text
or_whole text (some rest) = rest

-- `strip_prefix`
unfoldable pub strip_framing : Bytes → Bytes
unfolding sanitize strip_prefix
strip_framing body_text = sanitize (or_whole body_text (strip_prefix framing body_text))

unfoldable pub is_path_char : ℕ → Bool
is_path_char c =
    (leb b'0' c && leb c b'9')
    || (leb b'A' c && leb c b'Z')
    || (leb b'a' c && leb c b'z')
    || c == b'.'
    || c == b'_'
    || c == b'['
    || c == b']'

abbrev is_empty : Bytes → Bool
is_empty [] = true
is_empty _ = false

-- `plausible`; a candidate of such characters only has as many bytes as characters.
unfoldable pub is_plausible : Bytes → Bool
unfolding is_path_char all_bytes
is_plausible candidate =
    not (is_empty candidate) && leb (length candidate) 64 && all_bytes is_path_char candidate

abbrev pub first_part : List Bytes → Option Bytes
first_part [] = none
first_part (part ∷ parts) = if is_plausible (trim part) then some (trim part) else none

unfoldable pub serde_param : Bytes → Option Bytes
unfolding is_plausible split trim
serde_param detail = first_part (split b':' detail)

-- What the framework rejects a body for.
pub data JsonRejection : Type 0 where
  json_data_error : Bytes → JsonRejection
  json_syntax_error missing_json_content_type : JsonRejection
  unreadable : ℕ → JsonRejection

-- An error that quotes the request: the detail in its message, and the parameter that the detail names.
pub record Rejected : Type 0 where
  pub error : ApiError
  pub detail : Option Bytes
  pub param : Option Bytes

abbrev pub plain : ApiError → Rejected
plain e = record { error = e; detail = none; param = none }

-- The parameter of a detail, if it shows one.
abbrev pub quoting : Bytes → Rejected
quoting detail = record {
  error = invalid_request "parameter_invalid" none;
  detail = some detail;
  param = serde_param detail;
}

-- `From<JsonRejection>`
unfoldable pub reject_json : JsonRejection → Rejected
unfolding strip_framing serde_param
reject_json (json_data_error body_text) = quoting (strip_framing body_text)
reject_json json_syntax_error = plain (invalid_request "json_invalid" none)
reject_json missing_json_content_type = plain unsupported_media_type
reject_json (unreadable status) =
    if status == 413
    then plain payload_too_large
    else plain (invalid_request "body_unreadable" none)

-- `From<QueryRejection>`
unfoldable pub reject_query : Bytes → Rejected
unfolding sanitize serde_param
reject_query body_text = quoting (sanitize body_text)

-- `From<PathRejection>`
unfoldable pub reject_path : Rejected
reject_path = plain missing

abbrev pub is_shown : ℕ → Bool
is_shown c = not (is_control c)

blanked-shown : (c : ℕ) → is_shown (blanked c) ≡ true
unfolding is_control
blanked-shown c = ground arith

blank_controls-shown : (cs : Bytes) → all_bytes is_shown (blank_controls cs) ≡ true
unfolding all_bytes
blank_controls-shown [] = refl
blank_controls-shown (c ∷ cs) = rw (blanked-shown c) (blank_controls-shown cs)

ellipsis-shown : all_bytes is_shown (ellipsis ∷ []) ≡ true
unfolding is_control all_bytes
ellipsis-shown = refl

take-bounds :
    (n : ℕ) (p : ℕ → Bool) (cs : Bytes)
    → all_bytes p cs ≡ true
    → (length (take n cs) ≤ n) × (all_bytes p (take n cs) ≡ true)
unfolding take all_bytes
take-bounds zero p cs h = (omega arith, refl)
take-bounds (suc n) p [] h = (omega arith, refl)
take-bounds (suc n) p (c ∷ cs) h =
    let ih = take-bounds n p cs (ground arith) in (omega (arith, ih), ground (arith, ih))

blank_end-bounds :
    (p : ℕ → Bool) (c : ℕ) (cs : Bytes)
    → p c ≡ true
    → all_bytes p cs ≡ true
    → (length (blank_end c cs) ≤ length cs + 1) × (all_bytes p (blank_end c cs) ≡ true)
unfolding all_bytes
blank_end-bounds p c [] h k = elim (Bool-cases (is_whitespace c)) [
  | inl w ↦ rw w (omega arith, refl)
  | inr w ↦ rw w (omega arith, ground arith)
]
blank_end-bounds p c (d ∷ ds) h k = (omega arith, ground arith)

trim_end-bounds :
    (p : ℕ → Bool) (cs : Bytes)
    → all_bytes p cs ≡ true
    → (length (trim_end cs) ≤ length cs) × (all_bytes p (trim_end cs) ≡ true)
unfolding trim_end all_bytes
trim_end-bounds p [] h = (omega arith, refl)
trim_end-bounds p (c ∷ cs) h =
    let ih = trim_end-bounds p cs (ground arith) in
    let here = blank_end-bounds p c (trim_end cs) (ground arith) ih.1 in
    (omega (arith, ih, here), here.1)

-- A text from outside is quoted on one line, without control characters, and in 201 characters at most.
pub sanitize-IsShown :
    (raw : Bytes)
    → (length (sanitize raw) ≤ 201) × (all_bytes (λ c. not (is_control c)) (sanitize raw) ≡ true)
unfolding sanitize
sanitize-IsShown raw =
    let taken = take-bounds 200 is_shown (blank_controls raw) (blank_controls-shown raw) in
    let out = trim_end-bounds is_shown (take 200 (blank_controls raw)) taken.1 in
    let text = trim_end (take 200 (blank_controls raw)) in
    elim (Bool-cases (ltb 200 (length raw))) [
      | inl l ↦ rw l (
        omega (arith, length-append text (ellipsis ∷ []), out, taken),
        (rw (all_bytes-append is_shown text (ellipsis ∷ []), out.1) ellipsis-shown),
      )
      | inr l ↦ rw l (omega (arith, out, taken), out.1)
    ]
