-- ===== src/Api/Extract/Names.antt =====
-- The parameter that the error of a badly typed body names.
use payment_gateway_sandbox.Prelude.{
  ℕ, zero, suc, ◌+◌, ◌≡◌, ◌≤◌, refl, ap, ◌∙◌, arith, true, false, Bool-cases, inl, inr, not, some,
  [], ◌∷◌, ◌++◌, ltb, ◌==◌,
}
use payment_gateway_sandbox.Prelude.Lists.{length}
use payment_gateway_sandbox.Prelude.Bytes.{Bytes, all_bytes}
use payment_gateway_sandbox.Prelude.Text.{
  is_whitespace, trim_end, blank_end, all_bytes-imp, trim-solid, split-append,
}
use payment_gateway_sandbox.Domain.Id.{strip_prefix, strip_prefix-append}
use payment_gateway_sandbox.Store.Listing.{take}
use payment_gateway_sandbox.Api.Extract.{
  is_control, blanked, blank_controls, sanitize, ellipsis, framing, or_whole, strip_framing,
  is_path_char, is_plausible, serde_param, json_data_error, reject_json,
}

-- A path in front of a colon comes through a rewriting of the text.
abbrev Begins : Bytes → Bytes → Type 0
Begins path s = (rest : Bytes) × (s ≡ path ++ b':' ∷ rest)

path_char-blanked : (c : ℕ) → is_path_char c ≡ true → blanked c ≡ c
unfolding is_path_char is_control
path_char-blanked c h = ground arith

path_char-solid : (c : ℕ) → is_path_char c ≡ true → is_whitespace c ≡ false
unfolding is_path_char
path_char-solid c h = ground arith

Begins-blank_controls :
    (path rest : Bytes)
    → all_bytes is_path_char path ≡ true
    → Begins path (blank_controls (path ++ b':' ∷ rest))
unfolding all_bytes is_control
Begins-blank_controls [] rest h = (blank_controls rest, refl)
Begins-blank_controls (c ∷ cs) rest h =
    let ih = Begins-blank_controls cs rest (ground arith) in
    (ih.0, rw (path_char-blanked c (ground arith), ih.1) refl)

Begins-take :
    (n : ℕ) (path rest : Bytes) → length path + 1 ≤ n → Begins path (take n (path ++ b':' ∷ rest))
unfolding take
Begins-take zero path rest h = absurd (omega arith)
Begins-take (suc n) [] rest h = (take n rest, refl)
Begins-take (suc n) (c ∷ cs) rest h =
    let ih = Begins-take n cs rest (omega arith) in (ih.0, ap (λ x. c ∷ x) ih.1)

blank_end-solid : (c : ℕ) (s : Bytes) → is_whitespace c ≡ false → blank_end c s ≡ c ∷ s
blank_end-solid c [] h = rw h refl
blank_end-solid c (d ∷ ds) h = refl

Begins-trim_end :
    (path rest : Bytes)
    → all_bytes is_path_char path ≡ true
    → Begins path (trim_end (path ++ b':' ∷ rest))
unfolding trim_end all_bytes
Begins-trim_end [] rest h = (trim_end rest, blank_end-solid b':' (trim_end rest) refl)
Begins-trim_end (c ∷ cs) rest h =
    let ih = Begins-trim_end cs rest (ground arith) in
    (
      ih.0,
      blank_end-solid c (trim_end (cs ++ b':' ∷ rest)) (path_char-solid c (ground arith))
          ∙ ap (λ x. c ∷ x) ih.1,
    )

Begins-append : (path rest more : Bytes) → Begins path ((path ++ b':' ∷ rest) ++ more)
Begins-append [] rest more = (rest ++ more, refl)
Begins-append (c ∷ cs) rest more =
    let ih = Begins-append cs rest more in (ih.0, ap (λ x. c ∷ x) ih.1)

Begins-sanitize :
    (path rest : Bytes)
    → all_bytes is_path_char path ≡ true
    → length path ≤ 64
    → Begins path (sanitize (path ++ b':' ∷ rest))
unfolding sanitize
Begins-sanitize path rest h short =
    let shown = Begins-blank_controls path rest h in
    let taken = Begins-take 200 path shown.0 (omega arith) in
    let out = Begins-trim_end path taken.0 h in
    let more = Begins-append path out.0 (ellipsis ∷ []) in
    rw (shown.1, taken.1, out.1)
      (elim (Bool-cases (ltb 200 (length (path ++ b':' ∷ rest)))) [
        | inl l ↦ rw l more
        | inr l ↦ rw l (out.0, refl)
      ])

path_char-colon_free : (c : ℕ) → is_path_char c ≡ true → not (c == b':') ≡ true
unfolding is_path_char
path_char-colon_free c h = ground arith

path_char-not_blank : (c : ℕ) → is_path_char c ≡ true → not (is_whitespace c) ≡ true
path_char-not_blank c h = rw (path_char-solid c h) refl

plausible-parts :
    (path : Bytes)
    → is_plausible path ≡ true
    → (all_bytes is_path_char path ≡ true) × (length path ≤ 64)
unfolding is_plausible
plausible-parts path h = (ground arith, ground arith)

serde_param-path :
    (path rest : Bytes) → is_plausible path ≡ true → serde_param (path ++ b':' ∷ rest) ≡ some path
unfolding serde_param is_plausible
serde_param-path path rest h =
    let chars : all_bytes is_path_char path ≡ true = ground arith in
    rw
      (split-append b':' path rest
        (all_bytes-imp is_path_char (λ x. not (x == b':')) path path_char-colon_free chars))
      (rw
        (trim-solid path
          (all_bytes-imp is_path_char (λ c. not (is_whitespace c)) path path_char-not_blank chars))
        (rw h refl))

unframed : (f text : Bytes) → or_whole (f ++ text) (strip_prefix f (f ++ text)) ≡ text
unframed f text = rw (strip_prefix-append f text) refl

strip_framing-append : (text : Bytes) → strip_framing (framing ++ text) ≡ sanitize text
unfolding strip_framing
strip_framing-append text = ap sanitize (unframed framing text)

-- When the framework rejects a body because a value at a path has the wrong type, the error names that path,
-- whatever the reason says and however long it is, if the path is made of the characters of paths and has 64 at most.
pub data_error_names_path :
    (path reason : Bytes)
    → is_plausible path ≡ true
    → (reject_json (json_data_error (framing ++ path ++ b':' ∷ reason))).param ≡ some path
unfolding reject_json
data_error_names_path path reason h =
    let parts = plausible-parts path h in
    let quoted = Begins-sanitize path reason parts.0 parts.1 in
    ap serde_param (strip_framing-append (path ++ b':' ∷ reason) ∙ quoted.1)
    ∙ serde_param-path path quoted.0 h
