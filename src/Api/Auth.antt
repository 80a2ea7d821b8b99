-- ===== src/Api/Auth.antt =====
-- Authentication (crates/api/auth.rs), with `lookup_hash` and `is_test_key` of crates/crypto/src/api_key.rs.
-- SHA-256 and the reading of a header's value as text are parameters.
pub mod Scopes
pub mod Cache
pub mod Entries
pub mod Fresh
pub mod Bearer
use payment_gateway_sandbox.Prelude.{
  ℕ, ◌+◌, ◌-◌, String, Bool, true, false, not, ◌&&◌, ◌||◌, Option, none, some, List, [], ◌∷◌, ltb,
  leb, ◌==◌, if◌then◌else◌,
}
use payment_gateway_sandbox.Prelude.Lists.{length}
use payment_gateway_sandbox.Prelude.Bytes.{Bytes, eq_bytes, all_bytes, starts_with, split_once}
use payment_gateway_sandbox.Prelude.Result.{Result, ok, err, ◌>>=◌, ◌>>◌, bail_if, ok_or}
use payment_gateway_sandbox.Domain.Card.{is_ascii_digit, drop}
use payment_gateway_sandbox.Domain.ApiKey.{Scope, ApiKey, ApiKeyKind, secret, publishable}
use payment_gateway_sandbox.Store.Error.{StoreError, row_is_not_found}
use payment_gateway_sandbox.Api.Error.{ApiError, unauthorized, forbidden, unavailable}
use payment_gateway_sandbox.Api.Auth.Scopes.{contains, from_slice}
use payment_gateway_sandbox.Api.Auth.Cache.{
  AuthCtx, Outcome, resolved, rejected, AuthCache, lookup, store, should_touch,
}

-- `AuthCtx::require`
unfoldable pub require : Scope → AuthCtx → Result (Unit {0}) ApiError
require scope ctx = if contains ctx.scopes scope then ok tt else err forbidden

unfoldable pub require_all : List Scope → AuthCtx → Result (Unit {0}) ApiError
unfolding require
require_all [] ctx = ok tt
require_all (s ∷ ss) ctx = do require s ctx; require_all ss ctx

unfoldable pub any_held : List Scope → AuthCtx → Bool
any_held [] ctx = false
any_held (s ∷ ss) ctx = contains ctx.scopes s || any_held ss ctx

unfoldable pub require_any : List Scope → AuthCtx → Result (Unit {0}) ApiError
unfolding any_held
require_any scopes ctx = if any_held scopes ctx then ok tt else err forbidden

abbrev pub max_header_bytes : ℕ
max_header_bytes = 512

abbrev pub min_body_len : ℕ
min_body_len = 32

abbrev pub max_body_len : ℕ
max_body_len = 128

abbrev pub secret_prefix : Bytes
secret_prefix = b's' ∷ b'k' ∷ b'_' ∷ b't' ∷ b'e' ∷ b's' ∷ b't' ∷ b'_' ∷ []

abbrev pub publishable_prefix : Bytes
publishable_prefix = b'p' ∷ b'k' ∷ b'_' ∷ b't' ∷ b'e' ∷ b's' ∷ b't' ∷ b'_' ∷ []

abbrev bearer : Bytes
bearer = b'b' ∷ b'e' ∷ b'a' ∷ b'r' ∷ b'e' ∷ b'r' ∷ []

-- `char::is_whitespace`, of an ASCII text
abbrev is_blank : ℕ → Bool
is_blank c = c == 32 || (leb 9 c && leb c 13)

unfoldable pub trim_start : Bytes → Bytes
trim_start [] = []
trim_start (c ∷ cs) = if is_blank c then trim_start cs else c ∷ cs

abbrev blank_end : ℕ → Bytes → Bytes
blank_end c [] = if is_blank c then [] else c ∷ []
blank_end c (d ∷ ds) = c ∷ d ∷ ds

unfoldable pub trim_end : Bytes → Bytes
trim_end [] = []
trim_end (c ∷ cs) = blank_end c (trim_end cs)

-- `str::trim`
unfoldable pub trim : Bytes → Bytes
unfolding trim_start trim_end
trim s = trim_start (trim_end s)

unfoldable pub to_lower : Bytes → Bytes
to_lower [] = []
to_lower (c ∷ cs) = (if leb b'A' c && leb c b'Z' then c + 32 else c) ∷ to_lower cs

-- What follows the one header: its scheme and the token.
unfoldable pub bearer_token : Bytes → Result Bytes ApiError
unfolding trim to_lower split_once eq_bytes
bearer_token raw = do
  parts ← ok_or (split_once 32 (trim raw)) unauthorized
  bail_if (not (eq_bytes (to_lower parts.0) bearer)) unauthorized
  ok (trim parts.1)

-- `extract_bearer`, over the values of the `Authorization` headers; `is_text` is `to_str().is_ok()`.
unfoldable pub extract_bearer : (Bytes → Bool) → List Bytes → Result Bytes ApiError
unfolding bearer_token
extract_bearer is_text [] = err unauthorized
extract_bearer is_text (raw ∷ []) = do
  bail_if (ltb max_header_bytes (length raw)) unauthorized
  bail_if (not (is_text raw)) unauthorized
  bearer_token raw
extract_bearer is_text (_ ∷ _ ∷ _) = err unauthorized

-- `crypto::api_key::is_test_key`
unfoldable pub is_test_key : Bytes → Bool
unfolding starts_with
is_test_key key = starts_with key secret_prefix || starts_with key publishable_prefix

-- `u8::is_ascii_hexdigit`
abbrev pub is_hex : ℕ → Bool
is_hex c = is_ascii_digit c || (leb b'A' c && leb c b'F') || (leb b'a' c && leb c b'f')

abbrev pub is_well_formed : Bytes → Bool
is_well_formed body =
    leb min_body_len (length body) && leb (length body) max_body_len && all_bytes is_hex body

abbrev is_empty : Bytes → Bool
is_empty [] = true
is_empty (_ ∷ _) = false

unfoldable pub validate_shape : Bytes → Result (Unit {0}) ApiError
unfolding starts_with is_test_key all_bytes
validate_shape token = do
  bail_if (is_empty token) unauthorized
  bail_if (starts_with token publishable_prefix) unauthorized
  bail_if (not (is_test_key token)) unauthorized
  bail_if (not (is_well_formed (drop 8 token))) unauthorized
  ok tt

-- What the lookup within its time limit came to.
pub data Lookup : Type 0 where
  answered : Result ApiKey StoreError → Lookup
  timed_out : Lookup

-- What `resolve` leaves: its answer, the cache, and the key whose use is to be written down.
pub record Resolution : Type 0 where
  pub answer : Result AuthCtx ApiError
  pub cache : AuthCache
  pub touched : Option ℕ

-- the refusal of a hash, which is kept
abbrev pub refused : Bytes → ℕ → AuthCache → Resolution
refused hash now cache = record {
  answer = err unauthorized;
  cache = store hash rejected now cache;
  touched = none;
}

abbrev pub failed : AuthCache → Resolution
failed cache = record { answer = err unavailable; cache = cache; touched = none }

-- `schedule_touch`
abbrev pub with_touch : AuthCtx → Bool × AuthCache → Resolution
with_touch ctx (touched, cache) = record {
  answer = ok ctx;
  cache = cache;
  touched = if touched then some ctx.key_id else none;
}

-- `AuthCtx::new` with the scopes of a key
abbrev pub ctx_of : ApiKey → AuthCtx
ctx_of key = record {
  merchant_id = key.merchant_id;
  key_id = key.id;
  scopes = from_slice key.scopes;
}

abbrev pub accepted : Bytes → ℕ → ApiKey → ApiKeyKind → AuthCache → Resolution
accepted hash now key publishable cache = refused hash now cache
accepted hash now key secret cache =
    with_touch (ctx_of key) (should_touch key.id now (store hash (resolved (ctx_of key)) now cache))

-- the `match` on what the lookup came to
abbrev pub looked_up : Bytes → ℕ → Lookup → AuthCache → Resolution
looked_up hash now timed_out cache = failed cache
looked_up hash now (answered (err e)) cache =
    if row_is_not_found e then refused hash now cache else failed cache
looked_up hash now (answered (ok key)) cache = accepted hash now key key.kind cache

abbrev pub from_cache : Bytes → ℕ → Lookup → AuthCache → Option Outcome → Resolution
from_cache hash now found cache none = looked_up hash now found cache
from_cache hash now found cache (some rejected) = record {
  answer = err unauthorized;
  cache = cache;
  touched = none;
}
from_cache hash now found cache (some (resolved ctx)) = record {
  answer = ok ctx;
  cache = cache;
  touched = none;
}

-- `found` is what `find_active_by_hash` would come to; it is not asked when the cache knows.
unfoldable pub resolve : Bytes → ℕ → Lookup → AuthCache → Resolution
unfolding lookup
resolve hash now found cache = from_cache hash now found cache (lookup hash now cache)

abbrev after_token :
    (Bytes → Bytes) → ℕ → (Bytes → Lookup) → AuthCache → Result Bytes ApiError → Resolution
after_token lookup_hash now find cache (err e) = record {
  answer = err e;
  cache = cache;
  touched = none;
}
after_token lookup_hash now find cache (ok token) =
    resolve (lookup_hash token) now (find (lookup_hash token)) cache

-- The token of a request, in the shape of a secret key.
unfoldable pub shaped_token : (Bytes → Bool) → List Bytes → Result Bytes ApiError
unfolding extract_bearer validate_shape
shaped_token is_text headers = do
  token ← extract_bearer is_text headers
  validate_shape token
  ok token

-- `authenticate` up to the handler
unfoldable pub authenticate :
    (Bytes → Bool) → (Bytes → Bytes) → List Bytes → ℕ → (Bytes → Lookup) → AuthCache → Resolution
unfolding shaped_token resolve
authenticate is_text lookup_hash headers now find cache =
    after_token lookup_hash now find cache (shaped_token is_text headers)

-- `with_challenge`: the value of `WWW-Authenticate` on the response, from the one that is there
unfoldable pub with_challenge : ℕ → Bool → Option String → Option String
with_challenge status had_credentials (some given) = some given
with_challenge status had_credentials none =
    if status == 401
    then (if had_credentials
        then some "Bearer realm=\"payment-sandbox\", error=\"invalid_token\""
        else some "Bearer realm=\"payment-sandbox\"")
    else if status == 403
    then some "Bearer realm=\"payment-sandbox\", error=\"insufficient_scope\""
    else none
