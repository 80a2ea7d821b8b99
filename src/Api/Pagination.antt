-- ===== src/Api/Pagination.antt =====
-- Cursor pagination (crates/api/pagination.rs). Reading and printing an RFC 3339 time come from the library
-- of dates.
pub mod Walk
use payment_gateway_sandbox.Prelude.{
  ℕ, zero, suc, ◌+◌, Bool, true, false, not, ◌&&◌, Option, none, some, List, [], ◌∷◌, ltb, leb,
  if◌then◌else◌,
}
use payment_gateway_sandbox.Prelude.Int.{ℤ, pos, negsuc, leb_ℤ, ◌+ℤ◌, i64_max}
use payment_gateway_sandbox.Prelude.Lists.{length}
use payment_gateway_sandbox.Prelude.Bytes.{Bytes}
use payment_gateway_sandbox.Prelude.Result.{Result, ok, err, ◌>>=◌}
use payment_gateway_sandbox.Store.Listing.{take}
use payment_gateway_sandbox.Api.Error.{ApiError, invalid_request}

-- The part of `ApiConfig` that pagination reads.
pub record PageSizes : Type 0 where
  pub default_page_size : ℤ
  pub max_page_size : ℤ

-- `ApiConfig::default`
abbrev pub default_sizes : PageSizes
default_sizes = record { default_page_size = pos 10; max_page_size = pos 100 }

pub record ListParams : Type 0 where
  pub limit : Option ℤ
  pub before : Option Bytes

pub record PageRequest : Type 0 where
  pub limit : ℤ
  pub before : Option ℕ

-- The `match` on the limit in `resolve`.
unfoldable pub resolve_limit : PageSizes → Option ℤ → Result ℤ ApiError
resolve_limit sizes none = ok sizes.default_page_size
resolve_limit sizes (some n) =
    if leb_ℤ (pos 1) n && leb_ℤ n sizes.max_page_size
    then ok n
    else err (invalid_request "limit_invalid" (some "limit"))

abbrev pub read_cursor : Option ℕ → Result (Option ℕ) ApiError
read_cursor none = err (invalid_request "cursor_invalid" (some "before"))
read_cursor (some t) = ok (some t)

unfoldable pub resolve_before : (Bytes → Option ℕ) → Option Bytes → Result (Option ℕ) ApiError
resolve_before parse_time none = ok none
resolve_before parse_time (some raw) = read_cursor (parse_time raw)

-- `ListParams::resolve`
unfoldable pub resolve : (Bytes → Option ℕ) → PageSizes → ListParams → Result PageRequest ApiError
unfolding resolve_limit resolve_before
resolve parse_time sizes params = do
  limit ← resolve_limit sizes params.limit
  before ← resolve_before parse_time params.before
  ok (record { limit = limit; before = before })

-- `saturating_add(1)`
unfoldable pub fetch_limit : PageRequest → ℤ
fetch_limit page = if leb_ℤ (pos i64_max) page.limit then pos i64_max else page.limit +ℤ pos 1

-- `usize::try_from(limit).unwrap_or(usize::MAX)`
abbrev pub to_usize : ℤ → ℕ
to_usize (pos n) = n
to_usize (negsuc n) = 18446744073709551615

pub record Page (A : Type 0) : Type 0 where
  pub rows : List A
  pub has_more : Bool
  pub next_before : Option Bytes

unfoldable pub last {ℓ} : {A : Type ℓ} → List A → Option A
last [] = none
last (x ∷ []) = some x
last (_ ∷ y ∷ ys) = last (y ∷ ys)

module _ {A : Type 0} (format_time : ℕ → Option Bytes) (time : A → ℕ) where
  abbrev pub cursor_of : Option A → Option Bytes
  cursor_of none = none
  cursor_of (some x) = format_time (time x)

  -- `PageRequest::finish`; the rows are rendered on the wire one by one.
  unfoldable pub finish : PageRequest → List A → Page A
  unfolding take last
  finish page items =
      let limit = to_usize page.limit in
      let has_more = ltb limit (length items) in
      record {
        rows = take limit items;
        has_more = has_more;
        next_before = if has_more then cursor_of (last (take limit items)) else none;
      }
