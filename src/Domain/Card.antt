-- ===== src/Domain/Card.antt =====
-- Card metadata and the Luhn check (crates/domain/src/card.rs). A text of digits is the list of its
-- code points, and the raw number is any list of code points.
pub mod Luhn
use payment_gateway_sandbox.Prelude.{
  ℕ, zero, suc, ◌+◌, ◌-◌, ◌*◌, ◌%◌, String, Bool, true, false, not, Option, none, some, List, [],
  ◌∷◌, ◌++◌, ◌&&◌, ◌||◌, ltb, leb, ◌==◌, if◌then◌else◌,
}
use payment_gateway_sandbox.Prelude.Lists.{length}
use payment_gateway_sandbox.Prelude.Result.{Result, ok, err, ◌>>=◌, ◌>>◌, bail_if}

pub data CardBrand : Type 0 where
  visa mastercard amex rupay discover unknown : CardBrand

-- `CardBrand::as_str`
unfoldable pub brand_str : CardBrand → String
brand_str visa = "visa"
brand_str mastercard = "mastercard"
brand_str amex = "amex"
brand_str rupay = "rupay"
brand_str discover = "discover"
brand_str unknown = "unknown"

abbrev pub is_ascii_digit : ℕ → Bool
is_ascii_digit c = leb 48 c && leb c 57

-- `chars().filter(|c| c.is_ascii_digit()).collect()`
unfoldable pub digits_of : List ℕ → List ℕ
digits_of [] = []
digits_of (c ∷ cs) = if is_ascii_digit c then c ∷ digits_of cs else digits_of cs

abbrev pub starts_with_4 : List ℕ → Bool
starts_with_4 [] = false
starts_with_4 (c ∷ _) = c == b'4'

-- `digits[0..2].parse::<u32>()`, of a text of digits with at least two
abbrev pub prefix2 : List ℕ → Option ℕ
prefix2 (a ∷ b ∷ _) = some ((a - 48) * 10 + (b - 48))
prefix2 _ = none

-- `digits[0..4].parse::<u32>()`, of a text of digits with at least four
abbrev pub prefix4 : List ℕ → Option ℕ
prefix4 (a ∷ b ∷ c ∷ d ∷ _) = some ((a - 48) * 1000 + (b - 48) * 100 + (c - 48) * 10 + (d - 48))
prefix4 _ = none

abbrev detect4 : Option ℕ → CardBrand
detect4 none = unknown
detect4 (some p4) = if leb 2221 p4 && leb p4 2720 then mastercard else unknown

abbrev detect2 : Option ℕ → CardBrand → CardBrand
detect2 none rest = rest
detect2 (some p2) rest =
    if leb 51 p2 && leb p2 55
    then mastercard
    else if p2 == 34 || p2 == 37
    then amex
    else if p2 == 65 || p2 == 60
    then rupay
    else rest

-- `CardBrand::detect`
unfoldable pub detect : List ℕ → CardBrand
detect digits =
    if starts_with_4 digits then visa else detect2 (prefix2 digits) (detect4 (prefix4 digits))

-- `c.to_digit(10)` over a text
unfoldable pub nums_of : List ℕ → List ℕ
nums_of [] = []
nums_of (c ∷ cs) = if is_ascii_digit c then (c - 48) ∷ nums_of cs else nums_of cs

-- What a digit adds to the sum; `double` holds of every second digit from the right.
unfoldable pub luhn_value : Bool → ℕ → ℕ
luhn_value false d = d
luhn_value true d = if ltb 9 (d * 2) then d * 2 - 9 else d * 2

-- the loop over `nums.iter().rev()`
unfoldable pub luhn_sum : List ℕ → Bool → ℕ → ℕ
luhn_sum [] double sum = sum
luhn_sum (d ∷ ds) double sum = luhn_sum ds (not double) (sum + luhn_value double d)

unfoldable pub rev_onto {ℓ} : {A : Type ℓ} → List A → List A → List A
rev_onto [] acc = acc
rev_onto (x ∷ xs) acc = rev_onto xs (x ∷ acc)

unfoldable pub luhn_valid : List ℕ → Bool
luhn_valid digits =
    let nums = nums_of digits in
    if ltb (length nums) 2 then false else luhn_sum (rev_onto nums []) false 0 % 10 == 0

pub data CardDetailsError : Type 0 where
  invalid_length : ℕ → CardDetailsError
  failed_luhn_check : CardDetailsError
  invalid_month : ℕ → CardDetailsError
  card_expired : CardDetailsError

pub record CardDetails : Type 0 where
  pub last4 : List ℕ
  pub brand : CardBrand
  pub exp_month : ℕ  -- u8
  pub exp_year : ℕ  -- u16
  pub fingerprint : String

abbrev pub drop {ℓ} : {A : Type ℓ} → ℕ → List A → List A
drop zero xs = xs
drop (suc n) [] = []
drop (suc n) (x ∷ xs) = drop n xs

-- `CardDetails::new`
unfoldable pub card_details : List ℕ → String → ℕ → ℕ → Result CardDetails CardDetailsError
card_details raw_number fingerprint exp_month exp_year = do
  let digits = digits_of raw_number
  bail_if (ltb (length digits) 12 || ltb 19 (length digits)) (invalid_length (length digits))
  bail_if (not (luhn_valid digits)) failed_luhn_check
  bail_if (not (leb 1 exp_month && leb exp_month 12)) (invalid_month exp_month)
  ok (record {
    last4 = drop (length digits - 4) digits;
    brand = detect digits;
    exp_month = exp_month;
    exp_year = exp_year;
    fingerprint = fingerprint;
  })

-- A date as far as the check of the expiry reads it: `now.year()` and `now.month()`.
pub record YearMonth : Type 0 where
  pub year : ℕ
  pub month : ℕ

unfoldable pub assert_not_expired : CardDetails → YearMonth → Result (Unit {0}) CardDetailsError
assert_not_expired c now =
    bail_if (ltb c.exp_year now.year || (c.exp_year == now.year && ltb c.exp_month now.month))
      card_expired
