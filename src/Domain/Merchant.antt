-- ===== src/Domain/Merchant.antt =====
-- Merchants (crates/domain/src/merchant.rs). A text is the list of its characters.
use payment_gateway_sandbox.Prelude.{
  ℕ, ◌≡◌, ap, arith, Bool, true, false, Bool-cases, not, ◌&&◌, ◌||◌, Option, none, some, List, [],
  ◌∷◌, ◌++◌, ◌==◌, if◌then◌else◌, inl, inr,
}
use payment_gateway_sandbox.Prelude.Bytes.{Bytes, eq_bytes, eq_bytes_sound, split_once}
use payment_gateway_sandbox.Prelude.Text.{trim}
use payment_gateway_sandbox.Prelude.Result.{Result, ok, ◌>>◌, bail_if}

pub data MerchantError : Type 0 where
  empty_name : MerchantError
  invalid_email : Bytes → MerchantError

pub record Merchant : Type 0 where
  pub id : ℕ
  pub name : Bytes
  pub email : Bytes
  pub checkout_allowed_domains : List Bytes
  pub created_at : ℕ

abbrev pub is_empty : Bytes → Bool
is_empty [] = true
is_empty _ = false

unfoldable pub contains_char : ℕ → Bytes → Bool
contains_char c [] = false
contains_char c (x ∷ xs) = x == c || contains_char c xs

abbrev starts_with_char : ℕ → Bytes → Bool
starts_with_char c [] = false
starts_with_char c (x ∷ _) = x == c

unfoldable pub ends_with_char : ℕ → Bytes → Bool
ends_with_char c [] = false
ends_with_char c (x ∷ []) = x == c
ends_with_char c (_ ∷ y ∷ ys) = ends_with_char c (y ∷ ys)

abbrev pub is_plausible_parts : Option (Bytes × Bytes) → Bool
is_plausible_parts none = false
is_plausible_parts (some (local_part, domain)) =
    not (is_empty local_part)
    && contains_char b'.' domain
    && not (starts_with_char b'.' domain)
    && not (ends_with_char b'.' domain)

unfoldable pub is_plausible_email : Bytes → Bool
unfolding split_once contains_char ends_with_char
is_plausible_email email = is_plausible_parts (split_once b'@' email)

-- `Merchant::new`
unfoldable pub new_merchant : ℕ → Bytes → Bytes → ℕ → Result Merchant MerchantError
unfolding is_plausible_email trim
new_merchant id name email now = do
  bail_if (is_empty (trim name)) empty_name
  bail_if (not (is_plausible_email email)) (invalid_email email)
  ok (record {
    id = id;
    name = name;
    email = email;
    checkout_allowed_domains = [];
    created_at = now;
  })

-- `contains` and `any(|d| d == origin)` on the list of domains
unfoldable pub any_domain : Bytes → List Bytes → Bool
any_domain origin [] = false
any_domain origin (d ∷ ds) = eq_bytes d origin || any_domain origin ds

unfoldable pub allow_checkout_domain : Bytes → Merchant → Merchant
unfolding any_domain
allow_checkout_domain domain m =
    if any_domain domain m.checkout_allowed_domains
    then m
    else record m { checkout_allowed_domains = m.checkout_allowed_domains ++ domain ∷ [] }

unfoldable pub allows_checkout_origin : Bytes → Merchant → Bool
unfolding any_domain
allows_checkout_origin origin m = any_domain origin m.checkout_allowed_domains

any_domain-append :
    (origin d : Bytes) (ds : List Bytes)
    → any_domain origin (ds ++ d ∷ []) ≡ (any_domain origin ds || eq_bytes d origin)
unfolding any_domain
any_domain-append origin d [] = ground arith
any_domain-append origin d (x ∷ xs) = ground (arith, any_domain-append origin d xs)

-- Allowing a domain allows exactly this domain on top of those that were allowed.
pub allows-allow :
    (origin domain : Bytes) (m : Merchant)
    → allows_checkout_origin origin (allow_checkout_domain domain m)
      ≡ (allows_checkout_origin origin m || eq_bytes domain origin)
unfolding allows_checkout_origin allow_checkout_domain
allows-allow origin domain m = elim (Bool-cases (any_domain domain m.checkout_allowed_domains)) [
  | inl e ↦ elim (Bool-cases (eq_bytes domain origin)) [
    | inl s ↦ rw e (
        ground (
          arith,
          s,
          e,
          ap (λ (o : Bytes). any_domain o m.checkout_allowed_domains)
              (eq_bytes_sound domain origin s),
        ))
    | inr s ↦ rw e (ground (arith, s))
  ]
  | inr e ↦ rw e (any_domain-append origin domain m.checkout_allowed_domains)
]
