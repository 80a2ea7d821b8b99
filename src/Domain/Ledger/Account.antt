-- ===== src/Domain/Ledger/Account.antt =====
-- The chart of accounts and the errors (account_type.rs, ledger_account.rs and ledger_error.rs).
-- A uuid is a number; `LedgerAccountId::new` is the argument `id` of a constructor.
use payment_gateway_sandbox.Prelude.{
  ℕ, String, Bool, true, false, not, Option, none, some, List, ◌≡◌, arith, Enum, if◌then◌else◌,
  refl, ◌⊎◌,
}
use payment_gateway_sandbox.Prelude.Int.{ℤ}
use payment_gateway_sandbox.Prelude.Result.{Result, ok, err}
use payment_gateway_sandbox.Domain.Money.{Currency, MoneyError}
use text.Mathlib.Text.{◌==◌ as str_eq}

pub data BalanceDirection : Type 0 where
  debit_normal credit_normal : BalanceDirection

pub data AccountType : Type 0 where
  gateway_clearing merchant_pending merchant_available merchant_reserve : AccountType
  dispute_holding platform_revenue tax_payable : AccountType

abbrev pub AccountType_index : AccountType → ℕ
AccountType_index gateway_clearing = 0
AccountType_index merchant_pending = 1
AccountType_index merchant_available = 2
AccountType_index merchant_reserve = 3
AccountType_index dispute_holding = 4
AccountType_index platform_revenue = 5
AccountType_index tax_payable = 6

pub AccountType_index_injective :
    (a b : AccountType) → AccountType_index a ≡ AccountType_index b → a ≡ b
AccountType_index_injective a b h = ground arith

instance abbrev pub AccountType_enum : Enum AccountType
AccountType_enum = record {
  discriminant = AccountType_index;
  discriminant_injective = AccountType_index_injective;
}

unfoldable pub normal_balance : AccountType → BalanceDirection
normal_balance gateway_clearing = debit_normal
normal_balance dispute_holding = debit_normal
normal_balance merchant_pending = credit_normal
normal_balance merchant_available = credit_normal
normal_balance merchant_reserve = credit_normal
normal_balance tax_payable = credit_normal
normal_balance platform_revenue = credit_normal

unfoldable pub is_merchant_scoped : AccountType → Bool
is_merchant_scoped merchant_pending = true
is_merchant_scoped merchant_available = true
is_merchant_scoped merchant_reserve = true
is_merchant_scoped dispute_holding = true
is_merchant_scoped gateway_clearing = false
is_merchant_scoped platform_revenue = false
is_merchant_scoped tax_payable = false

-- `AccountType::as_str`
unfoldable pub account_type_str : AccountType → String
account_type_str gateway_clearing = "gateway_clearing"
account_type_str merchant_pending = "merchant_pending"
account_type_str merchant_available = "merchant_available"
account_type_str merchant_reserve = "merchant_reserve"
account_type_str dispute_holding = "dispute_holding"
account_type_str platform_revenue = "platform_revenue"
account_type_str tax_payable = "tax_payable"

-- `AccountType::from_str`; the error keeps the text that is not a type.
unfoldable pub account_type_from_str : String → Result AccountType String
account_type_from_str s =
    if str_eq s "gateway_clearing"
    then ok gateway_clearing
    else if str_eq s "merchant_pending"
    then ok merchant_pending
    else if str_eq s "merchant_available"
    then ok merchant_available
    else if str_eq s "merchant_reserve"
    then ok merchant_reserve
    else if str_eq s "dispute_holding"
    then ok dispute_holding
    else if str_eq s "platform_revenue"
    then ok platform_revenue
    else if str_eq s "tax_payable"
    then ok tax_payable
    else err s

pub data LedgerError : Type 0 where
  too_few_entries : ℕ → LedgerError
  unbalanced : List (Currency × ℤ) → LedgerError
  invalid_account_scope : AccountType → LedgerError
  zero_amount_entry : LedgerError
  ledger_overflow : LedgerError
  ledger_money : MoneyError → LedgerError

pub record LedgerAccount : Type 0 where
  pub id : ℕ
  pub merchant_id : Option ℕ
  pub account_type : AccountType
  pub currency : Currency

unfoldable pub for_merchant : ℕ → ℕ → AccountType → Currency → Result LedgerAccount LedgerError
for_merchant id merchant t c =
    if not (is_merchant_scoped t)
    then err (invalid_account_scope t)
    else ok (record { id = id; merchant_id = some merchant; account_type = t; currency = c })

unfoldable pub for_platform : ℕ → AccountType → Currency → Result LedgerAccount LedgerError
for_platform id t c =
    if is_merchant_scoped t
    then err (invalid_account_scope t)
    else ok (record { id = id; merchant_id = none; account_type = t; currency = c })

abbrev pub is_some {ℓ} : {A : Type ℓ} → Option A → Bool
is_some none = false
is_some (some _) = true

-- `a != b` of two Booleans
abbrev differ : Bool → Bool → Bool
differ true b = not b
differ false b = b

unfoldable pub from_parts : ℕ → Option ℕ → AccountType → Currency → Result LedgerAccount LedgerError
unfolding is_merchant_scoped
from_parts id merchant t c =
    if differ (is_merchant_scoped t) (is_some merchant)
    then err (invalid_account_scope t)
    else ok (record { id = id; merchant_id = merchant; account_type = t; currency = c })

-- A merchant's account has a merchant exactly when its type is one of a merchant's.
pub record IsScoped (a : LedgerAccount) : Type 0 where
  pub scoped : is_merchant_scoped a.account_type ≡ is_some a.merchant_id

-- Every account that a constructor returns has a merchant exactly when its type is a merchant's.
pub constructors-IsScoped :
    (id m : ℕ) (merchant : Option ℕ) (t : AccountType) (c : Currency) {a : LedgerAccount}
    → (for_merchant id m t c ≡ ok a → IsScoped a)
      × (for_platform id t c ≡ ok a → IsScoped a)
      × (from_parts id merchant t c ≡ ok a → IsScoped a)
unfolding for_merchant for_platform from_parts
constructors-IsScoped id m merchant t c {a} =
    (λ h. ground arith, λ h. ground arith, λ h. ground arith)

-- What either constructor builds, `from_parts` reads back from a row.
pub from_parts-constructors :
    (id m : ℕ) (t : AccountType) (c : Currency) {a : LedgerAccount}
    → (for_merchant id m t c ≡ ok a) ⊎ (for_platform id t c ≡ ok a)
    → from_parts a.id a.merchant_id a.account_type a.currency ≡ ok a
unfolding for_merchant for_platform from_parts
from_parts-constructors id m t c h = ground arith

-- Every name of an account type parses back to it.
pub account_type_from_str-account_type_str :
    (t : AccountType) → account_type_from_str (account_type_str t) ≡ ok t
unfolding account_type_from_str account_type_str
account_type_from_str-account_type_str gateway_clearing = refl
account_type_from_str-account_type_str _ = refl
