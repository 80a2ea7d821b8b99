-- ===== src/Store/AuditLog.antt =====
-- The audit log (crates/store/src/audit_log.rs): a table that only grows, and its listing.
use payment_gateway_sandbox.Prelude.{
  ℕ, String, Bool, false, Option, none, some, List, [], ◌∷◌, ◌++◌, map, ◌==◌, if◌then◌else◌,
}
use payment_gateway_sandbox.Prelude.Int.{ℤ}
use payment_gateway_sandbox.Store.Listing.{listing}

pub record AuditEntry (Json : Type 0) : Type 0 where
  pub merchant_id : Option ℕ
  pub actor_type : String
  pub actor_id : Option String
  pub action : String
  pub resource_type : Option String
  pub resource_id : Option String
  pub before_state : Option Json
  pub after_state : Option Json
  pub ip_address : Option String

-- A row: the entry with its id and its time.
pub record AuditRow (Json : Type 0) : Type 0 where
  pub id : ℕ
  pub entry : AuditEntry Json
  pub created_at : ℕ

pub record AuditRecord : Type 0 where
  pub action : String
  pub actor_type : String
  pub actor_id : Option String
  pub resource_type : Option String
  pub resource_id : Option String
  pub ip_address : Option String
  pub created_at : ℕ

-- A row without a merchant is no one's.
abbrev is_merchant : ℕ → Option ℕ → Bool
is_merchant merchant none = false
is_merchant merchant (some m) = m == merchant

module _ {Json : Type 0} where
  -- `record`, with the uuid that is drawn
  unfoldable pub record_audit :
      ℕ → AuditEntry Json → ℕ → List (AuditRow Json) → List (AuditRow Json)
  record_audit id entry now table =
      table ++ record { id = id; entry = entry; created_at = now } ∷ []

  unfoldable pub audit_of : ℕ → List (AuditRow Json) → List (AuditRow Json)
  audit_of merchant [] = []
  audit_of merchant (r ∷ rs) =
      if is_merchant merchant r.entry.merchant_id
      then r ∷ audit_of merchant rs
      else audit_of merchant rs

  abbrev pub audit_record : AuditRow Json → AuditRecord
  audit_record r = record {
    action = r.entry.action;
    actor_type = r.entry.actor_type;
    actor_id = r.entry.actor_id;
    resource_type = r.entry.resource_type;
    resource_id = r.entry.resource_id;
    ip_address = r.entry.ip_address;
    created_at = r.created_at;
  }

  -- `list_for_merchant`
  unfoldable pub list_audit : ℕ → ℤ → List (AuditRow Json) → List AuditRecord
  unfolding audit_of listing
  list_audit merchant limit table =
      map audit_record (listing (λ r. r.created_at) none limit (audit_of merchant table))
