-- ===== src/Model.antt =====
-- The domain types of internal/model. A `uuid.UUID` is its 128-bit value with `uuid.Nil` 0, a
-- `time.Time` is a count with the zero time 0, and a `decimal.Decimal` is its value as a count of
-- units of the last decimal place in use: `Add`, `Sub` and `LessThan` of that package are exact.
use wallet_ledger_service.Common.{ℕ, String, Bool, Option}
use wallet_ledger_service.Common.Int.{ℤ}

abbrev pub Uuid : Type 0
Uuid = ℕ

abbrev pub Time : Type 0
Time = ℕ

abbrev pub Decimal : Type 0
Decimal = ℤ

abbrev pub transaction_type_top_up : String
transaction_type_top_up = "TOPUP"

abbrev pub transaction_type_transfer : String
transaction_type_transfer = "TRANSFER"

abbrev pub transaction_status_pending : String
transaction_status_pending = "PENDING"

abbrev pub transaction_status_completed : String
transaction_status_completed = "COMPLETED"

abbrev pub entry_type_debit : String
entry_type_debit = "DEBIT"

abbrev pub entry_type_credit : String
entry_type_credit = "CREDIT"

abbrev pub user_role_user : String
user_role_user = "USER"

abbrev pub user_role_admin : String
user_role_admin = "ADMIN"

pub record User : Type 0 where
  pub id : Uuid
  pub email : String
  pub password_hash : String
  pub role : String
  pub created_at : Time
  pub updated_at : Time

pub record UserWithWallet : Type 0 where
  pub user : User
  pub wallet_id : String
  pub wallet_balance : Decimal

pub record Wallet : Type 0 where
  pub id : String
  pub user_id : Uuid
  pub balance : Decimal
  pub currency : String
  pub created_at : Time
  pub updated_at : Time

-- `source_wallet_id` is a `*string`, nil for a top-up.
pub record Transaction : Type 0 where
  pub id : Uuid
  pub reference_no : String
  pub type : String
  pub status : String
  pub amount : Decimal
  pub source_wallet_id : Option String
  pub target_wallet_id : String
  pub created_at : Time

pub record LedgerEntry : Type 0 where
  pub id : String
  pub transaction_id : Uuid
  pub wallet_id : String
  pub entry_type : String
  pub amount : Decimal
  pub created_at : Time

pub record AuditLog : Type 0 where
  pub id : String
  pub user_id : Uuid
  pub action : String
  pub ip_address : String
  pub endpoint : String
  pub created_at : Time

pub record Notification : Type 0 where
  pub id : Uuid
  pub user_id : Uuid
  pub title : String
  pub message : String
  pub is_read : Bool
  pub created_at : Time
