-- ===== src/Database.antt =====
-- The tables of database/migrations, in the row types that sqlc derives from them: a `pgtype`
-- value with `Valid` false is `none` (`null` for a number).
use wallet_ledger_service.Common.{String, Bool, true, false, Option, none, some, List, [], ◌==◌}
use wallet_ledger_service.Common.Int.{pos, leb_ℤ}
use wallet_ledger_service.Model.{Uuid, Time, Decimal}
use wallet_ledger_service.Failure.{
  Result, ok, err, violates, not_null_violation, numeric_out_of_range,
}

-- `pgtype.Numeric`: not valid; valid with no integer (NaN and the infinities); a number.
pub data Numeric : Type 0 where
  null nan : Numeric
  num : Decimal → Numeric

pub record UserRow : Type 0 where
  pub id : Option Uuid
  pub email : String
  pub password_hash : String
  pub role : String
  pub created_at : Option Time
  pub updated_at : Option Time

pub record WalletRow : Type 0 where
  pub id : String
  pub user_id : Option Uuid
  pub balance : Numeric
  pub currency : String
  pub created_at : Option Time
  pub updated_at : Option Time

pub record TransactionRow : Type 0 where
  pub id : Option Uuid
  pub reference_no : String
  pub type : String
  pub status : String
  pub amount : Numeric
  pub source_wallet_id : Option String
  pub target_wallet_id : Option String
  pub created_at : Option Time

pub record LedgerEntryRow : Type 0 where
  pub id : String
  pub transaction_id : Option Uuid
  pub wallet_id : String
  pub entry_type : String
  pub amount : Numeric
  pub created_at : Option Time

pub record AuditLogRow : Type 0 where
  pub id : String
  pub user_id : Option Uuid
  pub action : String
  pub ip_address : String
  pub endpoint : String
  pub created_at : Option Time

pub record NotificationRow : Type 0 where
  pub id : Option Uuid
  pub user_id : Option Uuid
  pub title : String
  pub message : String
  pub is_read : Bool
  pub created_at : Option Time

-- Each table lists its rows in the order of insertion.
pub record Database : Type 0 where
  pub users : List UserRow
  pub wallets : List WalletRow
  pub transactions : List TransactionRow
  pub ledger_entries : List LedgerEntryRow
  pub audit_logs : List AuditLogRow
  pub notifications : List NotificationRow

abbrev pub empty : Database
empty = record {
  users = [];
  wallets = [];
  transactions = [];
  ledger_entries = [];
  audit_logs = [];
  notifications = [];
}

-- SQL's `=` on a nullable uuid: a null equals nothing.
abbrev pub eq_uuid : Option Uuid → Option Uuid → Bool
eq_uuid (some a) (some b) = a == b
eq_uuid _ _ = false

-- A write to a column `DECIMAL(18,2) NOT NULL`. What the column keeps of a number is PostgreSQL's
-- and comes as `column`, with `none` for one that is out of range.
abbrev pub store : (Decimal → Option Decimal) → Numeric → Result Numeric
store column null = err (violates not_null_violation)
store column nan = ok nan
store column (num x) = elim (column x) [
  | none ↦ err (violates numeric_out_of_range)
  | some y ↦ ok (num y)
]

-- `CHECK (balance >= 0)`; PostgreSQL orders NaN above every number.
abbrev pub is_nonneg : Numeric → Bool
is_nonneg (num x) = leb_ℤ (pos 0) x
is_nonneg _ = true

-- `CHECK (amount > 0)`
abbrev pub is_positive : Numeric → Bool
is_positive (num x) = leb_ℤ (pos 1) x
is_positive _ = true
