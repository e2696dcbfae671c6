-- ===== src/Worker/Messages.antt =====
-- The messages of internal/worker/audit_worker.go and notification_worker.go, and encoding/json on
-- them.
use wallet_ledger_service.Common.{String, Option}
use wallet_ledger_service.Model.{Uuid, Time, Decimal}

-- `event_data` is the JSON of `data` as it came.
pub record WalletEventMsg : Type 0 where
  pub event_type : String
  pub user_id : String
  pub event_data : String
  pub timestamp : Time
  pub ip_address : String
  pub endpoint : String

pub record AuditData : Type 0 where
  pub user_id : String
  pub action : String
  pub ip_address : String
  pub endpoint : String

pub record RegisterEventData : Type 0 where
  pub wallet_id : String

pub record TopUpEventData : Type 0 where
  pub transaction_id : String
  pub reference_no : String
  pub wallet_id : String
  pub amount : Decimal
  pub balance_after : Decimal

pub record TransferEventData : Type 0 where
  pub transaction_id : String
  pub reference_no : String
  pub source_wallet_id : String
  pub target_wallet_id : String
  pub amount : Decimal
  pub balance_after : Decimal

-- `json.Unmarshal` at each type, `uuid.Parse` and `Decimal.String`.
pub record Decoders : Type 0 where
  pub event : String → Option WalletEventMsg
  pub audit_data : String → Option AuditData
  pub register_data : String → Option RegisterEventData
  pub top_up_data : String → Option TopUpEventData
  pub transfer_data : String → Option TransferEventData
  pub parse_uuid : String → Option Uuid
  pub decimal_string : Decimal → String
