-- ===== src/Dto/Bodies.antt =====
-- The request and response bodies of internal/dto.
use wallet_ledger_service.Common.{String, Option, List}
use wallet_ledger_service.Model.{Uuid, Time, Decimal}
use wallet_ledger_service.Dto.Pagination.{PaginationResponse}

pub record TopUpRequest : Type 0 where
  pub amount : Decimal

pub record TopUpResponse : Type 0 where
  pub transaction_id : Uuid
  pub reference_no : String
  pub type : String
  pub status : String
  pub amount : Decimal
  pub wallet_id : String
  pub balance_after : Decimal
  pub created_at : Time

pub record TransferRequest : Type 0 where
  pub target_wallet_id : String
  pub amount : Decimal

pub record TransferResponse : Type 0 where
  pub transaction_id : Uuid
  pub reference_no : String
  pub type : String
  pub status : String
  pub amount : Decimal
  pub source_wallet_id : String
  pub target_wallet_id : String
  pub balance_after : Decimal
  pub created_at : Time

pub record TransactionResponse : Type 0 where
  pub transaction_id : Uuid
  pub reference_no : String
  pub type : String
  pub status : String
  pub amount : Decimal
  pub source_wallet_id : Option String
  pub target_wallet_id : String
  pub created_at : Time

pub record LedgerEntryResponse : Type 0 where
  pub entry_id : String
  pub transaction_id : Uuid
  pub wallet_id : String
  pub entry_type : String
  pub amount : Decimal
  pub created_at : Time

pub record TransactionDetailResponse : Type 0 where
  pub transaction : TransactionResponse
  pub ledger_entries : List LedgerEntryResponse

pub record TransactionListResponse : Type 0 where
  pub transactions : List TransactionResponse
  pub pagination : PaginationResponse

pub record LedgerListResponse : Type 0 where
  pub entries : List LedgerEntryResponse
  pub pagination : PaginationResponse

pub record WalletResponse : Type 0 where
  pub wallet_id : String
  pub user_id : Uuid
  pub balance : Decimal
  pub currency : String
  pub created_at : Time
  pub updated_at : Time

pub record RegisterRequest : Type 0 where
  pub email : String
  pub password : String
  pub confirm_password : String

pub record RegisterResponse : Type 0 where
  pub user_id : Uuid
  pub email : String
  pub wallet_id : String
  pub created_at : Time

pub record LoginRequest : Type 0 where
  pub email : String
  pub password : String

pub record LoginResponse : Type 0 where
  pub user_id : Uuid
  pub email : String
  pub role : String

pub record AdminUserResponse : Type 0 where
  pub user_id : Uuid
  pub email : String
  pub role : String
  pub wallet_id : String
  pub balance : Decimal
  pub created_at : Time

pub record AdminUserListResponse : Type 0 where
  pub users : List AdminUserResponse
  pub pagination : PaginationResponse
