-- ===== src/Dto/Feeds.antt =====
-- The responses of internal/dto/audit_dto.go and internal/dto/notification_dto.go.
use wallet_ledger_service.Common.{String, Bool, List}
use wallet_ledger_service.Model.{Uuid, Time}
use wallet_ledger_service.Dto.Pagination.{PaginationResponse}

pub record AuditLogResponse : Type 0 where
  pub log_id : String
  pub user_id : Uuid
  pub action : String
  pub ip_address : String
  pub endpoint : String
  pub created_at : Time

pub record AuditLogListResponse : Type 0 where
  pub logs : List AuditLogResponse
  pub pagination : PaginationResponse

pub record NotificationResponse : Type 0 where
  pub id : Uuid
  pub user_id : Uuid
  pub title : String
  pub message : String
  pub is_read : Bool
  pub created_at : Time

pub record NotificationListResponse : Type 0 where
  pub notifications : List NotificationResponse
  pub pagination : PaginationResponse
