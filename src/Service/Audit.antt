-- ===== src/Service/Audit.antt =====
-- internal/service/audit_service.go
pub mod Filters
use wallet_ledger_service.Common.{String, Option, map, ⊤}
use wallet_ledger_service.Model.{Uuid, AuditLog}
use wallet_ledger_service.World.{Env, M, pure, ◌>>=◌}
use wallet_ledger_service.Utils.Ids.{generate_audit_log_id}
use wallet_ledger_service.Repository.AuditLogs
use wallet_ledger_service.Dto.{PaginationRequest, set_defaults, offset, pagination_response}
use wallet_ledger_service.Dto.Feeds.{AuditLogResponse, AuditLogListResponse}

unfoldable pub audit_log_response : AuditLog → AuditLogResponse
audit_log_response l = record {
  log_id = l.id;
  user_id = l.user_id;
  action = l.action;
  ip_address = l.ip_address;
  endpoint = l.endpoint;
  created_at = l.created_at;
}

module _ (env : Env) where
  -- The id that the caller's record gets is the one that is stored.
  unfoldable pub create_log : AuditLog → M ⊤
  create_log log = do
    id ← generate_audit_log_id env
    created ← AuditLogs.create env (record log { id = id })
    pure tt

  unfoldable pub get_logs : Uuid → PaginationRequest → M AuditLogListResponse
  get_logs user_id pagination = do
    let p = set_defaults pagination
    listed ← AuditLogs.find_by_user_id env user_id p.limit (offset p)
    pure (record {
      logs = map audit_log_response listed.0;
      pagination = pagination_response p listed.1;
    })

  unfoldable pub get_all_logs :
      Option Uuid → Option String → PaginationRequest → M AuditLogListResponse
  get_all_logs user_id action pagination = do
    let p = set_defaults pagination
    listed ← AuditLogs.find_all env user_id action p.limit (offset p)
    pure (record {
      logs = map audit_log_response listed.0;
      pagination = pagination_response p listed.1;
    })
