-- ===== src/Repository/AuditLogs.antt =====
-- internal/repository/audit_repository.go
use wallet_ledger_service.Common.{ℕ, String, Option, none, some, List}
use wallet_ledger_service.Common.Int.{ℤ}
use wallet_ledger_service.Model.{Uuid, AuditLog}
use wallet_ledger_service.Database.{AuditLogRow}
use wallet_ledger_service.Sql.AuditLogs.{
  create_audit_log, find_audit_logs_by_user_id, count_audit_logs_by_user_id, find_all_audit_logs,
  count_all_audit_logs, find_all_audit_logs_by_action, count_all_audit_logs_by_action,
  find_all_audit_logs_by_user_id_and_action, count_all_audit_logs_by_user_id_and_action,
}
use wallet_ledger_service.World.{Env, M, no_tx, query, wrap, ◌>>=◌, pure}
use wallet_ledger_service.Repository.Common.{valid_or_zero, list_page}

unfoldable pub map_audit_log : AuditLogRow → AuditLog
map_audit_log l = record {
  id = l.id;
  user_id = valid_or_zero l.user_id;
  action = l.action;
  ip_address = l.ip_address;
  endpoint = l.endpoint;
  created_at = valid_or_zero l.created_at;
}

module _ (env : Env) where
  unfoldable pub create : AuditLog → M AuditLog
  create log = do
    row ← wrap "create audit log query failed" (
        query env no_tx λ n. create_audit_log (env.now n) (record {
          id = log.id;
          user_id = some log.user_id;
          action = log.action;
          ip_address = log.ip_address;
          endpoint = log.endpoint;
        }))
    pure (map_audit_log row)

  unfoldable pub find_by_user_id : Uuid → ℤ → ℤ → M (List AuditLog × ℕ)
  find_by_user_id user_id limit offset =
      list_page env "find audit logs by user id query failed"
        "count audit logs by user id query failed" map_audit_log limit offset
        (find_audit_logs_by_user_id (some user_id)) (count_audit_logs_by_user_id (some user_id))

  unfoldable pub find_all : Option Uuid → Option String → ℤ → ℤ → M (List AuditLog × ℕ)
  find_all (some user_id) (some action) limit offset =
      list_page env "find all audit logs by user id and action query failed"
        "count all audit logs by user id and action query failed" map_audit_log limit offset
        (find_all_audit_logs_by_user_id_and_action (some user_id) action)
        (count_all_audit_logs_by_user_id_and_action (some user_id) action)
  find_all (some user_id) none limit offset =
      list_page env "find all audit logs by user id query failed"
        "count all audit logs by user id query failed" map_audit_log limit offset
        (find_audit_logs_by_user_id (some user_id)) (count_audit_logs_by_user_id (some user_id))
  find_all none (some action) limit offset =
      list_page env "find all audit logs by action query failed"
        "count all audit logs by action query failed" map_audit_log limit offset
        (find_all_audit_logs_by_action action) (count_all_audit_logs_by_action action)
  find_all none none limit offset =
      list_page env "find all audit logs query failed" "count all audit logs query failed"
        map_audit_log limit offset find_all_audit_logs count_all_audit_logs
