-- ===== src/Sql/AuditLogs.antt =====
-- database/queries/audit_logs.sql, with the constraints of 000005_create_audit_logs_table.up.sql
-- as 000007_alter_audit_logs_action_length.up.sql leaves them.
use wallet_ledger_service.Common.{
  ℕ, String, not, ◌&&◌, Option, some, List, [], ◌∷◌, ◌++◌, str_eq, fits, exists, keep, length,
}
use wallet_ledger_service.Model.{Uuid, Time}
use wallet_ledger_service.Failure.{
  Result, ok, require, not_null, unique_violation, foreign_key_violation, value_too_long, ◌>>=◌,
  ◌>>◌,
}
use wallet_ledger_service.Database.{AuditLogRow, UserRow, Database, eq_uuid}
use wallet_ledger_service.Sql.Order.{order_desc, page}

pub record CreateAuditLogParams : Type 0 where
  pub id : String
  pub user_id : Option Uuid
  pub action : String
  pub ip_address : String
  pub endpoint : String

unfoldable pub create_audit_log :
    Time → CreateAuditLogParams → Database → Result (AuditLogRow × Database)
create_audit_log now p d = do
  require (fits 20 p.id && fits 255 p.action && fits 45 p.ip_address && fits 255 p.endpoint)
      value_too_long
  user_id ← not_null p.user_id
  require (not (exists (λ (l : AuditLogRow). str_eq l.id p.id) d.audit_logs)) unique_violation
  require (exists (λ (u : UserRow). eq_uuid u.id (some user_id)) d.users) foreign_key_violation
  let row : AuditLogRow = record {
    id = p.id;
    user_id = some user_id;
    action = p.action;
    ip_address = p.ip_address;
    endpoint = p.endpoint;
    created_at = some now;
  }
  ok (row, record d { audit_logs = d.audit_logs ++ row ∷ [] })

abbrev pub newest : List AuditLogRow → List AuditLogRow
newest = order_desc (λ (l : AuditLogRow). l.created_at)

unfoldable pub find_audit_logs_by_user_id : Option Uuid → ℕ → ℕ → Database → List AuditLogRow
find_audit_logs_by_user_id id limit offset d =
    page limit offset (newest (keep (λ l. eq_uuid l.user_id id) d.audit_logs))

unfoldable pub count_audit_logs_by_user_id : Option Uuid → Database → ℕ
count_audit_logs_by_user_id id d = length (keep (λ l. eq_uuid l.user_id id) d.audit_logs)

unfoldable pub find_all_audit_logs : ℕ → ℕ → Database → List AuditLogRow
find_all_audit_logs limit offset d = page limit offset (newest d.audit_logs)

unfoldable pub count_all_audit_logs : Database → ℕ
count_all_audit_logs d = length d.audit_logs

unfoldable pub find_all_audit_logs_by_action : String → ℕ → ℕ → Database → List AuditLogRow
find_all_audit_logs_by_action action limit offset d =
    page limit offset (newest (keep (λ l. str_eq l.action action) d.audit_logs))

unfoldable pub count_all_audit_logs_by_action : String → Database → ℕ
count_all_audit_logs_by_action action d = length (keep (λ l. str_eq l.action action) d.audit_logs)

unfoldable pub find_all_audit_logs_by_user_id_and_action :
    Option Uuid → String → ℕ → ℕ → Database → List AuditLogRow
find_all_audit_logs_by_user_id_and_action id action limit offset d =
    page limit offset
      (newest (keep (λ l. eq_uuid l.user_id id && str_eq l.action action) d.audit_logs))

unfoldable pub count_all_audit_logs_by_user_id_and_action : Option Uuid → String → Database → ℕ
count_all_audit_logs_by_user_id_and_action id action d =
    length (keep (λ l. eq_uuid l.user_id id && str_eq l.action action) d.audit_logs)
