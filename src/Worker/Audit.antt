-- ===== src/Worker/Audit.antt =====
-- internal/worker/audit_worker.go
pub mod Records
use wallet_ledger_service.Common.{String, ⊤, Option, none, some, str_eq, if◌then◌else◌}
use wallet_ledger_service.Model.{Uuid, AuditLog}
use wallet_ledger_service.Failure.{malformed}
use wallet_ledger_service.World.{Env, or_fail, wrap, ◌>>=◌}
use wallet_ledger_service.Service.Audit.{create_log}
use wallet_ledger_service.Worker.Messages.{WalletEventMsg, AuditData, Decoders}
use wallet_ledger_service.Worker.Consume.{Process}

abbrev or_else : String → String → String
or_else s t = if str_eq s "" then t else s

-- An event of the middleware may carry its own action, address and endpoint.
abbrev with_data : AuditLog → Option AuditData → AuditLog
with_data log none = log
with_data log (some a) = record log {
  action = or_else a.action log.action;
  ip_address = or_else a.ip_address log.ip_address;
  endpoint = or_else a.endpoint log.endpoint;
}

-- The id is still empty.
unfoldable pub log_of : Decoders → WalletEventMsg → Uuid → AuditLog
log_of decoders evt uid =
    let log : AuditLog = record {
      id = "";
      user_id = uid;
      action = evt.event_type;
      ip_address = evt.ip_address;
      endpoint = evt.endpoint;
      created_at = evt.timestamp;
    } in
    if str_eq evt.event_type "AUDIT"
    then with_data log (decoders.audit_data evt.event_data)
    else log

unfoldable pub process_audit : Env → Decoders → Process
process_audit env decoders body = do
  evt ← wrap "failed to unmarshal wallet event message" (or_fail (decoders.event body) malformed)
  uid ← wrap "invalid user id in event" (or_fail (decoders.parse_uuid evt.user_id) malformed)
  create_log env (log_of decoders evt uid)
