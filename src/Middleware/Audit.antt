-- ===== src/Middleware/Audit.antt =====
-- internal/middleware/audit_middleware.go
use Prim.Native.String
use wallet_ledger_service.Common.{
  String, Bool, none, some, [], ◌∷◌, ◌++◌, leb, str_eq, ◌-◌, ◌&&◌, ◌||◌, if◌then◌else◌,
}
use wallet_ledger_service.Model.{Uuid}
use wallet_ledger_service.World.{Env}
use wallet_ledger_service.Http.{Context, Answer, replied, panicking, uuid, text}
use wallet_ledger_service.Middleware.Site.{Site, Chain, AuditEvent, tick, is_success}

-- `strings.HasSuffix` and `strings.Contains`
abbrev ends_with : String → String → Bool
ends_with s t =
    leb (String.len t) (String.len s)
    && str_eq (String.slice s (String.len s - String.len t) (String.len s)) t

abbrev contains : String → String → Bool
contains s t = leb (String.find s t) (String.len s)

unfoldable pub get_action : String → String → String
get_action method path =
    if str_eq method "POST" && ends_with path "/wallets/topup"
    then "TOPUP"
    else if str_eq method "POST" && ends_with path "/transfers"
    then "TRANSFER"
    else if str_eq method "POST" && ends_with path "/auth/register"
    then "REGISTER"
    else if str_eq method "POST" && ends_with path "/auth/login"
    then "LOGIN"
    else if str_eq method "POST" && ends_with path "/auth/logout"
    then "LOGOUT"
    else if str_eq method "GET" && ends_with path "/wallets/me"
    then "VIEW_BALANCE"
    else if str_eq method "GET" && ends_with path "/admin/transactions"
    then "ADMIN_VIEW_TRANSACTIONS"
    else if str_eq method "GET"
        && (contains path "/transactions/" || contains path "/admin/transactions/")
    then (if contains path "/admin/"
        then "ADMIN_VIEW_TRANSACTION_DETAIL"
        else "VIEW_TRANSACTION_DETAIL")
    else if str_eq method "GET" && ends_with path "/transactions"
    then "VIEW_TRANSACTIONS"
    else if str_eq method "GET" && ends_with path "/ledger/entries"
    then "VIEW_LEDGER"
    else if str_eq method "GET" && ends_with path "/audit/logs"
    then "VIEW_AUDIT_LOGS"
    else if str_eq method "GET" && ends_with path "/admin/audit-logs"
    then "ADMIN_VIEW_AUDIT_LOGS"
    else if str_eq method "GET" && ends_with path "/admin/users"
    then "ADMIN_VIEW_USERS"
    else String.◌++◌ method (String.◌++◌ "_" path)

-- The event is handed on to a goroutine that publishes it; a nil channel or a failure drops it there.
abbrev pub audit_event : Env → Context → Site → Uuid → AuditEvent
audit_event env c s id = record {
  user_id = id;
  action = get_action c.method c.path;
  ip_address = c.client_ip;
  endpoint = String.◌++◌ c.method (String.◌++◌ " " c.path);
  timestamp = env.now s.world.calls;
}

abbrev pub record_reply : Env → Context → Answer × Site → Answer × Site
record_reply env c (panicking, s) = (panicking, s)
record_reply env c (replied r, s) = (
  replied r,
  if is_success r.status
      then (elim c.user_id [
        | none ↦ s
        | some (text t) ↦ s
        | some (uuid id) ↦ record (tick s) { audits = s.audits ++ audit_event env c s id ∷ [] }
      ])
      else s,
)

unfoldable pub audit_log : Env → Chain → Chain
audit_log env next c s = record_reply env c (next c s)
