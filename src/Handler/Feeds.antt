-- ===== src/Handler/Feeds.antt =====
-- internal/handler/audit_handler.go, and internal/handler/notification_handler.go without its stream.
use wallet_ledger_service.Common.{ℕ, Option, none, some, [], str_eq, if◌then◌else◌}
use wallet_ledger_service.World.{Env}
use wallet_ledger_service.Dto.{PaginationRequest}
use wallet_ledger_service.Http.{
  Context, Bound, Wire, write_success, write_error, no_payload, audit_payload,
  notifications_payload,
}
use wallet_ledger_service.Handler.Replies.{
  Serve, reply, with_user, with_bound, optional_query, internal_error, settle,
}
use wallet_ledger_service.Service.Audit.{get_logs, get_all_logs}
use wallet_ledger_service.Service.Notifications.{get_notifications, mark_as_read, clear_all}

module _ (env : Env) (c : Context) where
  unfoldable pub handle_get_audit_logs : Bound PaginationRequest → Serve
  handle_get_audit_logs query = with_user c λ user_id. with_bound query λ pagination.
      settle (λ e. internal_error)
        (λ res. write_success 200 "Audit logs retrieved successfully" (audit_payload res))
        (get_logs env user_id pagination)

  audit_logs_of : Option ℕ → PaginationRequest → Serve
  audit_logs_of user_id pagination =
      settle (λ e. internal_error)
        (λ res. write_success 200 "Audit logs retrieved successfully" (audit_payload res))
        (get_all_logs env user_id (optional_query c "action") pagination)

  unfoldable pub handle_get_audit_logs_admin : Wire → Bound PaginationRequest → Serve
  unfolding audit_logs_of
  handle_get_audit_logs_admin wire query = with_bound query λ pagination.
      if str_eq (c.query "user_id") ""
      then audit_logs_of none pagination
      else elim (wire.parse_uuid (c.query "user_id")) [
        | none ↦ reply (write_error 400 "Invalid user_id format" [])
        | some id ↦ audit_logs_of (some id) pagination
      ]

  unfoldable pub handle_get_notifications : Bound PaginationRequest → Serve
  handle_get_notifications query = with_user c λ user_id. with_bound query λ pagination.
      settle (λ e. internal_error)
        (λ res.
          write_success 200 "Notifications retrieved successfully" (notifications_payload res))
        (get_notifications env user_id pagination)

  unfoldable pub handle_mark_as_read : Wire → Serve
  handle_mark_as_read wire = with_user c λ user_id. elim (wire.parse_uuid (c.param "id")) [
    | none ↦ reply (write_error 400 "Invalid notification ID format" [])
    | some id ↦
        settle (λ e. internal_error)
          (λ res. write_success 200 "Notification marked as read successfully" no_payload)
          (mark_as_read env id user_id)
  ]

  unfoldable pub handle_clear_all : Serve
  handle_clear_all = with_user c λ user_id.
      settle (λ e. internal_error)
        (λ res. write_success 200 "Notifications cleared successfully" no_payload)
        (clear_all env user_id)
