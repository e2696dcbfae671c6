-- ===== src/Service/Notifications.antt =====
-- internal/service/notification_service.go
use Prim.Native.String
use wallet_ledger_service.Common.{String, map, ⊤}
use wallet_ledger_service.Model.{Uuid, Notification}
use wallet_ledger_service.World.{Env, M, push, pure, ◌>>=◌, ◌>>◌}
use wallet_ledger_service.Repository.Notifications
use wallet_ledger_service.Dto.{PaginationRequest, set_defaults, offset, pagination_response}
use wallet_ledger_service.Dto.Feeds.{NotificationResponse, NotificationListResponse}

unfoldable pub notification_response : Notification → NotificationResponse
notification_response n = record {
  id = n.id;
  user_id = n.user_id;
  title = n.title;
  message = n.message;
  is_read = n.is_read;
  created_at = n.created_at;
}

module _ (env : Env) where
  unfoldable pub create_and_push_notification : Uuid → String → String → M Notification
  create_and_push_notification user_id title message = do
    n ← Notifications.create env user_id title message
    push env (String.◌++◌ "user:notifications:" (env.uuid_string user_id)) n
    pure n

  unfoldable pub get_notifications : Uuid → PaginationRequest → M NotificationListResponse
  get_notifications user_id pagination = do
    let p = set_defaults pagination
    listed ← Notifications.find_by_user_id env user_id p.limit (offset p)
    pure (record {
      notifications = map notification_response listed.0;
      pagination = pagination_response p listed.1;
    })

  unfoldable pub mark_as_read : Uuid → Uuid → M ⊤
  mark_as_read id user_id = Notifications.mark_as_read env id user_id

  unfoldable pub clear_all : Uuid → M ⊤
  clear_all user_id = Notifications.clear_all env user_id
