-- ===== src/Repository/Notifications.antt =====
-- internal/repository/notification_repository.go
use wallet_ledger_service.Common.{ℕ, String, some, List, ⊤}
use wallet_ledger_service.Common.Int.{ℤ}
use wallet_ledger_service.Model.{Uuid, Notification}
use wallet_ledger_service.Failure.{ok}
use wallet_ledger_service.Database.{NotificationRow}
use wallet_ledger_service.Sql.Notifications.{
  create_notification, find_notifications_by_user_id, count_notifications_by_user_id,
  mark_notification_as_read, clear_notifications_by_user_id,
}
use wallet_ledger_service.World.{Env, M, no_tx, query, wrap, ◌>>=◌, pure}
use wallet_ledger_service.Repository.Common.{valid_or_zero, list_page, writing}

unfoldable pub map_notification : NotificationRow → Notification
map_notification n = record {
  id = valid_or_zero n.id;
  user_id = valid_or_zero n.user_id;
  title = n.title;
  message = n.message;
  is_read = n.is_read;
  created_at = valid_or_zero n.created_at;
}

module _ (env : Env) where
  unfoldable pub create : Uuid → String → String → M Notification
  create user_id title message = do
    row ← wrap "create notification query failed" (
        query env no_tx
          λ n. create_notification (env.new_uuid n) (env.now n) (some user_id) title message)
    pure (map_notification row)

  unfoldable pub find_by_user_id : Uuid → ℤ → ℤ → M (List Notification × ℕ)
  find_by_user_id user_id limit offset =
      list_page env "find notifications by user id query failed"
        "count notifications by user id query failed" map_notification limit offset
        (find_notifications_by_user_id (some user_id))
        (count_notifications_by_user_id (some user_id))

  unfoldable pub mark_as_read : Uuid → Uuid → M ⊤
  mark_as_read id user_id =
      wrap "mark notification as read query failed" (
        query env no_tx λ n. writing λ d. ok (mark_notification_as_read (some id) (some user_id) d))

  unfoldable pub clear_all : Uuid → M ⊤
  clear_all user_id =
      wrap "clear notifications query failed"
        (query env no_tx λ n. writing λ d. ok (clear_notifications_by_user_id (some user_id) d))
