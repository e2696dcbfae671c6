-- ===== src/Sql/Notifications.antt =====
-- database/queries/notifications.sql, with the constraints of
-- 000006_create_notifications_table.up.sql.
use wallet_ledger_service.Common.{
  ℕ, String, true, false, not, ◌&&◌, Option, some, List, [], ◌∷◌, ◌++◌, fits, exists, keep, length,
  update,
}
use wallet_ledger_service.Model.{Uuid, Time}
use wallet_ledger_service.Failure.{
  Result, ok, require, not_null, unique_violation, foreign_key_violation, value_too_long, ◌>>=◌,
  ◌>>◌,
}
use wallet_ledger_service.Database.{NotificationRow, UserRow, Database, eq_uuid}
use wallet_ledger_service.Sql.Order.{order_desc, page}

unfoldable pub create_notification :
    Uuid → Time → Option Uuid → String → String → Database → Result (NotificationRow × Database)
create_notification id now owner title message d = do
  require (fits 100 title) value_too_long
  user_id ← not_null owner
  require (not (exists (λ (n : NotificationRow). eq_uuid n.id (some id)) d.notifications))
      unique_violation
  require (exists (λ (u : UserRow). eq_uuid u.id (some user_id)) d.users) foreign_key_violation
  let row : NotificationRow = record {
    id = some id;
    user_id = some user_id;
    title = title;
    message = message;
    is_read = false;
    created_at = some now;
  }
  ok (row, record d { notifications = d.notifications ++ row ∷ [] })

unfoldable pub find_notifications_by_user_id : Option Uuid → ℕ → ℕ → Database → List NotificationRow
find_notifications_by_user_id id limit offset d = page limit offset (
    order_desc (λ (n : NotificationRow). n.created_at)
      (keep (λ n. eq_uuid n.user_id id) d.notifications))

unfoldable pub count_notifications_by_user_id : Option Uuid → Database → ℕ
count_notifications_by_user_id id d = length (keep (λ n. eq_uuid n.user_id id) d.notifications)

abbrev pub set_read : NotificationRow → NotificationRow
set_read n = record n { is_read = true }

unfoldable pub mark_notification_as_read : Option Uuid → Option Uuid → Database → Database
mark_notification_as_read id user_id d = record d {
  notifications =
      update (λ n. eq_uuid n.id id && eq_uuid n.user_id user_id) set_read d.notifications;
}

unfoldable pub clear_notifications_by_user_id : Option Uuid → Database → Database
clear_notifications_by_user_id user_id d = record d {
  notifications = keep (λ n. not (eq_uuid n.user_id user_id)) d.notifications;
}
