-- ===== src/Repository/Inbox.antt =====
-- Whose notifications `MarkAsRead` and `ClearAll` of internal/repository/notification_repository.go
-- change.
use wallet_ledger_service.Common.{
  ℕ, suc, ◌≡◌, refl, ap, ◌∙◌, Bool, true, false, not, ◌&&◌, Option, some, List, [], ◌∷◌, keep,
  update, ◌==◌, ◌⊎◌, inl, inr, arith,
}
use wallet_ledger_service.Model.{Uuid}
use wallet_ledger_service.Failure.{ok}
use wallet_ledger_service.Database.{NotificationRow, Database, eq_uuid}
use wallet_ledger_service.World.{Env, World, no_tx, query, run, or_lost, wrap, rewrap}
use wallet_ledger_service.Repository.Common.{writing}
use wallet_ledger_service.Repository.Notifications.{mark_as_read, clear_all}
use wallet_ledger_service.Sql.Notifications.{
  set_read, mark_notification_as_read, clear_notifications_by_user_id,
}

-- The rows of one user, in the order of the table.
abbrev pub inbox : Uuid → Database → List NotificationRow
inbox user_id d = keep (λ n. eq_uuid n.user_id (some user_id)) d.notifications

other_user :
    (a : Option Uuid) (u v : Uuid)
    → (u == v) ≡ false
    → eq_uuid a (some v) ≡ true
    → eq_uuid a (some u) ≡ false
other_user a u v h k = ground arith

mark-others :
    (id u v : Uuid) (ns : List NotificationRow)
    → (u == v) ≡ false
    → keep
        (λ (n : NotificationRow). eq_uuid n.user_id (some v))
        (update (λ n. eq_uuid n.id (some id) && eq_uuid n.user_id (some u)) set_read ns)
      ≡ keep (λ (n : NotificationRow). eq_uuid n.user_id (some v)) ns
mark-others id u v [] h = refl
mark-others id u v (n ∷ ns) h = ground (arith, mark-others id u v ns h, other_user n.user_id u v h)

clear-others :
    (u v : Uuid) (ns : List NotificationRow)
    → (u == v) ≡ false
    → keep
        (λ (n : NotificationRow). eq_uuid n.user_id (some v))
        (keep (λ n. not (eq_uuid n.user_id (some u))) ns)
      ≡ keep (λ (n : NotificationRow). eq_uuid n.user_id (some v)) ns
clear-others u v [] h = refl
clear-others u v (n ∷ ns) h = ground (arith, clear-others u v ns h, other_user n.user_id u v h)

clear-own :
    (u : Uuid) (ns : List NotificationRow)
    → keep
        (λ (n : NotificationRow). eq_uuid n.user_id (some u))
        (keep (λ n. not (eq_uuid n.user_id (some u))) ns)
      ≡ []
clear-own u [] = refl
clear-own u (n ∷ ns) = ground (arith, clear-own u ns)

-- A write outside a transaction is done or not done.
write-either :
    (f : Database → Database) (n : ℕ) (fault lost : Bool) (w : World)
    → ((or_lost fault lost (run no_tx (writing (λ d. ok (f d)))) w).1.db ≡ w.db)
      ⊎ ((or_lost fault lost (run no_tx (writing (λ d. ok (f d)))) w).1.db ≡ f w.db)
write-either f n true false w = inl refl
write-either f n true true w = inr refl
write-either f n false lost w = inr refl

module _ (env : Env) where
  -- Marking a notification as read for one user leaves the notifications of another user as they
  -- were, whether or not the call fails.
  pub mark_as_read-others :
      (id u v : Uuid) (w : World)
      → (u == v) ≡ false
      → inbox v (mark_as_read env id u w).1.db ≡ inbox v w.db
  unfolding mark_as_read wrap query mark_notification_as_read
  mark_as_read-others id u v w h =
      elim (write-either (mark_notification_as_read (some id) (some u)) w.calls (env.fails w.calls)
        (env.applied w.calls) (record w { calls = suc w.calls })) [
          | inl same ↦ ap (inbox v) same
          | inr done ↦ ap (inbox v) done ∙ mark-others id u v w.db.notifications h
        ]

  -- Clearing the notifications of one user leaves those of another user as they were, whether or
  -- not the call fails.
  pub clear_all-others :
      (u v : Uuid) (w : World) → (u == v) ≡ false → inbox v (clear_all env u w).1.db ≡ inbox v w.db
  unfolding clear_all wrap query clear_notifications_by_user_id
  clear_all-others u v w h =
      elim (write-either (clear_notifications_by_user_id (some u)) w.calls (env.fails w.calls)
        (env.applied w.calls) (record w { calls = suc w.calls })) [
          | inl same ↦ ap (inbox v) same
          | inr done ↦ ap (inbox v) done ∙ clear-others u v w.db.notifications h
        ]

  clear_ok :
      (u : Uuid) (fault lost : Bool) (w : World)
      → rewrap "clear notifications query failed"
          (or_lost fault lost
            (run no_tx (writing λ d. ok (clear_notifications_by_user_id (some u) d)))
            w).0
        ≡ ok tt
      → inbox u
          (or_lost fault lost
            (run no_tx (writing λ d. ok (clear_notifications_by_user_id (some u) d)))
            w).1.db
        ≡ []
  unfolding clear_notifications_by_user_id
  clear_ok u true true w h = cc
  clear_ok u true false w h = cc
  clear_ok u false lost w h = clear-own u w.db.notifications

  -- Where clearing a user's notifications reports no error, none of that user's is left.
  pub clear_all-own :
      (u : Uuid) (w : World) → (clear_all env u w).0 ≡ ok tt → inbox u (clear_all env u w).1.db ≡ []
  unfolding clear_all wrap query
  clear_all-own u w h =
      clear_ok u (env.fails w.calls) (env.applied w.calls) (record w { calls = suc w.calls }) h
