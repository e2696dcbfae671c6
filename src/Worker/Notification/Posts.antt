-- ===== src/Worker/Notification/Posts.antt =====
-- What the notification worker leaves in the table, internal/worker/notification_worker.go.
use mathlib.Core.Path.{subst}
use mathlib.Core.List.{append_assoc, append-nil}
use wallet_ledger_service.Common.{
  String, ◌≡◌, sym, ap, ◌∙◌, Bool, true, false, Option, none, some, List, [], ◌∷◌, ◌++◌, ◌⊎◌, inl,
  inr, arith, if◌then◌else◌,
}
use wallet_ledger_service.Model.{Uuid, Wallet}
use wallet_ledger_service.Failure.{Error, Result, ok, err, is_panic}
use wallet_ledger_service.Database.{NotificationRow, Database}
use wallet_ledger_service.Sql.Notifications.{create_notification}
use wallet_ledger_service.World.{Env, M}
use wallet_ledger_service.World.Appends.{
  Table, Good, Bad, Ends, Appends, Appends-weaken, Appends-pure, Appends-wrap, Appends-bind,
  Appends-after, Appends-before, Appends-map, Appends-push, Appends-Reads,
}
use wallet_ledger_service.World.Inserts.{Fails, Excused, Inserts, Appends-query}
use wallet_ledger_service.Repository.Effects.{wallet_at, find_by_id-Reads}
use wallet_ledger_service.Repository.Notifications
use wallet_ledger_service.Service.Notifications.{create_and_push_notification}
use wallet_ledger_service.Worker.Messages.{TransferEventData, Decoders}
use wallet_ledger_service.Worker.Notification.{
  logged, logged_result, sender_message, receiver_message, notify, notify_receiver,
  process_transfer,
}

abbrev pub inbox_table : Table NotificationRow
inbox_table = record {
  add = λ d rows. record d { notifications = d.notifications ++ rows };
  add_nil = λ d. ap (λ ns. record d { notifications = ns }) (append-nil d.notifications);
  add_add =
      λ d xs ys. ap (λ ns. record d { notifications = ns }) (append_assoc d.notifications xs ys);
}

-- A new notification for a user.
abbrev pub IsNote : Uuid → String → String → NotificationRow → Type 0
IsNote user_id title message row =
    (row.user_id ≡ some user_id)
    × (row.title ≡ title)
    × (row.message ≡ message)
    × (row.is_read ≡ false)

abbrev pub Note : Uuid → String → String → List NotificationRow → Type 0
Note user_id title message rows =
    (row : NotificationRow) × (rows ≡ row ∷ []) × IsNote user_id title message row

create_notification-Inserts :
    (env : Env) (user_id : Uuid) (title message : String)
    → Inserts inbox_table
        (λ n. create_notification (env.new_uuid n) (env.now n) (some user_id) title message)
        (IsNote user_id title message)
unfolding create_notification
create_notification-Inserts env user_id title message n d a d' h =
    (a, ground arith, (ground arith, ground arith, ground arith, ground arith))

module _ (env : Env) where
  -- A call has failed, or the tables refuse the notification.
  abbrev pub Refused : Uuid → String → String → Database → Type 0
  Refused user_id title message =
      Excused env
        (λ n. create_notification (env.new_uuid n) (env.now n) (some user_id) title message)

  -- The notification, or none for a reason.
  abbrev pub MaybeNote : Uuid → String → String → Database → List NotificationRow → Type 0
  MaybeNote user_id title message d rows =
      Note user_id title message rows ⊎ ((rows ≡ []) × Refused user_id title message d)

  -- What an error leaves: none for a reason, or the notification, and the reply is lost.
  abbrev pub Unposted : Uuid → String → String → Bad NotificationRow
  Unposted user_id title message d rows =
      ((rows ≡ []) × Refused user_id title message d)
      ⊎ (Note user_id title message rows × Fails env)

  maybe_of_unposted :
      (user_id : Uuid) (title message : String) (d : Database) (rows : List NotificationRow)
      → Unposted user_id title message d rows
      → MaybeNote user_id title message d rows
  maybe_of_unposted user_id title message d rows (inl x) = inr x
  maybe_of_unposted user_id title message d rows (inr (note, _)) = inl note

module _ (decoders : Decoders) (env : Env) where
  -- The receiver is the owner of the target wallet, if there is one.
  abbrev pub Received : TransferEventData → Option Wallet → Database → List NotificationRow → Type 0
  Received t none d rows = rows ≡ []
  Received t (some w) d rows =
      MaybeNote env w.user_id "Transfer Diterima" (receiver_message decoders t) d rows

  abbrev pub Sent : Uuid → TransferEventData → Database → List NotificationRow → Type 0
  Sent user_id t d rows =
      MaybeNote env user_id "Transfer Berhasil" (sender_message decoders t) d rows

  abbrev pub BothSides : Uuid → TransferEventData → Database → List NotificationRow → Type 0
  BothSides user_id t d rows =
      (xs : List NotificationRow) × (ys : List NotificationRow) × (rows ≡ xs ++ ys)
      × Sent user_id t d xs
      × Received t (wallet_at t.target_wallet_id d) (inbox_table.add d xs) ys

module _ (env : Env) where
  create_and_push_notification-Appends :
      (user_id : Uuid) (title message : String)
      → Appends inbox_table
          (create_and_push_notification env user_id title message)
          (λ d n rows. Note user_id title message rows)
          (Unposted env user_id title message)
  unfolding create_and_push_notification Notifications.create
  create_and_push_notification-Appends user_id title message =
      Appends-weaken inbox_table
        (Appends-before inbox_table
          (Appends-map inbox_table _ (
            Appends-wrap inbox_table _ (
              Appends-query inbox_table env _ (IsNote user_id title message)
                (create_notification-Inserts env user_id title message))))
          (λ n. Appends-map inbox_table (λ u. n) (Appends-push inbox_table env _ n))
          (λ a d b rows (u, same, none_more). none_more))
        (λ d n rows (a, (x, same, note)). note) (λ d rows e. e)

  -- An error that is logged becomes a return.
  logged-Appends :
      {A : Type 0} {m : M A} {P : Good A NotificationRow} {E : Bad NotificationRow}
      → Appends inbox_table m P E
      → Appends inbox_table (logged m) (λ d u rows. ((a : A) × P d a rows) ⊎ E d rows) E
  unfolding logged
  logged-Appends {A} {m} {P} {E} k = record {
    appends =
        λ w. let (rows, moved, ends) = k.appends w in (rows, moved, go w.db (m w).0 rows ends);
  }
    where
      panic :
          (d : Database) (e : Error) (b : Bool) (rows : List NotificationRow)
          → E d rows
          → Ends
              (λ d u rows. ((a : A) × P d a rows) ⊎ E d rows)
              E
              d
              (if b then err e else ok tt)
              rows
      panic d e true rows p = p
      panic d e false rows p = inr p

      go :
          (d : Database) (r : Result A) (rows : List NotificationRow)
          → Ends P E d r rows
          → Ends (λ d u rows. ((a : A) × P d a rows) ⊎ E d rows) E d (logged_result r) rows
      go d (ok a) rows p = inl (a, p)
      go d (err e) rows p = panic d e (is_panic e) rows p

  pub notify-Appends :
      (text : String) (user_id : Uuid) (title message : String)
      → Appends inbox_table
          (notify env text user_id title message)
          (λ d u rows. Note user_id title message rows)
          (Unposted env user_id title message)
  unfolding notify
  notify-Appends text user_id title message =
      Appends-weaken inbox_table
        (Appends-map inbox_table (λ n. tt)
          (Appends-wrap inbox_table text
            (create_and_push_notification-Appends user_id title message)))
        (λ d u rows (n, same, note). note) (λ d rows e. e)

  maybe-Appends :
      (user_id : Uuid) (title message : String)
      → Appends inbox_table
          (logged (create_and_push_notification env user_id title message))
          (λ d u rows. MaybeNote env user_id title message d rows)
          (MaybeNote env user_id title message)
  maybe-Appends user_id title message =
      Appends-weaken inbox_table
        (logged-Appends (create_and_push_notification-Appends user_id title message))
        (λ d u rows x. elim x [
          | inl (a, note) ↦ inl note
          | inr e ↦ maybe_of_unposted env user_id title message d rows e
        ])
        (λ d rows e. maybe_of_unposted env user_id title message d rows e)

  module _ (decoders : Decoders) where
    notify_receiver-Appends :
        (t : TransferEventData) (o : Option Wallet)
        → Appends inbox_table
            (notify_receiver decoders env t o)
            (λ d u rows. Received decoders env t o d rows)
            (λ d rows. Received decoders env t o d rows)
    unfolding notify_receiver
    notify_receiver-Appends t none =
        Appends-weaken inbox_table (Appends-pure inbox_table tt) (λ d u rows (same, e). e)
          (λ d rows e. absurd e)
    notify_receiver-Appends t (some w) = maybe-Appends w.user_id _ _

    pub process_transfer-Appends :
        (user_id : Uuid) (t : TransferEventData)
        → Appends inbox_table
            (process_transfer decoders env user_id t)
            (λ d u rows. BothSides decoders env user_id t d rows)
            (λ d rows. Sent decoders env user_id t d rows ⊎ BothSides decoders env user_id t d rows)
    unfolding process_transfer
    process_transfer-Appends user_id t =
        Appends-weaken inbox_table
          (Appends-bind inbox_table (maybe-Appends user_id _ _) λ u.
            Appends-after inbox_table
              (Appends-wrap inbox_table _
                (Appends-Reads inbox_table (find_by_id-Reads env t.target_wallet_id)))
              (λ o. notify_receiver-Appends t o))
          (λ d u rows (a, xs, ys, all, sent, (o, found, received)). (
            xs,
            ys,
            all,
            sent,
            subst (λ p. Received decoders env t p (inbox_table.add d xs) ys) found received,
          ))
          (λ d rows b. elim b [
            | inl sent ↦ inl sent
            | inr (a, xs, ys, all, sent, inl x) ↦ inl (
                subst (Sent decoders env user_id t d)
                  (sym (all ∙ ap (λ zs. xs ++ zs) x ∙ append-nil xs)) sent)
            | inr (a, xs, ys, all, sent, inr (o, found, received)) ↦ inr (
              xs,
              ys,
              all,
              sent,
              subst (λ p. Received decoders env t p (inbox_table.add d xs) ys) found received,
            )
          ])
