-- ===== src/Worker/Notification/Announces.antt =====
-- Which notifications each message brings, internal/worker/notification_worker.go.
use wallet_ledger_service.Common.{
  String, ◌≡◌, refl, ⊤, true, false, Bool-cases, Option, none, some, List, [], ◌++◌, ◌⊎◌, inl, inr,
  str_eq, eq_iff,
}
use wallet_ledger_service.Model.{Uuid}
use wallet_ledger_service.Failure.{Error, malformed}
use wallet_ledger_service.Database.{NotificationRow, Database}
use wallet_ledger_service.World.{Env, World, raise, wrap, or_fail, ◌>>=◌}
use wallet_ledger_service.World.Appends.{
  Good, Bad, NoRows, Appends, Appends-weaken, Appends-pure, Appends-wrap, Appends-after,
  Appends-or_fail, Appends-still, Still,
}
use wallet_ledger_service.World.Inserts.{Fails}
use wallet_ledger_service.Worker.Messages.{
  WalletEventMsg, RegisterEventData, TopUpEventData, TransferEventData, Decoders,
}
use wallet_ledger_service.Worker.Consume.{consume_loop, Handled, consume_loop-Handled}
use wallet_ledger_service.Worker.Notification.{
  register_message, top_up_message, process_transfer, process_event, by_user, process_notification,
}
use wallet_ledger_service.Worker.Notification.Posts.{
  inbox_table, Note, Sent, BothSides, notify-Appends, process_transfer-Appends,
}

module _ (decoders : Decoders) (env : Env) where
  -- What an acknowledged event has brought, by its type.
  pub data Announced (evt : WalletEventMsg) (d : Database) (rows : List NotificationRow)
      : Type 0 where
    welcomed :
        (user_id : Uuid) (x : RegisterEventData)
        → str_eq evt.event_type "REGISTER" ≡ true
        → decoders.parse_uuid evt.user_id ≡ some user_id
        → decoders.register_data evt.event_data ≡ some x
        → Note user_id "Pendaftaran Berhasil" (register_message x) rows
        → Announced evt d rows
    logged_in :
        (user_id : Uuid)
        → str_eq evt.event_type "LOGIN" ≡ true
        → decoders.parse_uuid evt.user_id ≡ some user_id
        → Note user_id "Login Berhasil" "Anda baru saja masuk ke akun Anda." rows
        → Announced evt d rows
    topped_up :
        (user_id : Uuid) (x : TopUpEventData)
        → str_eq evt.event_type "TOPUP" ≡ true
        → decoders.parse_uuid evt.user_id ≡ some user_id
        → decoders.top_up_data evt.event_data ≡ some x
        → Note user_id "Top-up Berhasil" (top_up_message decoders x) rows
        → Announced evt d rows
    transferred :
        (user_id : Uuid) (x : TransferEventData)
        → str_eq evt.event_type "TRANSFER" ≡ true
        → decoders.parse_uuid evt.user_id ≡ some user_id
        → decoders.transfer_data evt.event_data ≡ some x
        → BothSides decoders env user_id x d rows
        → Announced evt d rows
    passed_over :
        str_eq evt.event_type "REGISTER" ≡ false
        → str_eq evt.event_type "LOGIN" ≡ false
        → str_eq evt.event_type "TOPUP" ≡ false
        → str_eq evt.event_type "TRANSFER" ≡ false
        → rows ≡ []
        → Announced evt d rows

  -- What an event that is put back has brought: none; what it would have brought, where a call has
  -- failed; or, for a transfer, what is due to the sender, or to both sides.
  abbrev pub PutBack : WalletEventMsg → Database → List NotificationRow → Type 0
  PutBack evt d rows =
      (rows ≡ [])
      ⊎ ((Announced evt d rows × Fails env)
          ⊎ ((user_id : Uuid) × (x : TransferEventData) × (str_eq evt.event_type "TRANSFER" ≡ true)
              × (decoders.parse_uuid evt.user_id ≡ some user_id)
              × (decoders.transfer_data evt.event_data ≡ some x)
              × (Sent decoders env user_id x d rows ⊎ BothSides decoders env user_id x d rows)))

  unmarshalled :
      {A : Type 0} (text : String) (o : Option A) (e : Error)
      → Appends inbox_table (wrap text (or_fail o e)) (Still inbox_table (λ d a. o ≡ some a)) NoRows
  unmarshalled text o e = Appends-wrap inbox_table text (Appends-or_fail inbox_table o e)

  abbrev pub Notified : String → Good ⊤ NotificationRow
  Notified body d u rows =
      (evt : WalletEventMsg) × (decoders.event body ≡ some evt) × Announced evt d rows

  abbrev pub Unsettled : String → Bad NotificationRow
  Unsettled body d rows =
      (rows ≡ []) ⊎ ((evt : WalletEventMsg) × (decoders.event body ≡ some evt) × PutBack evt d rows)

  transfer_case :
      (user_id : Uuid) (evt : WalletEventMsg)
      → decoders.parse_uuid evt.user_id ≡ some user_id
      → str_eq evt.event_type "TRANSFER" ≡ true
      → Appends inbox_table
          (wrap "failed to unmarshal transfer data"
              (or_fail (decoders.transfer_data evt.event_data) malformed)
            >>= λ x. process_transfer decoders env user_id x)
          (λ d u rows. Announced evt d rows)
          (PutBack evt)
  transfer_case user_id evt known t =
      Appends-weaken inbox_table
        (Appends-after inbox_table (unmarshalled _ (decoders.transfer_data evt.event_data) _)
          (λ x. process_transfer-Appends env decoders user_id x))
        (λ d u rows (x, found, sides). transferred user_id x t known found sides)
        (λ d rows e. elim e [
          | inl y ↦ inl y
          | inr (x, found, sent) ↦ inr (inr (user_id, x, t, known, found, sent))
        ])

  process_event-Announced :
      (user_id : Uuid) (evt : WalletEventMsg)
      → decoders.parse_uuid evt.user_id ≡ some user_id
      → Appends inbox_table
          (process_event decoders env user_id evt)
          (λ d u rows. Announced evt d rows)
          (PutBack evt)
  unfolding process_event
  process_event-Announced user_id evt known = elim (Bool-cases (str_eq evt.event_type "REGISTER")) [
    | inl a ↦
        rw (process_event, a)
          (Appends-weaken inbox_table
            (Appends-after inbox_table (unmarshalled _ (decoders.register_data evt.event_data) _)
              (λ x. notify-Appends env _ user_id _ _))
            (λ d u rows (x, found, note). welcomed user_id x a known found note)
            (λ d rows e. elim e [
              | inl y ↦ inl y
              | inr (x, found, inl (y, _)) ↦ inl y
              | inr (x, found, inr (note, fails)) ↦
                  inr (inl (welcomed user_id x a known found note, fails))
            ]))
    | inr a ↦ elim (Bool-cases (str_eq evt.event_type "LOGIN")) [
      | inl b ↦
          rw (process_event, a, b)
            (Appends-weaken inbox_table (notify-Appends env _ user_id _ _)
              (λ d u rows note. logged_in user_id b known note)
              (λ d rows e. elim e [
                | inl (y, _) ↦ inl y
                | inr (note, fails) ↦ inr (inl (logged_in user_id b known note, fails))
              ]))
      | inr b ↦ elim (Bool-cases (str_eq evt.event_type "TOPUP")) [
        | inl c ↦
            rw (process_event, a, b, c)
              (Appends-weaken inbox_table
                (Appends-after inbox_table (unmarshalled _ (decoders.top_up_data evt.event_data) _)
                  (λ x. notify-Appends env _ user_id _ _))
                (λ d u rows (x, found, note). topped_up user_id x c known found note)
                (λ d rows e. elim e [
                  | inl y ↦ inl y
                  | inr (x, found, inl (y, _)) ↦ inl y
                  | inr (x, found, inr (note, fails)) ↦
                      inr (inl (topped_up user_id x c known found note, fails))
                ]))
        | inr c ↦ elim (Bool-cases (str_eq evt.event_type "TRANSFER")) [
          | inl t ↦ rw (process_event, a, b, c, t) (transfer_case user_id evt known t)
          | inr t ↦
              rw (process_event, a, b, c, t)
                (Appends-weaken inbox_table (Appends-pure inbox_table tt)
                  (λ d u rows (same, e). passed_over a b c t e) (λ d rows e. absurd e))
        ]
      ]
    ]
  ]

  refuse :
      (e : Error)
      → Appends inbox_table (wrap "invalid user id" (raise {A = ⊤} e)) (λ d u rows. ⊥) NoRows
  unfolding wrap raise
  refuse e =
      Appends-weaken inbox_table (Appends-still inbox_table (λ d u. ⊥) (λ w. refl) (λ w a h. cc))
        (λ d u rows (_, never). never) (λ d rows e. e)

  -- An audit event is of none of the four types.
  audit_passes :
      (evt : WalletEventMsg) (d : Database) (rows : List NotificationRow)
      → evt.event_type ≡ "AUDIT"
      → rows ≡ []
      → Announced evt d rows
  audit_passes evt d rows a e = passed_over (rw a refl) (rw a refl) (rw a refl) (rw a refl) e

  by_user-Announced :
      (evt : WalletEventMsg) (o : Option Uuid)
      → decoders.parse_uuid evt.user_id ≡ o
      → Appends inbox_table
          (by_user decoders env evt o)
          (λ d u rows. Announced evt d rows)
          (PutBack evt)
  by_user-Announced evt (some user_id) h = process_event-Announced user_id evt h
  by_user-Announced evt none h = elim (Bool-cases (str_eq evt.event_type "AUDIT")) [
    | inl audit ↦ rw audit (
        Appends-weaken inbox_table (Appends-pure inbox_table tt)
          (λ d u rows (_, e). audit_passes evt d rows ((eq_iff _ _).0 audit) e)
          (λ d rows e. absurd e))
    | inr other ↦ rw other (
        Appends-weaken inbox_table (refuse malformed) (λ d u rows never. absurd never)
          (λ d rows e. inl e))
  ]

  process_notification-Appends :
      (body : String)
      → Appends inbox_table
          (process_notification decoders env body)
          (Notified body)
          (Unsettled body)
  unfolding process_notification
  process_notification-Appends body =
      Appends-weaken inbox_table
        (Appends-after inbox_table (unmarshalled _ (decoders.event body) _)
          (λ evt. by_user-Announced evt (decoders.parse_uuid evt.user_id) refl))
        (λ d u rows done. done) (λ d rows e. e)

  -- The notification worker changes no table but the notifications, and only adds to them. Each
  -- delivery that it acknowledges has added what `Announced` says: one notification for the user
  -- of a registration, a login or a top up; for a transfer one for the sender and one for the
  -- owner of the target wallet, if there is one, each of which is missing only where a call has
  -- failed or the tables refuse it; and none for other events. One that is put back has added
  -- none, or the same where a call has failed, or for a transfer what is due to the sender or to
  -- both. This holds for any deliveries, and whichever calls fail before or after they are carried
  -- out.
  pub process_notification-Handled :
      (bodies : List String) (w : World)
      → (rows : List NotificationRow) × ((consume_loop
            (process_notification decoders env)
            bodies
            w).1.db
          ≡ record w.db { notifications = w.db.notifications ++ rows })
        × Handled inbox_table Notified Unsettled w.db bodies
            (consume_loop (process_notification decoders env) bodies w).0
            rows
  process_notification-Handled =
      consume_loop-Handled inbox_table Notified Unsettled (process_notification decoders env)
        process_notification-Appends
