-- ===== src/Worker/Notification.antt =====
-- internal/worker/notification_worker.go
pub mod Posts
pub mod Announces
use Prim.Native.String
use wallet_ledger_service.Common.{
  String, ⊤, Bool, true, false, not, ◌&&◌, Option, none, some, str_eq, if◌then◌else◌,
}
use wallet_ledger_service.Model.{Uuid, Wallet}
use wallet_ledger_service.Failure.{Result, ok, err, is_panic, malformed}
use wallet_ledger_service.World.{Env, M, or_fail, pure, raise, wrap, ◌>>=◌, ◌>>◌}
use wallet_ledger_service.Repository.Wallets
use wallet_ledger_service.Service.Notifications.{create_and_push_notification}
use wallet_ledger_service.Worker.Messages.{
  WalletEventMsg, RegisterEventData, TopUpEventData, TransferEventData, Decoders,
}
use wallet_ledger_service.Worker.Consume.{Process}

infixr 65 ◌<>◌
abbrev ◌<>◌ : String → String → String
s <> t = String.◌++◌ s t

-- An error that is only logged.
abbrev pub logged_result : {A : Type 0} → Result A → Result ⊤
logged_result (ok a) = ok tt
logged_result (err e) = if is_panic e then err e else ok tt

unfoldable pub logged : {A : Type 0} → M A → M ⊤
logged m w = (logged_result (m w).0, (m w).1)

-- The texts of `fmt.Sprintf`.
unfoldable pub register_message : RegisterEventData → String
register_message d =
    "Selamat datang! Dompet Anda dengan ID " <> d.wallet_id <> " telah berhasil dibuat."

-- `CreateAndPushNotification` where its error is returned.
unfoldable pub notify : Env → String → Uuid → String → String → M ⊤
notify env text user_id title message =
    wrap text (create_and_push_notification env user_id title message) >>= λ n. pure tt

module _ (decoders : Decoders) where
  unfoldable pub top_up_message : TopUpEventData → String
  top_up_message d =
      "Top-up sebesar Rp "
      <> decoders.decimal_string d.amount
      <> " berhasil. Ref: "
      <> d.reference_no
      <> "."

  unfoldable pub sender_message : TransferEventData → String
  sender_message d =
      "Transfer sebesar Rp "
      <> decoders.decimal_string d.amount
      <> " ke dompet "
      <> d.target_wallet_id
      <> " berhasil. Ref: "
      <> d.reference_no
      <> "."

  unfoldable pub receiver_message : TransferEventData → String
  receiver_message d =
      "Anda menerima transfer sebesar Rp "
      <> decoders.decimal_string d.amount
      <> " dari dompet "
      <> d.source_wallet_id
      <> ". Ref: "
      <> d.reference_no
      <> "."

  module _ (env : Env) where
    unfoldable pub notify_receiver : TransferEventData → Option Wallet → M ⊤
    notify_receiver data_of none = pure tt
    notify_receiver data_of (some target) = logged (
        create_and_push_notification env target.user_id "Transfer Diterima"
          (receiver_message data_of))

    unfoldable pub process_transfer : Uuid → TransferEventData → M ⊤
    process_transfer user_id data_of = do
      logged (create_and_push_notification env user_id "Transfer Berhasil" (sender_message data_of))
      target ← wrap "failed to find target wallet" (Wallets.find_by_id env data_of.target_wallet_id)
      notify_receiver data_of target

    -- The `switch` on the type of the event; what is of no known type is acknowledged.
    unfoldable pub process_event : Uuid → WalletEventMsg → M ⊤
    process_event user_id evt =
        if str_eq evt.event_type "REGISTER"
        then (wrap "failed to unmarshal register data"
              (or_fail (decoders.register_data evt.event_data) malformed)
            >>= λ d.
                notify env "failed to create register notification" user_id "Pendaftaran Berhasil"
                  (register_message d))
        else if str_eq evt.event_type "LOGIN"
        then notify env "failed to create login notification" user_id "Login Berhasil"
            "Anda baru saja masuk ke akun Anda."
        else if str_eq evt.event_type "TOPUP"
        then (wrap "failed to unmarshal topup data"
              (or_fail (decoders.top_up_data evt.event_data) malformed)
            >>= λ d.
                notify env "failed to create topup notification" user_id "Top-up Berhasil"
                  (top_up_message d))
        else if str_eq evt.event_type "TRANSFER"
        then (wrap "failed to unmarshal transfer data"
              (or_fail (decoders.transfer_data evt.event_data) malformed)
            >>= λ d. process_transfer user_id d)
        else pure tt

    -- The user id of an audit event is not used.
    abbrev pub by_user : WalletEventMsg → Option Uuid → M ⊤
    by_user evt (some user_id) = process_event user_id evt
    by_user evt none =
        if str_eq evt.event_type "AUDIT" then pure tt else wrap "invalid user id" (raise malformed)

    unfoldable pub process_notification : Process
    process_notification body = do
      evt ← wrap "failed to unmarshal notification event" (or_fail (decoders.event body) malformed)
      by_user evt (decoders.parse_uuid evt.user_id)
