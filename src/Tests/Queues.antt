-- ===== src/Tests/Queues.antt =====
-- The theorems on the workers and on the broker's channel at concrete inputs.
use wallet_ledger_service.Common.{
  inr, ◌≡◌, refl, true, false, inl, some, none, List, [], ◌∷◌, ◌++◌, not, map, ◌==◌,
}
use wallet_ledger_service.Common.Int.{pos}
use wallet_ledger_service.Database.{AuditLogRow, NotificationRow}
use wallet_ledger_service.World.{push, pure, wrap, query, ◌>>=◌}
use wallet_ledger_service.Repository.Notifications
use wallet_ledger_service.Repository.Wallets
use wallet_ledger_service.Repository.Common.{find_row, optional, numeric_to_decimal}
use wallet_ledger_service.Sql.Notifications.{create_notification}
use wallet_ledger_service.Sql.Wallets.{find_wallet_by_id}
use wallet_ledger_service.Service.Notifications.{create_and_push_notification}
use wallet_ledger_service.Worker.Messages.{Decoders}
use wallet_ledger_service.Worker.Consume.{consume_loop, Handled}
use wallet_ledger_service.Worker.Audit.{process_audit}
use wallet_ledger_service.Worker.Audit.Records.{
  audit_table, Audited, Unaudited, process_audit-Handled,
}
use wallet_ledger_service.Worker.Notification.{
  process_notification, process_event, process_transfer, logged, notify_receiver, sender_message,
  receiver_message,
}
use wallet_ledger_service.Worker.Notification.Posts.{inbox_table}
use wallet_ledger_service.Worker.Notification.Announces.{
  Notified, Unsettled, process_notification-Handled,
}
use wallet_ledger_service.Utils.SafeChannel.{
  Message, SafeChannel, Broker, new_safe_channel, ensure_connected_locked, publish_with_context,
  declare_exchange_and_queues,
}
use wallet_ledger_service.Utils.SafeChannel.Connected.{
  Ensured, ensure_connected_locked-Ensured, IsWired,
}
use wallet_ledger_service.Utils.SafeChannel.Renewal.{Ended, Renewed, ensure_connected_locked-renews}
use wallet_ledger_service.Utils.SafeChannel.Publishing.{
  Published, tried, publish_with_context-Published,
}
use wallet_ledger_service.Tests.Fixtures.{calm, ready, two_wallets}

-- Every body is an event of Ann's transfer to Bob.
abbrev decoders : Decoders
decoders = record {
  event = λ body. some (record {
    event_type = "TRANSFER";
    user_id = "1";
    event_data = "{}";
    timestamp = 4;
    ip_address = "10.0.0.1";
    endpoint = "POST /api/v1/transfers";
  });
  audit_data = λ s. none;
  register_data = λ s. none;
  top_up_data = λ s. none;
  transfer_data = λ s. some (record {
    transaction_id = "115";
    reference_no = "TXN-2";
    source_wallet_id = "WLT-A";
    target_wallet_id = "WLT-B";
    amount = pos 70;
    balance_after = pos 430;
  });
  parse_uuid = λ s. some 1;
  decimal_string = λ d. "0.70";
}

process_audit-Handled_example :
    (rows : List AuditLogRow) × ((consume_loop
        (process_audit calm decoders)
        ("event" ∷ [])
        ready).1.db
      ≡ record two_wallets { audit_logs = rows })
    × Handled
        (audit_table)
        (Audited calm decoders)
        (Unaudited calm decoders)
        two_wallets
        ("event" ∷ [])
        (consume_loop (process_audit calm decoders) ("event" ∷ []) ready).0
        rows
process_audit-Handled_example = process_audit-Handled calm decoders ("event" ∷ []) ready

process_notification-Handled_example :
    (rows : List NotificationRow) × ((consume_loop
        (process_notification decoders calm)
        ("event" ∷ [])
        ready).1.db
      ≡ record two_wallets { notifications = two_wallets.notifications ++ rows })
    × Handled inbox_table
        (Notified decoders calm)
        (Unsettled decoders calm)
        two_wallets
        ("event" ∷ [])
        (consume_loop (process_notification decoders calm) ("event" ∷ []) ready).0
        rows
process_notification-Handled_example =
    process_notification-Handled decoders calm ("event" ∷ []) ready

-- Every call goes through but the eleventh, which is the first publication.
abbrev broker : Broker
broker = record {
  succeeds = λ n. not (n == 10);
  conn_ended = λ n c. false;
  ch_ended = λ n c. false;
  is_closed = λ n c. false;
}

abbrev message : Message
message = record {
  exchange_name = "wallet_events";
  routing_key = "wallet.event.transfer";
  body = "event";
}

abbrev unconnected : SafeChannel
unfolding new_safe_channel
unconnected = new_safe_channel

starts : unconnected.ch ≡ none
unfolding unconnected
starts = refl

ensure_connected_locked-Ensured_example :
    Ensured broker unconnected (ensure_connected_locked broker unconnected)
ensure_connected_locked-Ensured_example =
    ensure_connected_locked-Ensured broker unconnected (inl starts)

publish_with_context-Published_example :
    IsWired broker (publish_with_context broker message unconnected).1
    × Published broker message unconnected
        (publish_with_context broker message unconnected).0
        (publish_with_context broker message unconnected).1
publish_with_context-Published_example =
    publish_with_context-Published broker message unconnected (inl starts)

-- The first connection is found closed.
abbrev broken : Broker
broken = record broker { is_closed = λ n c. c == 1 }

abbrev connected : SafeChannel
connected = (ensure_connected_locked broken unconnected).1

connected-IsWired : IsWired broken connected
connected-IsWired = elim ((ensure_connected_locked-Ensured broken unconnected (inl starts)).2) [
  | inl (h, on) ↦ inr on
  | inr (f, shut) ↦ inl shut
]

connected-Ended : Ended broken connected
unfolding unconnected new_safe_channel ensure_connected_locked declare_exchange_and_queues
connected-Ended = inr (inr refl)

ensure_connected_locked-renews_example :
    Renewed broken connected (ensure_connected_locked broken connected)
ensure_connected_locked-renews_example =
    ensure_connected_locked-renews broken connected connected-IsWired connected-Ended

-- The first attempt fails, and the second gets through on a new channel.
retried :
    (publish_with_context broker message new_safe_channel).1.attempts
    ≡ tried message 10 false ∷ tried message 20 true ∷ []
unfolding new_safe_channel ensure_connected_locked publish_with_context declare_exchange_and_queues
retried = refl

-- The look-up of the target wallet fails once: the message is put back, and the sender is told twice.
told_twice :
    map
      (λ (n : NotificationRow). n.title)
      (consume_loop
        (process_notification decoders (record calm { fails = λ n. n == 2 }))
        ("event" ∷ "event" ∷ [])
        ready).1.db.notifications
    ≡ "title" ∷ "title" ∷ "Transfer Berhasil" ∷ "Transfer Berhasil" ∷ "Transfer Diterima" ∷ []
unfolding consume_loop process_notification process_event process_transfer logged notify_receiver
    create_and_push_notification Notifications.create push pure wrap query ◌>>=◌ create_notification
    Notifications.map_notification Wallets.find_by_id Wallets.map_wallet find_row optional
    find_wallet_by_id numeric_to_decimal sender_message receiver_message
told_twice = refl
