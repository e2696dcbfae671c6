-- ===== src/Service/Events.antt =====
-- `publishEvent` of internal/service/auth_service.go, as the services call it.
use wallet_ledger_service.Common.{String, ⊤}
use wallet_ledger_service.Model.{Uuid}
use wallet_ledger_service.World.{Env, M, EventData, spawn_publish}

-- The event that is handed to the goroutine, which publishes it under the routing key
-- "wallet.event." + event_type if there is a channel. Its time, and the address and endpoint, which
-- the services leave empty, are left out.
unfoldable pub publish_event : Env → String → Uuid → EventData → M ⊤
publish_event env event_type user_id payload =
    spawn_publish
      (record { event_type = event_type; user_id = env.uuid_string user_id; payload = payload })
