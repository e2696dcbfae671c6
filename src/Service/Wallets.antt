-- ===== src/Service/Wallets.antt =====
-- internal/service/wallet_service.go
use wallet_ledger_service.Model.{Uuid}
use wallet_ledger_service.Failure.{wallet_not_found}
use wallet_ledger_service.World.{Env, M, or_raise, pure, ◌>>=◌}
use wallet_ledger_service.Repository.Wallets
use wallet_ledger_service.Dto.Bodies.{WalletResponse}

unfoldable pub get_wallet_by_user_id : Env → Uuid → M WalletResponse
get_wallet_by_user_id env user_id = do
  found ← Wallets.find_by_user_id env user_id
  w ← or_raise found wallet_not_found
  pure (record {
    wallet_id = w.id;
    user_id = w.user_id;
    balance = w.balance;
    currency = w.currency;
    created_at = w.created_at;
    updated_at = w.updated_at;
  })
