-- ===== src/Repository/Wallets.antt =====
-- internal/repository/wallet_repository.go
use wallet_ledger_service.Common.{String, Option, some, ⊤}
use wallet_ledger_service.Model.{Uuid, Wallet, Decimal}
use wallet_ledger_service.Failure.{missing_tx}
use wallet_ledger_service.Database.{WalletRow}
use wallet_ledger_service.Sql.Wallets.{
  create_wallet, find_wallet_by_user_id, find_wallet_by_id, find_wallet_by_id_for_update,
  update_wallet_balance,
}
use wallet_ledger_service.World.{Env, M, Handle, no_tx, in_tx, query, wrap, raise, ◌>>=◌, pure}
use wallet_ledger_service.Repository.Common.{
  decimal_to_numeric, numeric_to_decimal, valid_or_zero, find_row, writing,
}

unfoldable pub map_wallet : WalletRow → Wallet
map_wallet w = record {
  id = w.id;
  user_id = valid_or_zero w.user_id;
  balance = numeric_to_decimal w.balance;
  currency = w.currency;
  created_at = valid_or_zero w.created_at;
  updated_at = valid_or_zero w.updated_at;
}

module _ (env : Env) where
  unfoldable pub create : Handle → Wallet → M Wallet
  create h wallet = do
    row ← wrap "create wallet query failed" (
        query env h λ n. create_wallet env.column (env.now n) (record {
          id = wallet.id;
          user_id = some wallet.user_id;
          balance = decimal_to_numeric env.scan wallet.balance;
          currency = wallet.currency;
        }))
    pure (map_wallet row)

  unfoldable pub find_by_user_id : Uuid → M (Option Wallet)
  find_by_user_id user_id =
      find_row env no_tx "find wallet by user id query failed" map_wallet
        (find_wallet_by_user_id (some user_id))

  unfoldable pub find_by_id : String → M (Option Wallet)
  find_by_id id =
      find_row env no_tx "find wallet by id query failed" map_wallet (find_wallet_by_id id)

  unfoldable pub find_by_id_for_update : Handle → String → M (Option Wallet)
  find_by_id_for_update no_tx id = raise missing_tx
  find_by_id_for_update in_tx id =
      find_row env in_tx "find wallet by id for update query failed" map_wallet
        (find_wallet_by_id_for_update id)

  unfoldable pub update_balance : Handle → String → Decimal → M ⊤
  update_balance h id new_balance = wrap "update wallet balance query failed" (
      query env h λ n.
        writing (
          update_wallet_balance env.column (env.now n) id
            (decimal_to_numeric env.scan new_balance)))
