-- ===== src/Service/Ledger.antt =====
-- internal/service/ledger_service.go
pub mod Pages
use wallet_ledger_service.Common.{String, Option, map}
use wallet_ledger_service.Model.{Uuid}
use wallet_ledger_service.Failure.{wallet_not_found}
use wallet_ledger_service.World.{Env, M, or_raise, pure, ◌>>=◌}
use wallet_ledger_service.Repository.Wallets
use wallet_ledger_service.Repository.LedgerEntries
use wallet_ledger_service.Dto.{PaginationRequest, set_defaults, offset, pagination_response}
use wallet_ledger_service.Dto.Bodies.{LedgerListResponse}
use wallet_ledger_service.Service.Transactions.Queries.{ledger_entry_response}

unfoldable pub get_ledger_entries :
    Env → Uuid → Option String → PaginationRequest → M LedgerListResponse
get_ledger_entries env user_id entry_type pagination = do
  found ← Wallets.find_by_user_id env user_id
  wallet ← or_raise found wallet_not_found
  let p = set_defaults pagination
  listed ← LedgerEntries.find_by_wallet_id env wallet.id entry_type p.limit (offset p)
  pure (record {
    entries = map ledger_entry_response listed.0;
    pagination = pagination_response p listed.1;
  })
