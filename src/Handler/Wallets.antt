-- ===== src/Handler/Wallets.antt =====
-- internal/handler/wallet_handler.go and internal/handler/ledger_handler.go
use wallet_ledger_service.Common.{[], if◌then◌else◌}
use wallet_ledger_service.Failure.{Error, is_error, wallet_not_found}
use wallet_ledger_service.World.{Env}
use wallet_ledger_service.Dto.{PaginationRequest}
use wallet_ledger_service.Http.{
  Context, Bound, Reply, Wire, text_of, write_success, write_error, wallet_payload, ledger_payload,
}
use wallet_ledger_service.Handler.Replies.{
  Serve, with_user, with_bound, optional_query, internal_error, settle,
}
use wallet_ledger_service.Service.Wallets.{get_wallet_by_user_id}
use wallet_ledger_service.Service.Ledger.{get_ledger_entries}

unfoldable pub wallet_error : Wire → Error → Reply
wallet_error wire e =
    if is_error e wallet_not_found then write_error 404 (text_of wire e) [] else internal_error

module _ (env : Env) (c : Context) where
  unfoldable pub handle_get_my_wallet : Wire → Serve
  handle_get_my_wallet wire = with_user c λ user_id.
      settle (wallet_error wire)
        (λ res. write_success 200 "Wallet retrieved successfully" (wallet_payload res))
        (get_wallet_by_user_id env user_id)

  unfoldable pub handle_get_ledger_entries : Bound PaginationRequest → Serve
  handle_get_ledger_entries query = with_user c λ user_id. with_bound query λ pagination.
      settle (λ e. internal_error)
        (λ res. write_success 200 "Ledger entries retrieved successfully" (ledger_payload res))
        (get_ledger_entries env user_id (optional_query c "entry_type") pagination)
