-- ===== src/Handler/Transactions.antt =====
-- internal/handler/transaction_handler.go
pub mod Statuses
use wallet_ledger_service.Common.{String, ◌||◌, Option, none, some, [], if◌then◌else◌}
use wallet_ledger_service.Failure.{
  Error, is_error, wallet_not_found, self_transfer, insufficient_balance, target_wallet_not_found,
  transaction_not_found, unauthorized,
}
use wallet_ledger_service.World.{Env}
use wallet_ledger_service.Dto.{PaginationRequest}
use wallet_ledger_service.Dto.Bodies.{TopUpRequest, TransferRequest}
use wallet_ledger_service.Http.{
  Context, Bound, Reply, Wire, text_of, write_success, write_error, top_up_payload,
  transfer_payload, transactions_payload, detail_payload,
}
use wallet_ledger_service.Handler.Replies.{
  Serve, reply, with_user, with_bound, optional_query, internal_error, settle,
}
use wallet_ledger_service.Service.Transactions.TopUp.{top_up}
use wallet_ledger_service.Service.Transactions.Transfer.{transfer}
use wallet_ledger_service.Service.Transactions.Queries.{
  get_transactions, get_transaction_detail, get_all_transactions, get_transaction_detail_admin,
}

module _ (wire : Wire) where
  unfoldable pub top_up_error : Error → Reply
  top_up_error e =
      if is_error e wallet_not_found then write_error 404 (text_of wire e) [] else internal_error

  unfoldable pub transfer_error : Error → Reply
  transfer_error e =
      if is_error e self_transfer
      then write_error 422 (text_of wire e) []
      else if is_error e insufficient_balance
      then write_error 400 (text_of wire e) []
      else if is_error e target_wallet_not_found || is_error e wallet_not_found
      then write_error 404 (text_of wire e) []
      else internal_error

  unfoldable pub detail_error : Error → Reply
  detail_error e =
      if is_error e transaction_not_found
      then write_error 404 (text_of wire e) []
      else if is_error e unauthorized
      then write_error 403 (text_of wire e) []
      else internal_error

  unfoldable pub admin_detail_error : Error → Reply
  admin_detail_error e =
      if is_error e transaction_not_found
      then write_error 404 (text_of wire e) []
      else internal_error

  module _ (env : Env) (c : Context) where
    unfoldable pub handle_top_up : Bound TopUpRequest → Serve
    handle_top_up body = with_user c λ user_id. with_bound body λ req.
        settle top_up_error (λ res. write_success 200 "Top up successful" (top_up_payload res))
          (top_up env user_id req)

    unfoldable pub handle_transfer : Bound TransferRequest → Serve
    handle_transfer body = with_user c λ user_id. with_bound body λ req.
        settle transfer_error
          (λ res. write_success 200 "Transfer successful" (transfer_payload res))
          (transfer env user_id req)

    unfoldable pub handle_get_transactions : Bound PaginationRequest → Serve
    handle_get_transactions query = with_user c λ user_id. with_bound query λ pagination.
        settle (λ e. internal_error)
          (λ res.
            write_success 200 "Transactions retrieved successfully" (transactions_payload res))
          (get_transactions env user_id (optional_query c "type") pagination)

    unfoldable pub handle_get_transaction_detail : Serve
    handle_get_transaction_detail = with_user c λ user_id.
        elim (wire.parse_uuid (c.param "transactionId")) [
          | none ↦ reply (write_error 400 "Invalid transaction ID format" [])
          | some id ↦
              settle detail_error
                (λ res.
                  write_success 200 "Transaction details retrieved successfully"
                    (detail_payload res))
                (get_transaction_detail env user_id id)
        ]

    unfoldable pub handle_get_transactions_admin : Bound PaginationRequest → Serve
    handle_get_transactions_admin query = with_bound query λ pagination.
        settle (λ e. internal_error)
          (λ res.
            write_success 200 "Transactions retrieved successfully" (transactions_payload res))
          (get_all_transactions env (optional_query c "type") (optional_query c "status")
            pagination)

    unfoldable pub handle_get_transaction_detail_admin : Serve
    handle_get_transaction_detail_admin = elim (wire.parse_uuid (c.param "transactionId")) [
      | none ↦ reply (write_error 400 "Invalid transaction ID format" [])
      | some id ↦
          settle admin_detail_error
            (λ res.
              write_success 200 "Transaction details retrieved successfully" (detail_payload res))
            (get_transaction_detail_admin env id)
    ]
