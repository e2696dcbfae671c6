-- ===== src/Service/Transactions/Queries.antt =====
-- The queries of internal/service/transaction_service.go.
use wallet_ledger_service.Common.{
  String, Option, none, some, Bool, true, false, not, map, str_eq, if◌then◌else◌,
}
use wallet_ledger_service.Model.{Uuid, Wallet, Transaction, LedgerEntry}
use wallet_ledger_service.Failure.{wallet_not_found, transaction_not_found, unauthorized}
use wallet_ledger_service.World.{Env, M, or_raise, raise_if, pure, ◌>>=◌, ◌>>◌}
use wallet_ledger_service.Repository.Wallets
use wallet_ledger_service.Repository.Transactions
use wallet_ledger_service.Repository.LedgerEntries
use wallet_ledger_service.Dto.{PaginationRequest, set_defaults, offset, pagination_response}
use wallet_ledger_service.Dto.Bodies.{
  TransactionResponse, LedgerEntryResponse, TransactionDetailResponse, TransactionListResponse,
}

unfoldable pub transaction_response : Transaction → TransactionResponse
transaction_response t = record {
  transaction_id = t.id;
  reference_no = t.reference_no;
  type = t.type;
  status = t.status;
  amount = t.amount;
  source_wallet_id = t.source_wallet_id;
  target_wallet_id = t.target_wallet_id;
  created_at = t.created_at;
}

unfoldable pub ledger_entry_response : LedgerEntry → LedgerEntryResponse
ledger_entry_response e = record {
  entry_id = e.id;
  transaction_id = e.transaction_id;
  wallet_id = e.wallet_id;
  entry_type = e.entry_type;
  amount = e.amount;
  created_at = e.created_at;
}

-- `isAuthorized`: the target first, then a source that is not nil.
unfoldable pub is_authorized : Transaction → Wallet → Bool
is_authorized t wallet =
    if str_eq t.target_wallet_id wallet.id
    then true
    else elim t.source_wallet_id [ none ↦ false | some id ↦ str_eq id wallet.id ]

module _ (env : Env) where
  unfoldable pub get_transactions :
      Uuid → Option String → PaginationRequest → M TransactionListResponse
  get_transactions user_id txn_type pagination = do
    found ← Wallets.find_by_user_id env user_id
    wallet ← or_raise found wallet_not_found
    let p = set_defaults pagination
    listed ← Transactions.find_by_wallet_id env wallet.id txn_type p.limit (offset p)
    pure (record {
      transactions = map transaction_response listed.0;
      pagination = pagination_response p listed.1;
    })

  unfoldable pub get_transaction_detail : Uuid → Uuid → M TransactionDetailResponse
  get_transaction_detail user_id transaction_id = do
    found ← Wallets.find_by_user_id env user_id
    wallet ← or_raise found wallet_not_found
    found_txn ← Transactions.find_by_id env transaction_id
    txn ← or_raise found_txn transaction_not_found
    raise_if (not (is_authorized txn wallet)) unauthorized
    entries ← LedgerEntries.find_by_transaction_id env txn.id
    pure (record {
      transaction = transaction_response txn;
      ledger_entries = map ledger_entry_response entries;
    })

  unfoldable pub get_all_transactions :
      Option String → Option String → PaginationRequest → M TransactionListResponse
  get_all_transactions txn_type txn_status pagination = do
    let p = set_defaults pagination
    listed ← Transactions.find_all env txn_type txn_status p.limit (offset p)
    pure (record {
      transactions = map transaction_response listed.0;
      pagination = pagination_response p listed.1;
    })

  unfoldable pub get_transaction_detail_admin : Uuid → M TransactionDetailResponse
  get_transaction_detail_admin transaction_id = do
    found_txn ← Transactions.find_by_id env transaction_id
    txn ← or_raise found_txn transaction_not_found
    entries ← LedgerEntries.find_by_transaction_id env txn.id
    pure (record {
      transaction = transaction_response txn;
      ledger_entries = map ledger_entry_response entries;
    })
