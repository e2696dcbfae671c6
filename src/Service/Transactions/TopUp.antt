-- ===== src/Service/Transactions/TopUp.antt =====
-- `TopUp` of internal/service/transaction_service.go, in the order of its statements.
pub mod Posting
pub mod Commit
pub mod Books
pub mod Requests
use wallet_ledger_service.Common.{none}
use wallet_ledger_service.Common.Int.{◌+ℤ◌}
use wallet_ledger_service.Model.{
  Uuid, Decimal, Wallet, Transaction, transaction_type_top_up, transaction_status_pending,
  transaction_status_completed, entry_type_credit,
}
use wallet_ledger_service.Failure.{wallet_not_found}
use wallet_ledger_service.World.{
  Env, M, EventData, in_tx, or_raise, wrap, begin, commit, with_rollback, read_clock, pure, ◌>>=◌,
  ◌>>◌,
}
use wallet_ledger_service.Repository.Wallets
use wallet_ledger_service.Repository.Transactions
use wallet_ledger_service.Repository.LedgerEntries
use wallet_ledger_service.Utils.Ids.{generate_transaction_ref, generate_ledger_entry_id}
use wallet_ledger_service.Dto.Bodies.{TopUpRequest, TopUpResponse}
use wallet_ledger_service.Service.Events.{publish_event}

module _ (env : Env) where
  -- From the transaction's record to its `COMPLETED` mark; the wallet is locked.
  unfoldable pub post_top_up : Wallet → Wallet → Decimal → M Transaction
  post_top_up wallet locked amount = do
    tx_ref ← wrap "failed to generate transaction reference" (generate_transaction_ref env)
    now ← read_clock env
    txn ← Transactions.create env in_tx (record {
      id = 0;
      reference_no = tx_ref;
      type = transaction_type_top_up;
      status = transaction_status_pending;
      amount = amount;
      source_wallet_id = none;
      target_wallet_id = wallet.id;
      created_at = now;
    })
    Wallets.update_balance env in_tx wallet.id (locked.balance +ℤ amount)
    ledger_id ← wrap "failed to generate ledger entry ID" (generate_ledger_entry_id env)
    entry_time ← read_clock env
    entry ← LedgerEntries.create env in_tx (record {
      id = ledger_id;
      transaction_id = txn.id;
      wallet_id = wallet.id;
      entry_type = entry_type_credit;
      amount = amount;
      created_at = entry_time;
    })
    Transactions.update_status env in_tx txn.id transaction_status_completed
    pure txn

  -- What runs between `Begin` and the deferred rollback.
  unfoldable pub top_up_in_tx : Uuid → TopUpRequest → Wallet → M TopUpResponse
  top_up_in_tx user_id req wallet = do
    found ← Wallets.find_by_id_for_update env in_tx wallet.id
    locked ← or_raise found wallet_not_found
    txn ← post_top_up wallet locked req.amount
    wrap "failed to commit transaction" (commit env)
    publish_event env "TOPUP" user_id (
        EventData.top_up (env.uuid_string txn.id) txn.reference_no wallet.id req.amount
          (locked.balance +ℤ req.amount))
    pure (record {
      transaction_id = txn.id;
      reference_no = txn.reference_no;
      type = txn.type;
      status = transaction_status_completed;
      amount = req.amount;
      wallet_id = wallet.id;
      balance_after = locked.balance +ℤ req.amount;
      created_at = txn.created_at;
    })

  unfoldable pub top_up : Uuid → TopUpRequest → M TopUpResponse
  top_up user_id req = do
    found ← Wallets.find_by_user_id env user_id
    wallet ← or_raise found wallet_not_found
    wrap "failed to begin transaction" (begin env)
    with_rollback (top_up_in_tx user_id req wallet)
