-- ===== src/Service/Transactions/Transfer.antt =====
-- `Transfer` of internal/service/transaction_service.go, in the order of its statements.
pub mod Posting
pub mod Commit
pub mod Books
pub mod Requests
use wallet_ledger_service.Common.{String, Option, some, str_eq, str_lt, if◌then◌else◌}
use wallet_ledger_service.Common.Int.{◌+ℤ◌, ◌-ℤ◌, ltb_ℤ}
use wallet_ledger_service.Model.{
  Uuid, Decimal, Wallet, Transaction, LedgerEntry, transaction_type_transfer,
  transaction_status_pending, transaction_status_completed, entry_type_credit, entry_type_debit,
}
use wallet_ledger_service.Failure.{
  wallet_not_found, self_transfer, target_wallet_not_found, insufficient_balance,
}
use wallet_ledger_service.World.{
  Env, M, EventData, in_tx, or_raise, raise_if, deref, wrap, begin, commit, with_rollback,
  read_clock, pure, ◌>>=◌, ◌>>◌,
}
use wallet_ledger_service.Repository.Wallets
use wallet_ledger_service.Repository.Transactions
use wallet_ledger_service.Repository.LedgerEntries
use wallet_ledger_service.Utils.Ids.{generate_transaction_ref, generate_ledger_entry_id}
use wallet_ledger_service.Dto.Bodies.{TransferRequest, TransferResponse}
use wallet_ledger_service.Service.Events.{publish_event}

-- The pointers `w1` and `w2`, and then `lockedSource` and `lockedTarget`.
pub record Locked : Type 0 where
  pub w1 : Option Wallet
  pub w2 : Option Wallet

module _ (env : Env) where
  -- The two rows are locked in the order of their ids.
  unfoldable pub lock_wallets : Wallet → Wallet → M Locked
  lock_wallets source target =
      if str_lt source.id target.id
      then (do
        w1 ← Wallets.find_by_id_for_update env in_tx source.id
        w2 ← Wallets.find_by_id_for_update env in_tx target.id
        pure (record { w1 = w1; w2 = w2 }))
      else (do
        w2 ← Wallets.find_by_id_for_update env in_tx target.id
        w1 ← Wallets.find_by_id_for_update env in_tx source.id
        pure (record { w1 = w1; w2 = w2 }))

  -- `if w1.ID == sourceWallet.ID`
  unfoldable pub assign_locked : Wallet → Locked → M Locked
  assign_locked source l = do
    w1 ← deref l.w1
    pure (
        if str_eq w1.id source.id
        then record { w1 = l.w1; w2 = l.w2 }
        else record { w1 = l.w2; w2 = l.w1 })

  -- The entry of one side of a transfer.
  unfoldable pub create_entry : Uuid → String → String → Decimal → M LedgerEntry
  create_entry txn_id wallet_id entry_type amount = do
    ledger_id ← wrap "failed to generate ledger entry ID" (generate_ledger_entry_id env)
    now ← read_clock env
    LedgerEntries.create env in_tx (record {
      id = ledger_id;
      transaction_id = txn_id;
      wallet_id = wallet_id;
      entry_type = entry_type;
      amount = amount;
      created_at = now;
    })

  -- From the transaction's record to its `COMPLETED` mark; both wallets are locked.
  unfoldable pub post_transfer : Wallet → Option Wallet → Decimal → M Transaction
  post_transfer locked_source target amount = do
    tx_ref ← wrap "failed to generate transaction reference" (generate_transaction_ref env)
    locked_target ← deref target
    now ← read_clock env
    txn ← Transactions.create env in_tx (record {
      id = 0;
      reference_no = tx_ref;
      type = transaction_type_transfer;
      status = transaction_status_pending;
      amount = amount;
      source_wallet_id = some locked_source.id;
      target_wallet_id = locked_target.id;
      created_at = now;
    })
    Wallets.update_balance env in_tx locked_source.id (locked_source.balance -ℤ amount)
    Wallets.update_balance env in_tx locked_target.id (locked_target.balance +ℤ amount)
    debit ← create_entry txn.id locked_source.id entry_type_debit amount
    credit ← create_entry txn.id locked_target.id entry_type_credit amount
    Transactions.update_status env in_tx txn.id transaction_status_completed
    pure txn

  -- What runs between `Begin` and the deferred rollback.
  unfoldable pub transfer_in_tx : Uuid → TransferRequest → Wallet → Wallet → M TransferResponse
  transfer_in_tx user_id req source target = do
    rows ← lock_wallets source target
    locked ← assign_locked source rows
    locked_source ← deref locked.w1
    raise_if (ltb_ℤ locked_source.balance req.amount) insufficient_balance
    txn ← post_transfer locked_source locked.w2 req.amount
    locked_target ← deref locked.w2
    wrap "failed to commit transaction" (commit env)
    publish_event env "TRANSFER" user_id (
        EventData.transfer (env.uuid_string txn.id) txn.reference_no locked_source.id
          locked_target.id req.amount (locked_source.balance -ℤ req.amount))
    pure (record {
      transaction_id = txn.id;
      reference_no = txn.reference_no;
      type = txn.type;
      status = transaction_status_completed;
      amount = req.amount;
      source_wallet_id = locked_source.id;
      target_wallet_id = locked_target.id;
      balance_after = locked_source.balance -ℤ req.amount;
      created_at = txn.created_at;
    })

  unfoldable pub transfer : Uuid → TransferRequest → M TransferResponse
  transfer user_id req = do
    found ← Wallets.find_by_user_id env user_id
    source ← or_raise found wallet_not_found
    raise_if (str_eq source.id req.target_wallet_id) self_transfer
    found_target ← Wallets.find_by_id env req.target_wallet_id
    target ← or_raise found_target target_wallet_not_found
    wrap "failed to begin transaction" (begin env)
    with_rollback (transfer_in_tx user_id req source target)
