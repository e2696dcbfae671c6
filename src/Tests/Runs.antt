-- ===== src/Tests/Runs.antt =====
-- Runs of the services on two wallets.
use wallet_ledger_service.Common.{◌≡◌, refl, [], ◌∷◌, none, some, map}
use wallet_ledger_service.Common.Int.{pos, ◌+ℤ◌, ◌-ℤ◌}
use wallet_ledger_service.Model.{transaction_type_transfer, transaction_status_completed}
use wallet_ledger_service.Failure.{ok, err, sentinel, insufficient_balance, self_transfer}
use wallet_ledger_service.Database.{num}
use wallet_ledger_service.Dto.Bodies.{
  TransferResponse, TransactionDetailResponse, TransactionListResponse,
}
use wallet_ledger_service.Common.Words.{int32, int64, ◌*ℤ◌, quot}
use wallet_ledger_service.Dto.{set_defaults, offset, pagination_response, total_pages}
use wallet_ledger_service.Service.Transactions.Queries.{
  transaction_response, ledger_entry_response, is_authorized, get_transaction_detail,
  get_all_transactions,
}
use wallet_ledger_service.Repository.Transactions.{map_transaction}
use wallet_ledger_service.World.{
  ◌>>=◌, query, or_raise, raise_if, wrap, begin, with_rollback, commit, deref, pure, raise,
  read_clock, spawn_publish,
}
use wallet_ledger_service.Repository.Wallets
use wallet_ledger_service.Repository.Common.{
  list_page, find_row, decimal_to_numeric, numeric_to_decimal, optional,
}
use wallet_ledger_service.Sql.Wallets.{
  find_wallet_by_user_id, find_wallet_by_id, find_wallet_by_id_for_update, update_wallet_balance,
}
use wallet_ledger_service.Service.Transactions.Transfer.{
  transfer, transfer_in_tx, lock_wallets, assign_locked, create_entry, post_transfer,
}
use wallet_ledger_service.Repository.LedgerEntries
use wallet_ledger_service.Repository.Transactions
use wallet_ledger_service.Service.Events.{publish_event}
use wallet_ledger_service.Sql.LedgerEntries.{
  find_ledger_entries_by_transaction_id, create_ledger_entry,
}
use wallet_ledger_service.Sql.Transactions.{
  find_transaction_by_id, find_all_transactions_by_status, count_all_transactions_by_status,
  create_transaction, update_transaction_status,
}
use wallet_ledger_service.Utils.Ids.{
  generate_ledger_entry_id, generate_transaction_ref, random_alphanumeric,
}
use wallet_ledger_service.Repository.Notifications.{clear_all}
use wallet_ledger_service.Sql.Notifications.{clear_notifications_by_user_id}
use wallet_ledger_service.Tests.Fixtures.{
  calm, ready, sends, sends_too_much, sends_to_itself, balances, past, first_credit,
}

-- The answer to a transfer of 70.
abbrev pub sent_answer : TransferResponse
sent_answer = record {
  transaction_id = 115;
  reference_no = "TXN-20260101-FGHIJKLM";
  type = transaction_type_transfer;
  status = transaction_status_completed;
  amount = pos 70;
  source_wallet_id = "WLT-A";
  target_wallet_id = "WLT-B";
  balance_after = pos 430;
  created_at = 15;
}

pub sent : (transfer calm 1 sends ready).0 ≡ ok sent_answer
unfolding transfer ◌>>=◌ query or_raise raise_if wrap begin with_rollback commit deref pure raise
    read_clock spawn_publish Wallets.find_by_user_id Wallets.map_wallet Wallets.find_by_id
    Wallets.find_by_id_for_update Wallets.update_balance find_row decimal_to_numeric
    numeric_to_decimal optional find_wallet_by_user_id find_wallet_by_id
    find_wallet_by_id_for_update update_wallet_balance transfer_in_tx lock_wallets assign_locked
    create_entry post_transfer LedgerEntries.create LedgerEntries.map_ledger_entry
    Transactions.create Transactions.map_transaction Transactions.update_status publish_event
    create_ledger_entry create_transaction update_transaction_status generate_ledger_entry_id
    generate_transaction_ref random_alphanumeric ◌+ℤ◌ ◌-ℤ◌
sent = refl

-- A transfer moves the amount, writes both entries and publishes one event.
moved : balances (transfer calm 1 sends ready).1 ≡ num (pos 430) ∷ num (pos 170) ∷ []
unfolding transfer ◌>>=◌ query or_raise raise_if wrap begin with_rollback commit deref pure raise
    read_clock spawn_publish Wallets.find_by_user_id Wallets.map_wallet Wallets.find_by_id
    Wallets.find_by_id_for_update Wallets.update_balance find_row decimal_to_numeric
    numeric_to_decimal optional find_wallet_by_user_id find_wallet_by_id
    find_wallet_by_id_for_update update_wallet_balance transfer_in_tx lock_wallets assign_locked
    create_entry post_transfer LedgerEntries.create LedgerEntries.map_ledger_entry
    Transactions.create Transactions.map_transaction Transactions.update_status publish_event
    create_ledger_entry create_transaction update_transaction_status generate_ledger_entry_id
    generate_transaction_ref random_alphanumeric ◌+ℤ◌ ◌-ℤ◌
moved = refl

pub too_much : (transfer calm 1 sends_too_much ready).0 ≡ err (sentinel insufficient_balance)
unfolding transfer ◌>>=◌ query or_raise raise_if wrap begin with_rollback commit deref pure raise
    read_clock spawn_publish Wallets.find_by_user_id Wallets.map_wallet Wallets.find_by_id
    Wallets.find_by_id_for_update Wallets.update_balance find_row decimal_to_numeric
    numeric_to_decimal optional find_wallet_by_user_id find_wallet_by_id
    find_wallet_by_id_for_update update_wallet_balance transfer_in_tx lock_wallets assign_locked
    create_entry post_transfer LedgerEntries.create LedgerEntries.map_ledger_entry
    Transactions.create Transactions.map_transaction Transactions.update_status publish_event
    create_ledger_entry create_transaction update_transaction_status generate_ledger_entry_id
    generate_transaction_ref random_alphanumeric ◌+ℤ◌ ◌-ℤ◌
too_much = refl

to_itself : (transfer calm 1 sends_to_itself ready).0 ≡ err (sentinel self_transfer)
unfolding transfer ◌>>=◌ query or_raise raise_if wrap begin with_rollback commit deref pure raise
    read_clock spawn_publish Wallets.find_by_user_id Wallets.map_wallet Wallets.find_by_id
    Wallets.find_by_id_for_update Wallets.update_balance find_row decimal_to_numeric
    numeric_to_decimal optional find_wallet_by_user_id find_wallet_by_id
    find_wallet_by_id_for_update update_wallet_balance transfer_in_tx lock_wallets assign_locked
    create_entry post_transfer LedgerEntries.create LedgerEntries.map_ledger_entry
    Transactions.create Transactions.map_transaction Transactions.update_status publish_event
    create_ledger_entry create_transaction update_transaction_status generate_ledger_entry_id
    generate_transaction_ref random_alphanumeric ◌+ℤ◌ ◌-ℤ◌
to_itself = refl

abbrev pub past_answer : TransactionDetailResponse
past_answer = record {
  transaction = transaction_response (map_transaction past);
  ledger_entries = map ledger_entry_response (
      map LedgerEntries.map_ledger_entry
        (first_credit "LED-1" "WLT-A" 500 ∷ first_credit "LED-2" "WLT-B" 100 ∷ []));
}

pub detailed : (get_transaction_detail calm 1 50 ready).0 ≡ ok past_answer
unfolding ◌>>=◌ Wallets.find_by_user_id find_row query find_wallet_by_user_id or_raise raise_if
    Wallets.map_wallet wrap pure optional Transactions.find_by_id Transactions.map_transaction
    LedgerEntries.find_by_transaction_id get_transaction_detail is_authorized find_transaction_by_id
    find_ledger_entries_by_transaction_id
detailed = refl

abbrev pub first_page : TransactionListResponse
first_page = record {
  transactions = transaction_response (map_transaction past) ∷ [];
  pagination = record {
    current_page = pos 1;
    per_page = pos 10;
    total_items = pos 1;
    total_pages = pos 1;
  };
}

pub listed :
    (get_all_transactions calm none
      (some transaction_status_completed)
      (record { page = pos 1; limit = pos 10 })
      ready).0
    ≡ ok first_page
unfolding ◌>>=◌ wrap pure query get_all_transactions Transactions.find_all list_page
    find_all_transactions_by_status count_all_transactions_by_status set_defaults offset
    pagination_response total_pages int32 int64 ◌*ℤ◌ quot ◌+ℤ◌ ◌-ℤ◌
listed = refl

pub cleared : (clear_all calm 1 ready).0 ≡ ok tt
unfolding clear_all wrap query clear_notifications_by_user_id
cleared = refl
