-- ===== src/Repository/Transactions.antt =====
-- internal/repository/transaction_repository.go
use wallet_ledger_service.Common.{ℕ, String, Option, none, some, List, ⊤, str_eq, if◌then◌else◌}
use wallet_ledger_service.Common.Int.{ℤ}
use wallet_ledger_service.Model.{Uuid, Transaction}
use wallet_ledger_service.Database.{TransactionRow}
use wallet_ledger_service.Sql.Transactions.{
  create_transaction, find_transaction_by_id, update_transaction_status,
  find_transactions_by_wallet_id, count_transactions_by_wallet_id,
  find_transactions_by_wallet_id_and_type, count_transactions_by_wallet_id_and_type,
  find_all_transactions, count_all_transactions, find_all_transactions_by_type,
  count_all_transactions_by_type, find_all_transactions_by_status, count_all_transactions_by_status,
  find_all_transactions_by_type_and_status, count_all_transactions_by_type_and_status,
}
use wallet_ledger_service.World.{Env, M, Handle, no_tx, query, wrap, ◌>>=◌, pure}
use wallet_ledger_service.Repository.Common.{
  decimal_to_numeric, numeric_to_decimal, valid_or_zero, valid_or_empty, find_row, writing,
  list_page,
}

unfoldable pub map_transaction : TransactionRow → Transaction
map_transaction t = record {
  id = valid_or_zero t.id;
  reference_no = t.reference_no;
  type = t.type;
  status = t.status;
  amount = numeric_to_decimal t.amount;
  source_wallet_id = t.source_wallet_id;
  target_wallet_id = valid_or_empty t.target_wallet_id;
  created_at = valid_or_zero t.created_at;
}

-- An empty target id is written as null.
abbrev pub null_if_empty : String → Option String
null_if_empty s = if str_eq s "" then none else some s

module _ (env : Env) where
  unfoldable pub create : Handle → Transaction → M Transaction
  create h txn = do
    row ← wrap "create transaction query failed" (
        query env h λ n. create_transaction env.column (env.new_uuid n) (env.now n) (record {
          reference_no = txn.reference_no;
          type = txn.type;
          status = txn.status;
          amount = decimal_to_numeric env.scan txn.amount;
          source_wallet_id = txn.source_wallet_id;
          target_wallet_id = null_if_empty txn.target_wallet_id;
        }))
    pure (map_transaction row)

  unfoldable pub find_by_id : Uuid → M (Option Transaction)
  find_by_id id =
      find_row env no_tx "find transaction by id query failed" map_transaction
        (find_transaction_by_id (some id))

  unfoldable pub update_status : Handle → Uuid → String → M ⊤
  update_status h id status =
      wrap "update transaction status query failed"
        (query env h λ n. writing (update_transaction_status (some id) status))

  unfoldable pub find_by_wallet_id : String → Option String → ℤ → ℤ → M (List Transaction × ℕ)
  find_by_wallet_id wallet_id (some type) limit offset =
      list_page env "find transactions by wallet id and type query failed"
        "count transactions by wallet id and type query failed" map_transaction limit offset
        (find_transactions_by_wallet_id_and_type (some wallet_id) type)
        (count_transactions_by_wallet_id_and_type (some wallet_id) type)
  find_by_wallet_id wallet_id none limit offset =
      list_page env "find transactions by wallet id query failed"
        "count transactions by wallet id query failed" map_transaction limit offset
        (find_transactions_by_wallet_id (some wallet_id))
        (count_transactions_by_wallet_id (some wallet_id))

  unfoldable pub find_all : Option String → Option String → ℤ → ℤ → M (List Transaction × ℕ)
  find_all (some type) (some status) limit offset =
      list_page env "find all transactions by type and status failed"
        "count all transactions by type and status failed" map_transaction limit offset
        (find_all_transactions_by_type_and_status type status)
        (count_all_transactions_by_type_and_status type status)
  find_all (some type) none limit offset =
      list_page env "find all transactions by type failed" "count all transactions by type failed"
        map_transaction limit offset (find_all_transactions_by_type type)
        (count_all_transactions_by_type type)
  find_all none (some status) limit offset =
      list_page env "find all transactions by status failed"
        "count all transactions by status failed" map_transaction limit offset
        (find_all_transactions_by_status status) (count_all_transactions_by_status status)
  find_all none none limit offset =
      list_page env "find all transactions failed" "count all transactions failed" map_transaction
        limit offset find_all_transactions count_all_transactions
