-- ===== src/Repository/LedgerEntries.antt =====
-- internal/repository/ledger_repository.go
use wallet_ledger_service.Common.{ℕ, String, Option, none, some, List, map}
use wallet_ledger_service.Common.Int.{ℤ}
use wallet_ledger_service.Model.{Uuid, LedgerEntry}
use wallet_ledger_service.Failure.{ok}
use wallet_ledger_service.Database.{LedgerEntryRow}
use wallet_ledger_service.Sql.LedgerEntries.{
  create_ledger_entry, find_ledger_entries_by_transaction_id, find_ledger_entries_by_wallet_id,
  count_ledger_entries_by_wallet_id, find_ledger_entries_by_wallet_id_and_type,
  count_ledger_entries_by_wallet_id_and_type,
}
use wallet_ledger_service.World.{Env, M, Handle, no_tx, query, wrap, ◌>>=◌, pure}
use wallet_ledger_service.Repository.Common.{
  decimal_to_numeric, numeric_to_decimal, valid_or_zero, reading, list_page,
}

unfoldable pub map_ledger_entry : LedgerEntryRow → LedgerEntry
map_ledger_entry e = record {
  id = e.id;
  transaction_id = valid_or_zero e.transaction_id;
  wallet_id = e.wallet_id;
  entry_type = e.entry_type;
  amount = numeric_to_decimal e.amount;
  created_at = valid_or_zero e.created_at;
}

module _ (env : Env) where
  unfoldable pub create : Handle → LedgerEntry → M LedgerEntry
  create h entry = do
    row ← wrap "create ledger entry query failed" (
        query env h λ n. create_ledger_entry env.column (env.now n) (record {
          id = entry.id;
          transaction_id = some entry.transaction_id;
          wallet_id = entry.wallet_id;
          entry_type = entry.entry_type;
          amount = decimal_to_numeric env.scan entry.amount;
        }))
    pure (map_ledger_entry row)

  unfoldable pub find_by_transaction_id : Uuid → M (List LedgerEntry)
  find_by_transaction_id id = do
    rows ←
        wrap "find ledger entries by transaction id query failed"
          (query env no_tx (reading λ d. ok (find_ledger_entries_by_transaction_id (some id) d)))
    pure (map map_ledger_entry rows)

  unfoldable pub find_by_wallet_id : String → Option String → ℤ → ℤ → M (List LedgerEntry × ℕ)
  find_by_wallet_id wallet_id (some type) limit offset =
      list_page env "find ledger entries by wallet id and type query failed"
        "count ledger entries by wallet id and type query failed" map_ledger_entry limit offset
        (find_ledger_entries_by_wallet_id_and_type wallet_id type)
        (count_ledger_entries_by_wallet_id_and_type wallet_id type)
  find_by_wallet_id wallet_id none limit offset =
      list_page env "find ledger entries by wallet id query failed"
        "count ledger entries by wallet id query failed" map_ledger_entry limit offset
        (find_ledger_entries_by_wallet_id wallet_id) (count_ledger_entries_by_wallet_id wallet_id)
