-- ===== src/Sql/LedgerEntries.antt =====
-- database/queries/ledger_entries.sql, with the constraints of
-- 000004_create_ledger_entries_table.up.sql.
use wallet_ledger_service.Common.{
  ℕ, String, not, ◌&&◌, Option, some, List, [], ◌∷◌, ◌++◌, str_eq, fits, exists, keep, length,
}
use wallet_ledger_service.Model.{Uuid, Time, Decimal}
use wallet_ledger_service.Failure.{
  Result, ok, require, not_null, unique_violation, check_violation, foreign_key_violation,
  value_too_long, ◌>>=◌, ◌>>◌,
}
use wallet_ledger_service.Database.{
  Numeric, LedgerEntryRow, TransactionRow, WalletRow, Database, eq_uuid, store, is_positive,
}
use wallet_ledger_service.Sql.Order.{order_desc, order_asc, page}

pub record CreateLedgerEntryParams : Type 0 where
  pub id : String
  pub transaction_id : Option Uuid
  pub wallet_id : String
  pub entry_type : String
  pub amount : Numeric

unfoldable pub create_ledger_entry :
    (Decimal → Option Decimal)
    → Time
    → CreateLedgerEntryParams
    → Database
    → Result (LedgerEntryRow × Database)
create_ledger_entry column now p d = do
  require (fits 20 p.id && fits 20 p.wallet_id && fits 10 p.entry_type) value_too_long
  transaction_id ← not_null p.transaction_id
  amount ← store column p.amount
  require (is_positive amount) check_violation
  require (not (exists (λ (e : LedgerEntryRow). str_eq e.id p.id) d.ledger_entries))
      unique_violation
  require (exists (λ (t : TransactionRow). eq_uuid t.id (some transaction_id)) d.transactions)
      foreign_key_violation
  require (exists (λ (w : WalletRow). str_eq w.id p.wallet_id) d.wallets) foreign_key_violation
  let row : LedgerEntryRow = record {
    id = p.id;
    transaction_id = some transaction_id;
    wallet_id = p.wallet_id;
    entry_type = p.entry_type;
    amount = amount;
    created_at = some now;
  }
  ok (row, record d { ledger_entries = d.ledger_entries ++ row ∷ [] })

unfoldable pub find_ledger_entries_by_transaction_id : Option Uuid → Database → List LedgerEntryRow
find_ledger_entries_by_transaction_id id d =
    order_asc (λ (e : LedgerEntryRow). e.created_at)
      (keep (λ e. eq_uuid e.transaction_id id) d.ledger_entries)

abbrev pub newest : List LedgerEntryRow → List LedgerEntryRow
newest = order_desc (λ (e : LedgerEntryRow). e.created_at)

unfoldable pub find_ledger_entries_by_wallet_id : String → ℕ → ℕ → Database → List LedgerEntryRow
find_ledger_entries_by_wallet_id id limit offset d =
    page limit offset (newest (keep (λ e. str_eq e.wallet_id id) d.ledger_entries))

unfoldable pub count_ledger_entries_by_wallet_id : String → Database → ℕ
count_ledger_entries_by_wallet_id id d = length (keep (λ e. str_eq e.wallet_id id) d.ledger_entries)

unfoldable pub find_ledger_entries_by_wallet_id_and_type :
    String → String → ℕ → ℕ → Database → List LedgerEntryRow
find_ledger_entries_by_wallet_id_and_type id type limit offset d =
    page limit offset
      (newest (keep (λ e. str_eq e.wallet_id id && str_eq e.entry_type type) d.ledger_entries))

unfoldable pub count_ledger_entries_by_wallet_id_and_type : String → String → Database → ℕ
count_ledger_entries_by_wallet_id_and_type id type d =
    length (keep (λ e. str_eq e.wallet_id id && str_eq e.entry_type type) d.ledger_entries)
