-- ===== src/Sql/Transactions.antt =====
-- database/queries/transactions.sql and admin_transactions.sql, with the constraints of
-- 000003_create_transactions_table.up.sql.
use wallet_ledger_service.Common.{
  ℕ, String, Bool, true, false, not, ◌&&◌, ◌||◌, Option, none, some, List, [], ◌∷◌, ◌++◌, str_eq,
  fits, first, exists, update, keep, length, if◌then◌else◌,
}
use wallet_ledger_service.Model.{Uuid, Time, Decimal}
use wallet_ledger_service.Failure.{
  Result, ok, require, unique_violation, check_violation, foreign_key_violation, value_too_long,
  ◌>>=◌, ◌>>◌,
}
use wallet_ledger_service.Database.{
  Numeric, TransactionRow, WalletRow, Database, eq_uuid, store, is_positive,
}
use wallet_ledger_service.Sql.Order.{order_desc, page}
use wallet_ledger_service.Sql.Wallets.{one}

pub record CreateTransactionParams : Type 0 where
  pub reference_no : String
  pub type : String
  pub status : String
  pub amount : Numeric
  pub source_wallet_id : Option String
  pub target_wallet_id : Option String

-- `REFERENCES wallets(id)`: a null refers to nothing.
abbrev pub refers : Option String → List WalletRow → Bool
refers none wallets = true
refers (some id) wallets = exists (λ w. str_eq w.id id) wallets

unfoldable pub create_transaction :
    (Decimal → Option Decimal)
    → Uuid
    → Time
    → CreateTransactionParams
    → Database
    → Result (TransactionRow × Database)
create_transaction column id now p d = do
  require (fits 30 p.reference_no && fits 20 p.type && fits 20 p.status) value_too_long
  amount ← store column p.amount
  require (is_positive amount) check_violation
  require (not (exists (λ (t : TransactionRow). eq_uuid t.id (some id)) d.transactions))
      unique_violation
  require
      (not (exists (λ (t : TransactionRow). str_eq t.reference_no p.reference_no) d.transactions))
      unique_violation
  require (refers p.source_wallet_id d.wallets && refers p.target_wallet_id d.wallets)
      foreign_key_violation
  let row : TransactionRow = record {
    id = some id;
    reference_no = p.reference_no;
    type = p.type;
    status = p.status;
    amount = amount;
    source_wallet_id = p.source_wallet_id;
    target_wallet_id = p.target_wallet_id;
    created_at = some now;
  }
  ok (row, record d { transactions = d.transactions ++ row ∷ [] })

unfoldable pub find_transaction_by_id : Option Uuid → Database → Result TransactionRow
find_transaction_by_id id d = one (first (λ t. eq_uuid t.id id) d.transactions)

abbrev pub set_status : String → TransactionRow → TransactionRow
set_status status t = record t { status = status }

unfoldable pub update_transaction_status : Option Uuid → String → Database → Result Database
update_transaction_status id status d =
    if exists (λ t. eq_uuid t.id id) d.transactions
    then (do
      require (fits 20 status) value_too_long
      ok (record d {
        transactions = update (λ t. eq_uuid t.id id) (set_status status) d.transactions;
      }))
    else ok d

-- SQL's `=` on a nullable text.
abbrev pub eq_text : Option String → Option String → Bool
eq_text (some a) (some b) = str_eq a b
eq_text _ _ = false

-- `source_wallet_id = $1 OR target_wallet_id = $1`
abbrev pub involves : Option String → TransactionRow → Bool
involves id t = eq_text t.source_wallet_id id || eq_text t.target_wallet_id id

abbrev pub newest : List TransactionRow → List TransactionRow
newest = order_desc (λ (t : TransactionRow). t.created_at)

unfoldable pub find_transactions_by_wallet_id :
    Option String → ℕ → ℕ → Database → List TransactionRow
find_transactions_by_wallet_id id limit offset d =
    page limit offset (newest (keep (involves id) d.transactions))

unfoldable pub count_transactions_by_wallet_id : Option String → Database → ℕ
count_transactions_by_wallet_id id d = length (keep (involves id) d.transactions)

unfoldable pub find_transactions_by_wallet_id_and_type :
    Option String → String → ℕ → ℕ → Database → List TransactionRow
find_transactions_by_wallet_id_and_type id type limit offset d =
    page limit offset (newest (keep (λ t. involves id t && str_eq t.type type) d.transactions))

unfoldable pub count_transactions_by_wallet_id_and_type : Option String → String → Database → ℕ
count_transactions_by_wallet_id_and_type id type d =
    length (keep (λ t. involves id t && str_eq t.type type) d.transactions)

unfoldable pub find_all_transactions : ℕ → ℕ → Database → List TransactionRow
find_all_transactions limit offset d = page limit offset (newest d.transactions)

unfoldable pub count_all_transactions : Database → ℕ
count_all_transactions d = length d.transactions

unfoldable pub find_all_transactions_by_type : String → ℕ → ℕ → Database → List TransactionRow
find_all_transactions_by_type type limit offset d =
    page limit offset (newest (keep (λ t. str_eq t.type type) d.transactions))

unfoldable pub count_all_transactions_by_type : String → Database → ℕ
count_all_transactions_by_type type d = length (keep (λ t. str_eq t.type type) d.transactions)

unfoldable pub find_all_transactions_by_status : String → ℕ → ℕ → Database → List TransactionRow
find_all_transactions_by_status status limit offset d =
    page limit offset (newest (keep (λ t. str_eq t.status status) d.transactions))

unfoldable pub count_all_transactions_by_status : String → Database → ℕ
count_all_transactions_by_status status d =
    length (keep (λ t. str_eq t.status status) d.transactions)

unfoldable pub find_all_transactions_by_type_and_status :
    String → String → ℕ → ℕ → Database → List TransactionRow
find_all_transactions_by_type_and_status type status limit offset d =
    page limit offset
      (newest (keep (λ t. str_eq t.type type && str_eq t.status status) d.transactions))

unfoldable pub count_all_transactions_by_type_and_status : String → String → Database → ℕ
count_all_transactions_by_type_and_status type status d =
    length (keep (λ t. str_eq t.type type && str_eq t.status status) d.transactions)
