-- ===== src/Sql/Laws.antt =====
-- What a statement that succeeds has done to the tables.
use wallet_ledger_service.Common.{
  String, ◌≡◌, refl, Bool, true, false, Option, some, List, [], ◌∷◌, ◌++◌, arith, str_eq, exists,
  update,
}
use wallet_ledger_service.Model.{Uuid, Time, Decimal}
use wallet_ledger_service.Failure.{Result, ok, err, ◌>>=◌}
use wallet_ledger_service.Database.{
  Numeric, TransactionRow, WalletRow, LedgerEntryRow, Database, eq_uuid, store, is_positive,
  is_nonneg,
}
use wallet_ledger_service.Sql.Wallets.{set_balance, update_wallet_balance}
use wallet_ledger_service.Sql.Transactions.{
  CreateTransactionParams, create_transaction, refers, set_status, update_transaction_status,
}
use wallet_ledger_service.Sql.LedgerEntries.{CreateLedgerEntryParams, create_ledger_entry}

-- A transaction that is created is the last row of its table: it holds what it was given, with an
-- id that was free and an amount above zero, and its wallets exist.
pub record Created (column : Decimal → Option Decimal) (id : Uuid) (now : Time)
    (p : CreateTransactionParams) (d : Database) (row : TransactionRow) (d' : Database)
    : Type 0 where
  pub after : d' ≡ record d { transactions = d.transactions ++ row ∷ [] }
  pub row_id : row.id ≡ some id
  pub reference_no : row.reference_no ≡ p.reference_no
  pub type : row.type ≡ p.type
  pub status : row.status ≡ p.status
  pub source : row.source_wallet_id ≡ p.source_wallet_id
  pub target : row.target_wallet_id ≡ p.target_wallet_id
  pub stored : store column p.amount ≡ ok row.amount
  pub positive : is_positive row.amount ≡ true
  pub fresh : exists (λ (t : TransactionRow). eq_uuid t.id (some id)) d.transactions ≡ false
  pub source_known : refers p.source_wallet_id d.wallets ≡ true
  pub target_known : refers p.target_wallet_id d.wallets ≡ true

pub create_transaction-Created :
    (column : Decimal → Option Decimal) (id : Uuid) (now : Time) (p : CreateTransactionParams)
    (d : Database) (row : TransactionRow) (d' : Database)
    → create_transaction column id now p d ≡ ok (row, d')
    → Created column id now p d row d'
unfolding create_transaction
create_transaction-Created column id now p d row d' e = ground arith

-- An entry that is created is the last row of its table, for a transaction and a wallet that exist.
pub record Entered (column : Decimal → Option Decimal) (p : CreateLedgerEntryParams) (d : Database)
    (row : LedgerEntryRow) (d' : Database) : Type 0 where
  pub after : d' ≡ record d { ledger_entries = d.ledger_entries ++ row ∷ [] }
  pub row_id : row.id ≡ p.id
  pub transaction : row.transaction_id ≡ p.transaction_id
  pub wallet : row.wallet_id ≡ p.wallet_id
  pub entry_type : row.entry_type ≡ p.entry_type
  pub stored : store column p.amount ≡ ok row.amount
  pub positive : is_positive row.amount ≡ true
  pub fresh : exists (λ (e : LedgerEntryRow). str_eq e.id p.id) d.ledger_entries ≡ false
  pub transaction_known :
      exists (λ (t : TransactionRow). eq_uuid t.id p.transaction_id) d.transactions ≡ true
  pub wallet_known : exists (λ (w : WalletRow). str_eq w.id p.wallet_id) d.wallets ≡ true

pub create_ledger_entry-Entered :
    (column : Decimal → Option Decimal) (now : Time) (p : CreateLedgerEntryParams) (d : Database)
    (row : LedgerEntryRow) (d' : Database)
    → create_ledger_entry column now p d ≡ ok (row, d')
    → Entered column p d row d'
unfolding create_ledger_entry
create_ledger_entry-Entered column now p d row d' e = ground arith

-- Where a row has the id, the balance is stored as the column keeps it, and is not negative.
pub record Balanced (column : Decimal → Option Decimal) (id : String) (balance : Numeric)
    (d : Database) (d' : Database) : Type 0 where
  pub kept : Numeric
  pub now : Time
  pub after :
      d' ≡ record d { wallets = update (λ w. str_eq w.id id) (set_balance kept now) d.wallets }
  pub stored : store column balance ≡ ok kept
  pub nonneg : is_nonneg kept ≡ true

stored_of_ok :
    {B : Type 0} (r : Result Numeric) (k : Numeric → Result B) {b : B}
    → (r >>= k) ≡ ok b
    → (n : Numeric) × (r ≡ ok n) × (k n ≡ ok b)
stored_of_ok (ok n) k e = (n, refl, e)
stored_of_ok (err x) k e = cc

pub update_wallet_balance-Balanced :
    (column : Decimal → Option Decimal) (now : Time) (id : String) (balance : Numeric)
    (d d' : Database)
    → exists (λ (w : WalletRow). str_eq w.id id) d.wallets ≡ true
    → update_wallet_balance column now id balance d ≡ ok d'
    → Balanced column id balance d d'
unfolding update_wallet_balance
update_wallet_balance-Balanced column now id balance d d' known e =
    let (n, s, r) = stored_of_ok (store column balance) _ (rw known at e) in
    record { kept = n; now = now; after = ground arith; stored = s; nonneg = ground arith }

update_none :
    {A : Type 0} (p : A → Bool) (f : A → A) (xs : List A) → exists p xs ≡ false → update p f xs ≡ xs
update_none p f [] h = refl
update_none p f (x ∷ xs) h = ground (arith, update_none p f xs)

pub update_transaction_status-eq :
    (id : Option Uuid) (status : String) (d d' : Database)
    → update_transaction_status id status d ≡ ok d'
    → d'
      ≡ record d { transactions = update (λ t. eq_uuid t.id id) (set_status status) d.transactions }
unfolding update_transaction_status
update_transaction_status-eq id status d d' e = ground (
  arith,
  update_none (λ (t : TransactionRow). eq_uuid t.id id) (set_status status) d.transactions,
)
