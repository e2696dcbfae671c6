-- ===== src/Repository/Effects.antt =====
-- What the methods that a service calls inside a transaction do to its working copy.
use mathlib.Core.Option
use wallet_ledger_service.Common.{
  ℕ, suc, String, ◌≡◌, refl, Bool, true, false, ⊤, Option, none, some, arith, str_eq, ◌⊎◌, inr,
  first, exists, update,
}
use wallet_ledger_service.Model.{Uuid, Decimal, Wallet, Transaction, LedgerEntry}
use wallet_ledger_service.Failure.{Result, ok, err, connection_failed}
use wallet_ledger_service.Database.{
  Numeric, WalletRow, TransactionRow, LedgerEntryRow, Database, eq_uuid,
}
use wallet_ledger_service.Sql.Wallets.{
  find_wallet_by_user_id, find_wallet_by_id, find_wallet_by_id_for_update, update_wallet_balance,
}
use wallet_ledger_service.Sql.Transactions.{
  CreateTransactionParams, set_status, update_transaction_status,
}
use wallet_ledger_service.Sql.LedgerEntries.{CreateLedgerEntryParams}
use wallet_ledger_service.Sql.Laws.{
  Created, create_transaction-Created, Entered, create_ledger_entry-Entered, Balanced,
  update_wallet_balance-Balanced, update_transaction_status-eq,
}
use wallet_ledger_service.World.{Env, World, in_tx, no_tx, query, or_fault, or_lost, run}
use wallet_ledger_service.World.Rules.{
  Effect, Runs, Runs-pure, Runs-wrap, Runs-query, Runs-weaken, Runs-bind,
}
use wallet_ledger_service.World.Reading.{Reads, Reads-weaken}
use wallet_ledger_service.Repository.Common.{
  decimal_to_numeric, reading, writing, find_row, absent, optional,
}
use wallet_ledger_service.Repository.Wallets
use wallet_ledger_service.Repository.Wallets.{map_wallet}
use wallet_ledger_service.Repository.Transactions
use wallet_ledger_service.Repository.Transactions.{map_transaction, null_if_empty}
use wallet_ledger_service.Repository.LedgerEntries
use wallet_ledger_service.Repository.LedgerEntries.{map_ledger_entry}

-- The wallet that the tables hold under an id.
abbrev pub row_at : String → Database → Option WalletRow
row_at id d = first (λ (w : WalletRow). str_eq w.id id) d.wallets

abbrev pub wallet_at : String → Database → Option Wallet
wallet_at id d = Option.map map_wallet (row_at id d)

-- The wallet that the tables hold for a user.
abbrev pub wallet_of : Uuid → Database → Option Wallet
wallet_of user_id d =
    Option.map map_wallet (first (λ (w : WalletRow). eq_uuid w.user_id (some user_id)) d.wallets)

abbrev pub transaction_params : (Decimal → Option Numeric) → Transaction → CreateTransactionParams
transaction_params scan t = record {
  reference_no = t.reference_no;
  type = t.type;
  status = t.status;
  amount = decimal_to_numeric scan t.amount;
  source_wallet_id = t.source_wallet_id;
  target_wallet_id = null_if_empty t.target_wallet_id;
}

abbrev pub entry_params : (Decimal → Option Numeric) → LedgerEntry → CreateLedgerEntryParams
entry_params scan e = record {
  id = e.id;
  transaction_id = some e.transaction_id;
  wallet_id = e.wallet_id;
  entry_type = e.entry_type;
  amount = decimal_to_numeric scan e.amount;
}

-- How a read in the transaction ends: as the statement does on the working copy, or by a failure.
module _ {A : Type 0} (q : Database → Result A) (n : ℕ) where
  reading-keeps :
      (fault : Bool) (w : World) (d : Database)
      → w.tx ≡ some d
      → ((or_fault fault (run in_tx (reading q n)) w).1.tx ≡ some d)
        × (((or_fault fault (run in_tx (reading q n)) w).0 ≡ q d)
            ⊎ ((or_fault fault (run in_tx (reading q n)) w).0 ≡ err connection_failed))
  reading-keeps true w d h = (h, inr refl)
  reading-keeps false w d h = ground arith

abbrev pub Found : {A B : Type 0} → (A → B) → Result A → Option B → Type 0
Found f (ok a) o = o ≡ some (f a)
Found f (err e) o = o ≡ none

absent-Found :
    {A B : Type 0} (text : String) (f : A → B) (r s : Result A) (o : Option B)
    → (r ≡ s) ⊎ (r ≡ err connection_failed)
    → absent text f r ≡ ok o
    → Found f s o
absent-Found text f r (ok a) o h e = ground arith
absent-Found text f r (err x) o h e = ground arith

module _ (env : Env) where
  abbrev pub Finds : {A B : Type 0} → (A → B) → (Database → Result A) → Effect (Option B)
  Finds f q d o d' = (d' ≡ d) × Found f (q d) o

  pub find_row-Finds :
      {A B : Type 0} (text : String) (f : A → B) (q : Database → Result A)
      → Runs (find_row env in_tx text f q) (Finds f q)
  unfolding find_row optional query
  find_row-Finds text f q =
      let m = Runs-query env (reading q) {R = λ d a d'. ⊤} (λ n d a d' e. tt) in
      record {
        db_same = m.db_same;
        events_same = m.events_same;
        moves = λ w d o h e.
            let (t, r) =
              reading-keeps q w.calls (env.fails w.calls) (record w { calls = suc w.calls }) d h in
            (d, t, (refl, absent-Found text f _ (q d) o r e));
      }

  abbrev pub CreatesTransaction : Transaction → Effect Transaction
  CreatesTransaction t d txn d' =
      (n : ℕ) × (row : TransactionRow) × (txn ≡ map_transaction row)
      × Created env.column (env.new_uuid n) (env.now n) (transaction_params env.scan t) d row d'

  pub create-CreatesTransaction :
      (t : Transaction) → Runs (Transactions.create env in_tx t) (CreatesTransaction t)
  unfolding Transactions.create
  create-CreatesTransaction t =
      Runs-weaken
        (Runs-bind
          (Runs-wrap _ (
            Runs-query env _
              {R = λ d row d'.
                (n : ℕ) × Created env.column (env.new_uuid n) (env.now n)
                  (transaction_params env.scan t) d row d'}
              (λ n d row d' e. (n, create_transaction-Created _ _ _ _ d row d' e))))
          (λ row. Runs-pure (map_transaction row)))
        (λ d txn d' (row, d1, (n, c), (same, e)). (n, row, e, rw same c))

  abbrev pub CreatesEntry : LedgerEntry → Effect LedgerEntry
  CreatesEntry x d entry d' =
      (row : LedgerEntryRow) × Entered env.column (entry_params env.scan x) d row d'

  pub create-CreatesEntry :
      (x : LedgerEntry) → Runs (LedgerEntries.create env in_tx x) (CreatesEntry x)
  unfolding LedgerEntries.create
  create-CreatesEntry x =
      Runs-weaken
        (Runs-bind
          (Runs-wrap _ (
            Runs-query env _ {R = λ d row d'. Entered env.column (entry_params env.scan x) d row d'}
              (λ n d row d' e. create_ledger_entry-Entered _ _ _ d row d' e)))
          (λ row. Runs-pure (map_ledger_entry row)))
        (λ d entry d' (row, d1, c, (same, e)). (row, rw same c))

  writing-ok :
      (f : Database → Result Database) (d : Database) (a : ⊤) (d' : Database)
      → writing f d ≡ ok (a, d')
      → f d ≡ ok d'
  writing-ok f d a d' e = ground arith

  -- A wallet that the tables hold gets the balance.
  abbrev pub SetsBalance : String → Decimal → Effect ⊤
  SetsBalance id balance d a d' =
      exists (λ (w : WalletRow). str_eq w.id id) d.wallets ≡ true
      → Balanced env.column id (decimal_to_numeric env.scan balance) d d'

  pub update_balance-SetsBalance :
      (id : String) (balance : Decimal)
      → Runs (Wallets.update_balance env in_tx id balance) (SetsBalance id balance)
  unfolding Wallets.update_balance
  update_balance-SetsBalance id balance = Runs-wrap _ (
      Runs-query env _ (λ n d a d' e known.
        update_wallet_balance-Balanced _ (env.now n) id _ d d' known (
          writing-ok
            (update_wallet_balance env.column (env.now n) id (decimal_to_numeric env.scan balance))
            d a d' e)))

  abbrev pub SetsStatus : Uuid → String → Effect ⊤
  SetsStatus id status d a d' = d' ≡ record d {
    transactions = update (λ t. eq_uuid t.id (some id)) (set_status status) d.transactions;
  }

  pub update_status-SetsStatus :
      (id : Uuid) (status : String)
      → Runs (Transactions.update_status env in_tx id status) (SetsStatus id status)
  unfolding Transactions.update_status
  update_status-SetsStatus id status = Runs-wrap _ (
      Runs-query env _ (λ n d a d' e.
        update_transaction_status-eq _ status d d'
          (writing-ok (update_transaction_status (some id) status) d a d' e)))

  -- The row of a wallet is locked and read.
  abbrev pub Locks : String → Effect (Option Wallet)
  Locks id d o d' = (d' ≡ d) × (o ≡ wallet_at id d)

  find_by_id_for_update-Found :
      (id : String) (d : Database) (o : Option Wallet)
      → Found map_wallet (find_wallet_by_id_for_update id d) o
      → o ≡ wallet_at id d
  unfolding find_wallet_by_id_for_update
  find_by_id_for_update-Found id d o h = ground arith

  pub find_by_id_for_update-Locks :
      (id : String) → Runs (Wallets.find_by_id_for_update env in_tx id) (Locks id)
  unfolding Wallets.find_by_id_for_update
  find_by_id_for_update-Locks id =
      Runs-weaken (find_row-Finds _ map_wallet (find_wallet_by_id_for_update id))
        (λ d o d' (same, found). (same, find_by_id_for_update-Found id d o found))

  module _ {A : Type 0} (q : Database → Result A) (n : ℕ) where
    reading-same :
        (fault lost : Bool) (w : World)
        → ((or_lost fault lost (run no_tx (reading q n)) w).1.db ≡ w.db)
          × ((or_lost fault lost (run no_tx (reading q n)) w).1.events ≡ w.events)
          × (((or_lost fault lost (run no_tx (reading q n)) w).0 ≡ q w.db)
              ⊎ ((or_lost fault lost (run no_tx (reading q n)) w).0 ≡ err connection_failed))
    reading-same true false w = (refl, refl, inr refl)
    reading-same true true w = (ground arith, ground arith, inr refl)
    reading-same false lost w = ground arith

  pub find_row-Reads :
      {A B : Type 0} (text : String) (f : A → B) (q : Database → Result A)
      → Reads (find_row env no_tx text f q) (λ start o. Found f (q start) o)
  unfolding find_row optional query
  find_row-Reads text f q =
      let ends = λ (w : World).
        reading-same q w.calls (env.fails w.calls) (env.applied w.calls)
          (record w { calls = suc w.calls }) in
      record {
        db_same = λ w. (ends w).0;
        events_same = λ w. (ends w).1;
        finds = λ w o e. absent-Found text f _ (q w.db) o (ends w).2 e;
      }

  by_user-Found :
      (user_id : Uuid) (d : Database) (o : Option Wallet)
      → Found map_wallet (find_wallet_by_user_id (some user_id) d) o
      → o ≡ wallet_of user_id d
  unfolding find_wallet_by_user_id
  by_user-Found user_id d o h = ground arith

  by_id-Found :
      (id : String) (d : Database) (o : Option Wallet)
      → Found map_wallet (find_wallet_by_id id d) o
      → o ≡ wallet_at id d
  unfolding find_wallet_by_id
  by_id-Found id d o h = ground arith

  pub find_by_user_id-Reads :
      (user_id : Uuid)
      → Reads (Wallets.find_by_user_id env user_id) (λ start o. o ≡ wallet_of user_id start)
  unfolding Wallets.find_by_user_id
  find_by_user_id-Reads user_id =
      Reads-weaken (find_row-Reads _ map_wallet _) (λ d o h. by_user-Found user_id d o h)

  pub find_by_id-Reads :
      (id : String) → Reads (Wallets.find_by_id env id) (λ start o. o ≡ wallet_at id start)
  unfolding Wallets.find_by_id
  find_by_id-Reads id = Reads-weaken (find_row-Reads _ map_wallet _) (λ d o h. by_id-Found id d o h)
