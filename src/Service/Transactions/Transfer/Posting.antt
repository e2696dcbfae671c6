-- ===== src/Service/Transactions/Transfer/Posting.antt =====
-- The statements of a transfer, taken together.
use mathlib.Core.Path.{subst}
use mathlib.Core.List.{append_assoc}
use mathlib.Core.Option.{some-injective}
use wallet_ledger_service.Common.{
  String, ◌≡◌, refl, sym, ap, ◌∙◌, true, false, Option, some, List, [], ◌∷◌, ◌++◌, arith, str_eq,
  exists, update,
}
use wallet_ledger_service.Common.Int.{◌+ℤ◌, ◌-ℤ◌}
use wallet_ledger_service.Model.{
  Uuid, Time, Decimal, Wallet, Transaction, LedgerEntry, transaction_type_transfer,
  transaction_status_completed, entry_type_credit, entry_type_debit,
}
use wallet_ledger_service.Failure.{ok}
use wallet_ledger_service.Database.{
  Numeric, TransactionRow, WalletRow, LedgerEntryRow, Database, eq_uuid, store, is_nonneg,
  is_positive,
}
use wallet_ledger_service.Sql.Wallets.{set_balance}
use wallet_ledger_service.Sql.Transactions.{set_status}
use wallet_ledger_service.World.{Env}
use wallet_ledger_service.World.Rules.{
  Effect, Runs, Runs-bind, Runs-wrap, Runs-deref, Runs-read_clock, Runs-pure, Runs-weaken,
}
use wallet_ledger_service.Utils.Ids.Effects.{
  generate_transaction_ref-Stays, generate_ledger_entry_id-Stays,
}
use wallet_ledger_service.Repository.Transactions.{map_transaction, null_if_empty}
use wallet_ledger_service.Repository.Effects.{
  create-CreatesTransaction, create-CreatesEntry, update_balance-SetsBalance,
  update_status-SetsStatus,
}
use wallet_ledger_service.Service.Transactions.Transfer.{create_entry, post_transfer}
use wallet_ledger_service.Service.Transactions.Postings.{
  exists-update, completes-last, Created-row, numeric, IsEntry,
}

module _ (env : Env) where
  abbrev EntersOne : Uuid → String → String → Decimal → Effect LedgerEntry
  EntersOne txn_id wallet_id entry_type amount d entry d' =
      (row : LedgerEntryRow) × (d' ≡ record d { ledger_entries = d.ledger_entries ++ row ∷ [] })
      × IsEntry env txn_id wallet_id entry_type amount row

  create_entry-EntersOne :
      (txn_id : Uuid) (wallet_id entry_type : String) (amount : Decimal)
      → Runs
          (create_entry env txn_id wallet_id entry_type amount)
          (EntersOne txn_id wallet_id entry_type amount)
  unfolding create_entry
  create_entry-EntersOne txn_id wallet_id entry_type amount =
      Runs-weaken
        (Runs-bind (Runs-wrap _ (generate_ledger_entry_id-Stays env)) λ ledger_id.
          Runs-bind (Runs-read_clock env) λ now. create-CreatesEntry env (record {
            id = ledger_id;
            transaction_id = txn_id;
            wallet_id = wallet_id;
            entry_type = entry_type;
            amount = amount;
            created_at = now;
          }))
        (λ d entry d' (ledger_id, d1, e1, (now, d2, e2, (row, c))). (
          row,
          ground (arith, c.after),
          record {
            transaction = c.transaction;
            wallet = c.wallet;
            kind = c.entry_type;
            stored = c.stored;
            positive = c.positive;
          },
        ))

  -- What a transfer leaves of the tables `d`. The source and the target are the wallets as the
  -- locks read them; the balances are as the column keeps them.
  pub record Posted (source target : Wallet) (amount : Decimal) (d : Database) (txn : Transaction)
      (d' : Database) : Type 0 where
    pub row : TransactionRow
    pub debit : LedgerEntryRow
    pub credit : LedgerEntryRow
    pub source_balance : Numeric
    pub target_balance : Numeric
    pub source_time : Time
    pub target_time : Time
    pub txn_id : Uuid
    pub mapped : txn ≡ map_transaction row
    pub row_id : row.id ≡ some txn_id
    pub type : row.type ≡ transaction_type_transfer
    pub source_wallet : row.source_wallet_id ≡ some source.id
    pub target_wallet : row.target_wallet_id ≡ null_if_empty target.id
    pub amount_stored : store env.column (numeric env amount) ≡ ok row.amount
    pub amount_positive : is_positive row.amount ≡ true
    pub fresh : exists (λ (t : TransactionRow). eq_uuid t.id (some txn_id)) d.transactions ≡ false
    pub source_stored :
        store env.column (numeric env (source.balance -ℤ amount)) ≡ ok source_balance
    pub target_stored :
        store env.column (numeric env (target.balance +ℤ amount)) ≡ ok target_balance
    pub source_nonneg : is_nonneg source_balance ≡ true
    pub target_nonneg : is_nonneg target_balance ≡ true
    pub debited : IsEntry env txn_id source.id entry_type_debit amount debit
    pub credited : IsEntry env txn_id target.id entry_type_credit amount credit
    pub users : d'.users ≡ d.users
    pub wallets :
        d'.wallets
        ≡ update
            (λ w. str_eq w.id target.id)
            (set_balance target_balance target_time)
            (update (λ w. str_eq w.id source.id) (set_balance source_balance source_time) d.wallets)
    pub transactions :
        d'.transactions ≡ d.transactions ++ set_status transaction_status_completed row ∷ []
    pub entries : d'.ledger_entries ≡ d.ledger_entries ++ debit ∷ credit ∷ []
    pub audit_logs : d'.audit_logs ≡ d.audit_logs
    pub notifications : d'.notifications ≡ d.notifications

  abbrev HasWallet : String → Database → Type 0
  HasWallet id d = exists (λ (w : WalletRow). str_eq w.id id) d.wallets ≡ true

  -- With both wallets in the tables, a transfer that goes through has posted itself.
  abbrev pub Posts : Wallet → Option Wallet → Decimal → Effect Transaction
  Posts source target amount d txn d' =
      (t : Wallet)
      → target ≡ some t
      → HasWallet source.id d
      → HasWallet t.id d
      → Posted source t amount d txn d'

  -- The tables after the statements, from what each has done.
  tables :
      (d d3 d4 d5 d6 d7 d8 d9 : Database) (row : TransactionRow) (debit credit : LedgerEntryRow)
      (set1 set2 : List WalletRow → List WalletRow)
      (complete : List TransactionRow → List TransactionRow)
      → d3 ≡ d
      → d4 ≡ record d3 { transactions = d3.transactions ++ row ∷ [] }
      → d5 ≡ record d4 { wallets = set1 d4.wallets }
      → d6 ≡ record d5 { wallets = set2 d5.wallets }
      → d7 ≡ record d6 { ledger_entries = d6.ledger_entries ++ debit ∷ [] }
      → d8 ≡ record d7 { ledger_entries = d7.ledger_entries ++ credit ∷ [] }
      → d9 ≡ record d8 { transactions = complete d8.transactions }
      → d9 ≡ record d {
        wallets = set2 (set1 d.wallets);
        transactions = complete (d.transactions ++ row ∷ []);
        ledger_entries = d.ledger_entries ++ debit ∷ credit ∷ [];
      }
  tables d d3 d4 d5 d6 d7 d8 d9 row debit credit set1 set2 complete e3 e4 e5 e6 e7 e8 e9 =
      rw (e9, e8, e7, e6, e5, e4, e3) (simp append_assoc)

  created-HasWallet :
      (id : String) {d d3 d4 : Database} {rows : List TransactionRow}
      → d3 ≡ d
      → d4 ≡ record d3 { transactions = rows }
      → HasWallet id d
      → HasWallet id d4
  created-HasWallet id start after k = rw (after, start) k

  -- A wallet that gets a balance keeps its id.
  balanced-HasWallet :
      (s id : String) (d4 d5 : Database) (b : Numeric) (time : Time)
      → d5 ≡ record d4 {
        wallets = update (λ (w : WalletRow). str_eq w.id s) (set_balance b time) d4.wallets;
      }
      → HasWallet id d4
      → HasWallet id d5
  balanced-HasWallet s id d4 d5 b time after k =
      rw after (exists-update (λ w. str_eq w.id id) _ _ d4.wallets (λ w. refl) ∙ k)

  pub post_transfer-Posts :
      (source : Wallet) (target : Option Wallet) (amount : Decimal)
      → Runs (post_transfer env source target amount) (Posts source target amount)
  unfolding post_transfer map_transaction
  post_transfer-Posts source target amount =
      Runs-weaken
        (Runs-bind (Runs-wrap _ (generate_transaction_ref-Stays env)) λ tx_ref.
          Runs-bind (Runs-deref target) λ t. Runs-bind (Runs-read_clock env) λ now.
            Runs-bind (create-CreatesTransaction env _) λ txn.
              Runs-bind (update_balance-SetsBalance env _ _) λ _.
                Runs-bind (update_balance-SetsBalance env _ _) λ _.
                  Runs-bind (create_entry-EntersOne txn.id _ entry_type_debit amount) λ _.
                    Runs-bind (create_entry-EntersOne txn.id _ entry_type_credit amount)
                      λ _. Runs-bind (update_status-SetsStatus env _ _) λ _. Runs-pure txn)
        (λ d txn d' steps t t_eq ks kt.
          let (ref, d1, e1, (lt, d2, (e2, lt_eq), (now, d3, e3, opened))) = steps in
          let (txn0, d4, (n, row, mapped, c), (u1, d5, b1, (u2, d6, b2, entered))) = opened in
          let (x1, d7, (debit, e7, hd), (x2, d8, (credit, e8, hc), closed)) = entered in
          let (u3, d9, e9, (e10, same)) = closed in
          subst (λ (u : Wallet). HasWallet u.id d → Posted source u amount d txn d')
            (some-injective _ _ (sym lt_eq ∙ t_eq))
            (λ k.
              let start : d3 ≡ d = e3 ∙ e2 ∙ e1 in
              let bs = b1 (created-HasWallet source.id start c.after ks) in
              let bt = b2 (
                balanced-HasWallet source.id lt.id d4 d5 _ _ bs.after
                  (created-HasWallet lt.id start c.after k)) in
              let (row_id, fresh) = Created-row env n txn0 row _ d d3 d4 start mapped c in
              let done =
                e10
                ∙ tables d d3 d4 d5 d6 d7 d8 d9 row debit credit
                    (update (λ w. str_eq w.id source.id) (set_balance bs.kept bs.now))
                    (update (λ w. str_eq w.id lt.id) (set_balance bt.kept bt.now))
                    (update (λ x. eq_uuid x.id (some txn0.id))
                      (set_status transaction_status_completed))
                    start c.after bs.after bt.after e7 e8 e9 in
              record {
                row = row;
                debit = debit;
                credit = credit;
                source_balance = bs.kept;
                target_balance = bt.kept;
                source_time = bs.now;
                target_time = bt.now;
                txn_id = txn0.id;
                mapped = same ∙ mapped;
                row_id = row_id;
                type = c.type;
                source_wallet = c.source;
                target_wallet = c.target;
                amount_stored = c.stored;
                amount_positive = c.positive;
                fresh = fresh;
                source_stored = bs.stored;
                target_stored = bt.stored;
                source_nonneg = bs.nonneg;
                target_nonneg = bt.nonneg;
                debited = hd;
                credited = hc;
                users = ap (λ (x : Database). x.users) done;
                wallets = ap (λ (x : Database). x.wallets) done;
                transactions =
                    ap (λ (x : Database). x.transactions) done
                    ∙ completes-last txn0.id d.transactions row row_id fresh;
                entries = ap (λ (x : Database). x.ledger_entries) done;
                audit_logs = ap (λ (x : Database). x.audit_logs) done;
                notifications = ap (λ (x : Database). x.notifications) done;
              })
            kt)
