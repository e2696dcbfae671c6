-- ===== src/Service/Transactions/TopUp/Posting.antt =====
-- The statements of a top up, taken together.
use wallet_ledger_service.Common.{
  String, ◌≡◌, refl, ◌∙◌, true, false, some, none, [], ◌∷◌, ◌++◌, str_eq, exists, update,
}
use wallet_ledger_service.Common.Int.{◌+ℤ◌}
use wallet_ledger_service.Model.{
  Uuid, Time, Decimal, Wallet, Transaction, transaction_type_top_up, transaction_status_completed,
  entry_type_credit,
}
use wallet_ledger_service.Failure.{ok}
use wallet_ledger_service.Database.{
  Numeric, TransactionRow, WalletRow, LedgerEntryRow, Database, eq_uuid, store, is_nonneg,
  is_positive,
}
use wallet_ledger_service.Sql.Wallets.{set_balance}
use wallet_ledger_service.Sql.Transactions.{set_status}
use wallet_ledger_service.World.{Env}
use wallet_ledger_service.World.Rules.{
  Effect, Runs, Runs-bind, Runs-wrap, Runs-read_clock, Runs-pure, Runs-weaken,
}
use wallet_ledger_service.Utils.Ids.Effects.{
  generate_transaction_ref-Stays, generate_ledger_entry_id-Stays,
}
use wallet_ledger_service.Repository.Transactions.{map_transaction, null_if_empty}
use wallet_ledger_service.Repository.Effects.{
  create-CreatesTransaction, create-CreatesEntry, update_balance-SetsBalance,
  update_status-SetsStatus,
}
use wallet_ledger_service.Service.Transactions.TopUp.{post_top_up}
use wallet_ledger_service.Service.Transactions.Postings.{
  completes-last, Created-row, numeric, IsEntry,
}

module _ (env : Env) where
  -- What a top up leaves of the tables `d`, with the balance as the lock read it.
  pub record ToppedUp (id : String) (balance amount : Decimal) (d : Database) (txn : Transaction)
      (d' : Database) : Type 0 where
    pub row : TransactionRow
    pub credit : LedgerEntryRow
    pub new_balance : Numeric
    pub time : Time
    pub txn_id : Uuid
    pub mapped : txn ≡ map_transaction row
    pub row_id : row.id ≡ some txn_id
    pub type : row.type ≡ transaction_type_top_up
    pub source_wallet : row.source_wallet_id ≡ none
    pub target_wallet : row.target_wallet_id ≡ null_if_empty id
    pub amount_stored : store env.column (numeric env amount) ≡ ok row.amount
    pub amount_positive : is_positive row.amount ≡ true
    pub fresh : exists (λ (t : TransactionRow). eq_uuid t.id (some txn_id)) d.transactions ≡ false
    pub stored : store env.column (numeric env (balance +ℤ amount)) ≡ ok new_balance
    pub nonneg : is_nonneg new_balance ≡ true
    pub credited : IsEntry env txn_id id entry_type_credit amount credit
    pub after : d' ≡ record d {
      wallets = update (λ w. str_eq w.id id) (set_balance new_balance time) d.wallets;
      transactions = d.transactions ++ set_status transaction_status_completed row ∷ [];
      ledger_entries = d.ledger_entries ++ credit ∷ [];
    }

  -- With the wallet in the tables, a top up that goes through has posted itself.
  abbrev pub TopsUp : String → Decimal → Decimal → Effect Transaction
  TopsUp id balance amount d txn d' =
      exists (λ (w : WalletRow). str_eq w.id id) d.wallets ≡ true
      → ToppedUp id balance amount d txn d'

  pub post_top_up-TopsUp :
      (wallet locked : Wallet) (amount : Decimal)
      → Runs (post_top_up env wallet locked amount) (TopsUp wallet.id locked.balance amount)
  unfolding post_top_up map_transaction
  post_top_up-TopsUp wallet locked amount =
      Runs-weaken
        (Runs-bind (Runs-wrap _ (generate_transaction_ref-Stays env)) λ tx_ref.
          Runs-bind (Runs-read_clock env) λ now. Runs-bind (create-CreatesTransaction env _) λ txn.
            Runs-bind (update_balance-SetsBalance env _ _) λ _.
              Runs-bind (Runs-wrap _ (generate_ledger_entry_id-Stays env)) λ ledger_id.
                Runs-bind (Runs-read_clock env) λ time.
                  Runs-bind (create-CreatesEntry env _)
                    λ _. Runs-bind (update_status-SetsStatus env txn.id _) λ _. Runs-pure txn)
        (λ d txn d' steps known.
          let (ref, d1, e1, (now, d2, e2, (txn0, d3, (n, row, mapped, c), updated))) = steps in
          let (u1, d4, b, (lid, d5, e5, (time, d6, e6, entered))) = updated in
          let (x, d7, (credit, k), (u2, d8, e8, (e9, same))) = entered in
          let start : d2 ≡ d = e2 ∙ e1 in
          let bs = b (rw (c.after, start) known) in
          let (row_id, fresh) = Created-row env n txn0 row _ d d2 d3 start mapped c in
          let completed = completes-last txn0.id d.transactions row row_id fresh in
          record {
            row = row;
            credit = credit;
            new_balance = bs.kept;
            time = bs.now;
            txn_id = txn0.id;
            mapped = same ∙ mapped;
            row_id = row_id;
            type = c.type;
            source_wallet = c.source;
            target_wallet = c.target;
            amount_stored = c.stored;
            amount_positive = c.positive;
            fresh = fresh;
            stored = bs.stored;
            nonneg = bs.nonneg;
            credited = record {
              transaction = k.transaction;
              wallet = k.wallet;
              kind = k.entry_type;
              stored = k.stored;
              positive = k.positive;
            };
            after = rw (e9, e8, k.after, e6, e5, bs.after, c.after, start) (rw completed refl);
          })
