-- ===== src/Service/Transactions/Access.antt =====
-- Who sees a transaction, and which page a list answers with.
use mathlib.Core.Path.{subst}
use wallet_ledger_service.Common.{
  String, ◌≡◌, sym, ap, ◌∙◌, ◌⊎◌, inl, inr, Bool, Bool-cases, if◌then◌else◌, true, false, not,
  Option, none, some, map, str_eq, eq_iff, true_of_not,
}
use wallet_ledger_service.Model.{Uuid, Wallet, Transaction}
use wallet_ledger_service.Failure.{ok, wallet_not_found, transaction_not_found, unauthorized}
use wallet_ledger_service.Database.{Database}
use wallet_ledger_service.World.{Env, World}
use wallet_ledger_service.World.Reading.{
  Reads, Reads-or_raise, Reads-raise_if, Reads-weaken, Reads-wrap, ok_injective,
}
use wallet_ledger_service.Repository.Transactions
use wallet_ledger_service.Repository.Transactions.{map_transaction}
use wallet_ledger_service.Repository.LedgerEntries
use wallet_ledger_service.Repository.LedgerEntries.{map_ledger_entry}
use wallet_ledger_service.Repository.Effects.{
  wallet_of, Found, find_by_user_id-Reads, find_row-Reads,
}
use wallet_ledger_service.Repository.Reads.{Reads-bind, Reads-pure, Reads-query}
use wallet_ledger_service.Sql.Transactions.{find_transaction_by_id}
use wallet_ledger_service.Sql.LedgerEntries.{find_ledger_entries_by_transaction_id}
use wallet_ledger_service.Dto.Bodies.{TransactionDetailResponse}
use wallet_ledger_service.Service.Transactions.Queries.{
  transaction_response, ledger_entry_response, is_authorized, get_transaction_detail,
}

source_part :
    (source : Option String) (id : String) (is_target : Bool)
    → is_target ≡ false
    → not (if is_target then true else elim source [ none ↦ false | some s ↦ str_eq s id ]) ≡ false
    → source ≡ some id
source_part source id true k h = cc
source_part none id false k h = cc
source_part (some s) id false k h = ap some ((eq_iff s id).0 (true_of_not (str_eq s id) h))

-- The wallet is the transaction's target or its source.
authorized_parts :
    (t : Transaction) (w : Wallet)
    → not (is_authorized t w) ≡ false
    → (t.target_wallet_id ≡ w.id) ⊎ (t.source_wallet_id ≡ some w.id)
unfolding is_authorized
authorized_parts t w h = elim (Bool-cases (str_eq t.target_wallet_id w.id)) [
  | inl target ↦ inl ((eq_iff _ _).0 target)
  | inr other ↦ inr (source_part t.source_wallet_id w.id (str_eq t.target_wallet_id w.id) other h)
]

module _ (env : Env) where
  -- The answer is of a stored transaction that the user's wallet takes part in.
  pub record Detailed (user_id transaction_id : Uuid) (d : Database) (r : TransactionDetailResponse)
      : Type 0 where
    pub wallet : Wallet
    pub txn : Transaction
    pub owned : wallet_of user_id d ≡ some wallet
    pub stored : Found map_transaction (find_transaction_by_id (some transaction_id) d) (some txn)
    pub party : (txn.target_wallet_id ≡ wallet.id) ⊎ (txn.source_wallet_id ≡ some wallet.id)
    pub answer : r.transaction ≡ transaction_response txn
    pub entries :
        r.ledger_entries
        ≡ map ledger_entry_response
            (map map_ledger_entry (find_ledger_entries_by_transaction_id (some txn.id) d))

  find_by_transaction_id-Reads :
      (id : Uuid)
      → Reads
          (LedgerEntries.find_by_transaction_id env id)
          (λ d es. es ≡ map map_ledger_entry (find_ledger_entries_by_transaction_id (some id) d))
  unfolding LedgerEntries.find_by_transaction_id
  find_by_transaction_id-Reads id =
      Reads-weaken
        (Reads-bind (Reads-wrap _ (Reads-query env _))
          λ rows. Reads-pure (map map_ledger_entry rows))
        (λ d es (rows, h, same). same ∙ ap (map map_ledger_entry) (ok_injective _ _ (sym h)))

  find_transaction-Reads :
      (id : Uuid)
      → Reads
          (Transactions.find_by_id env id)
          (λ d o. Found map_transaction (find_transaction_by_id (some id) d) o)
  unfolding Transactions.find_by_id
  find_transaction-Reads id =
      find_row-Reads env _ map_transaction (find_transaction_by_id (some id))

  pub get_transaction_detail-Detailed :
      (user_id transaction_id : Uuid)
      → Reads (get_transaction_detail env user_id transaction_id) (Detailed user_id transaction_id)
  unfolding get_transaction_detail
  get_transaction_detail-Detailed user_id transaction_id =
      Reads-weaken
        (Reads-bind (find_by_user_id-Reads env user_id) λ found.
          Reads-bind (Reads-or_raise found wallet_not_found) λ wallet.
            Reads-bind (find_transaction-Reads transaction_id) λ found_txn.
              Reads-bind (Reads-or_raise found_txn transaction_not_found) λ txn.
                Reads-bind (Reads-raise_if (not (is_authorized txn wallet)) unauthorized)
                  λ _. Reads-bind (find_by_transaction_id-Reads txn.id) λ entries. Reads-pure _)
        (λ d r (found, h1, (wallet, h2, (found_txn, h3, (txn, h4, (u, h5, (entries, h6, h7)))))).
          record {
            wallet = wallet;
            txn = txn;
            owned = sym h1 ∙ h2;
            stored = subst (λ o. Found map_transaction _ o) h4 h3;
            party = authorized_parts txn wallet h5;
            answer = ap (λ (x : TransactionDetailResponse). x.transaction) h7;
            entries =
                ap (λ (x : TransactionDetailResponse). x.ledger_entries) h7
                ∙ ap (map ledger_entry_response) h6;
          })

  -- A detail that is answered is of the stored transaction with the id, with its ledger entries,
  -- and the wallet that the tables hold for the asking user is its source or its target. Asking
  -- changes no table and hands on no event.
  pub get_transaction_detail-authorized :
      (user_id transaction_id : Uuid) (w : World) (r : TransactionDetailResponse)
      → (get_transaction_detail env user_id transaction_id w).0 ≡ ok r
      → Detailed user_id transaction_id w.db r
        × ((get_transaction_detail env user_id transaction_id w).1.db ≡ w.db)
        × ((get_transaction_detail env user_id transaction_id w).1.events ≡ w.events)
  get_transaction_detail-authorized user_id transaction_id w r h =
      let k = get_transaction_detail-Detailed user_id transaction_id in
      (k.finds w r h, k.db_same w, k.events_same w)
