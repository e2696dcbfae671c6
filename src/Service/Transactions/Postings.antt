-- ===== src/Service/Transactions/Postings.antt =====
-- What a posted transaction leaves in the tables, and the laws of its parts.
use wallet_ledger_service.Common.{
  ℕ, String, ◌≡◌, refl, sym, ap, ◌∙◌, ==_iff, Bool, true, false, some, List, [], ◌∷◌, ◌++◌, arith,
  first, exists, update,
}
use wallet_ledger_service.Model.{Uuid, Decimal, Transaction, transaction_status_completed}
use wallet_ledger_service.Failure.{ok}
use wallet_ledger_service.World.{Env}
use wallet_ledger_service.Repository.Common.{decimal_to_numeric, valid_or_zero}
use wallet_ledger_service.Repository.Transactions.{map_transaction}
use wallet_ledger_service.Sql.Transactions.{CreateTransactionParams, set_status}
use wallet_ledger_service.Sql.Laws.{Created}
use wallet_ledger_service.Database.{
  Numeric, TransactionRow, LedgerEntryRow, Database, eq_uuid, store, is_positive,
}

module _ {A : Type 0} where
  -- A change that a test does not see leaves what the test finds.
  pub exists-update :
      (p q : A → Bool) (f : A → A) (xs : List A)
      → ((x : A) → p (f x) ≡ p x)
      → exists p (update q f xs) ≡ exists p xs
  exists-update p q f [] h = refl
  exists-update p q f (x ∷ xs) h = ground (arith, h x, exists-update p q f xs h)

  pub exists_of_first :
      (p : A → Bool) (xs : List A) (x : A) → first p xs ≡ some x → exists p xs ≡ true
  exists_of_first p [] x h = cc
  exists_of_first p (y ∷ ys) x h = ground (arith, exists_of_first p ys x)

  pub first_holds : (p : A → Bool) (xs : List A) (x : A) → first p xs ≡ some x → p x ≡ true
  first_holds p [] x h = cc
  first_holds p (y ∷ ys) x h = ground (arith, first_holds p ys x)

  -- Where the test fails on all rows but the last, only the last changes.
  pub update-last :
      (p : A → Bool) (f : A → A) (xs : List A) (y : A)
      → exists p xs ≡ false
      → p y ≡ true
      → update p f (xs ++ y ∷ []) ≡ xs ++ f y ∷ []
  update-last p f [] y h k = rw k
  update-last p f (x ∷ xs) y h k = ground (arith, update-last p f xs y)

module _ (env : Env) where
  abbrev pub numeric : Decimal → Numeric
  numeric x = decimal_to_numeric env.scan x

  -- An entry of one side, of a transaction that has the id.
  pub record IsEntry (txn_id : Uuid) (wallet_id entry_type : String) (amount : Decimal)
      (row : LedgerEntryRow) : Type 0 where
    pub transaction : row.transaction_id ≡ some txn_id
    pub wallet : row.wallet_id ≡ wallet_id
    pub kind : row.entry_type ≡ entry_type
    pub stored : store env.column (numeric amount) ≡ ok row.amount
    pub positive : is_positive row.amount ≡ true

-- The row of a new transaction has its id, which no other row has.
pub Created-row :
    (env : Env) (n : ℕ) (txn : Transaction) (row : TransactionRow) (p : CreateTransactionParams)
    (d d3 d4 : Database)
    → d3 ≡ d
    → txn ≡ map_transaction row
    → Created env.column (env.new_uuid n) (env.now n) p d3 row d4
    → (row.id ≡ some txn.id)
      × (exists (λ (t : TransactionRow). eq_uuid t.id (some txn.id)) d.transactions ≡ false)
unfolding map_transaction
Created-row env n txn row p d d3 d4 start mapped c =
    let id_eq : txn.id ≡ env.new_uuid n =
      ap (λ (t : Transaction). t.id) mapped ∙ ap valid_or_zero c.row_id in
    (c.row_id ∙ ap some (sym id_eq), rw (id_eq, ← start) c.fresh)

-- Marking it as completed changes that row alone.
pub completes-last :
    (id : Uuid) (ts : List TransactionRow) (row : TransactionRow)
    → row.id ≡ some id
    → exists (λ (t : TransactionRow). eq_uuid t.id (some id)) ts ≡ false
    → update
        (λ (t : TransactionRow). eq_uuid t.id (some id))
        (set_status transaction_status_completed)
        (ts ++ row ∷ [])
      ≡ ts ++ set_status transaction_status_completed row ∷ []
completes-last id ts row row_id fresh =
    update-last (λ (t : TransactionRow). eq_uuid t.id (some id))
      (set_status transaction_status_completed) ts row fresh (rw row_id ((==_iff id id).1 refl))
