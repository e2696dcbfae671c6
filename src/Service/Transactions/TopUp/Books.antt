-- ===== src/Service/Transactions/TopUp/Books.antt =====
-- What a top up does to the balances, to the ledger and to the money in all wallets.
use mathlib.Core.Path.{subst}
use wallet_ledger_service.Common.{
  String, ◌≡◌, refl, sym, ap, ◌∙◌, Bool-cases, true, inl, inr, str_eq, eq_iff, if◌then◌else◌, first,
  update,
}
use wallet_ledger_service.Common.Int.{pos, ◌+ℤ◌, +ℤ-zero, add_cancel}
use wallet_ledger_service.Model.{Uuid, Decimal}
use wallet_ledger_service.Database.{WalletRow, Database}
use wallet_ledger_service.Sql.Wallets.{set_balance}
use wallet_ledger_service.Repository.Common.{numeric_to_decimal}
use wallet_ledger_service.World.{Env, Event}
use wallet_ledger_service.Dto.Bodies.{TopUpRequest, TopUpResponse}
use wallet_ledger_service.Service.Transactions.Balances.{
  balance_of, balance_at, ledger_sum, ledger_sum-++, wallet_at-balance, first-set_balance,
  balance_of-set_balance, Exact, IsReconciled, store-Exact,
}
use wallet_ledger_service.Service.Transactions.Totals.{
  total, distinct_ids, total-set, set, all_nonneg, all_nonneg-set,
}
use wallet_ledger_service.Service.Transactions.TopUp.Commit.{Credited}
use wallet_ledger_service.Service.Transactions.Transfer.Commit.{wallet_at-exists}

module _ {env : Env} {user_id : Uuid} {req : TopUpRequest} {start d d' : Database}
    {a : TopUpResponse} {e : Event} (t : Credited env user_id req start d a e d') where
  wallets_after :
      d'.wallets
      ≡ update
          (λ (w : WalletRow). str_eq w.id t.wallet.id)
          (set_balance t.posted.new_balance t.posted.time)
          d.wallets
  wallets_after = ap (λ (x : Database). x.wallets) t.posted.after

  pub all_nonneg-Credited : all_nonneg d.wallets ≡ true → all_nonneg d'.wallets ≡ true
  all_nonneg-Credited h =
      ap all_nonneg wallets_after ∙ all_nonneg-set t.wallet.id _ _ d.wallets t.posted.nonneg h

  module _ (x : Exact env) (c : x.IsCents req.amount)
      (cs : (id : String) → x.IsCents (balance_at id d)) where
    locked_is : balance_at t.wallet.id d ≡ t.locked.balance
    locked_is = wallet_at-balance t.wallet.id d t.locked t.found

    stored_is : numeric_to_decimal t.posted.new_balance ≡ t.locked.balance +ℤ req.amount
    stored_is =
        store-Exact x _ _ (x.plus _ _ (subst x.IsCents locked_is (cs t.wallet.id)) c)
          t.posted.stored

    -- The balance that the answer names is the one that is stored.
    balance_at-wallet : balance_at t.wallet.id d' ≡ t.locked.balance +ℤ req.amount
    balance_at-wallet =
        ap (λ ws. balance_of (first (λ (w : WalletRow). str_eq w.id t.wallet.id) ws)) wallets_after
        ∙ balance_of-set_balance t.wallet.id _ _ d.wallets
            (wallet_at-exists t.wallet.id d t.locked t.found)
        ∙ stored_is

    added : String → Decimal
    added id = if str_eq t.wallet.id id then req.amount else pos 0

    balance_at-added : (id : String) → balance_at id d' ≡ balance_at id d +ℤ added id
    unfolding added
    balance_at-added id = elim (Bool-cases (str_eq t.wallet.id id)) [
      | inl here ↦
          subst (λ i. balance_at i d' ≡ balance_at i d +ℤ added i) ((eq_iff _ _).0 here)
            (balance_at-wallet ∙ rw (locked_is, (eq_iff t.wallet.id t.wallet.id).1 refl) refl)
      | inr there ↦
          ap (λ ws. balance_of (first (λ (w : WalletRow). str_eq w.id id) ws)) wallets_after
          ∙ ap balance_of (first-set_balance id t.wallet.id _ _ d.wallets there)
          ∙ rw there (sym (+ℤ-zero _))
    ]

    ledger_sum-added :
        (id : String) → ledger_sum id d'.ledger_entries ≡ ledger_sum id d.ledger_entries +ℤ added id
    unfolding added
    ledger_sum-added id =
        ap (λ (y : Database). ledger_sum id y.ledger_entries) t.posted.after
        ∙ ledger_sum-++ id d.ledger_entries _
        ∙ rw
            (
              t.posted.credited.wallet,
              t.posted.credited.kind,
              store-Exact x _ _ c t.posted.credited.stored,
              +ℤ-zero,
            )
            refl

    cents-added : (id : String) → x.IsCents (added id)
    unfolding added
    cents-added id = elim (Bool-cases (str_eq t.wallet.id id)) [
      | inl here ↦ rw here c
      | inr there ↦ rw there x.zero
    ]

    pub total-Credited :
        distinct_ids d.wallets ≡ true → total d'.wallets ≡ total d.wallets +ℤ req.amount
    total-Credited u =
        ap total wallets_after
        ∙ add_cancel _ _ t.locked.balance req.amount (
            ap (λ y. total (set t.wallet.id t.posted.new_balance t.posted.time d.wallets) +ℤ y)
              (sym locked_is)
            ∙ total-set t.wallet.id _ t.posted.time d.wallets u
                (wallet_at-exists t.wallet.id d t.locked t.found)
            ∙ ap (λ y. total d.wallets +ℤ y) stored_is)

  pub Credited-IsReconciled :
      (x : Exact env) → x.IsCents req.amount → IsReconciled x d → IsReconciled x d'
  Credited-IsReconciled x c r = record {
    balance = λ id.
        balance_at-added x c r.cents id
        ∙ ap (λ b. b +ℤ added x c r.cents id) (r.balance id)
        ∙ sym (ledger_sum-added x c r.cents id);
    cents = λ id.
        subst x.IsCents (sym (balance_at-added x c r.cents id))
          (x.plus _ _ (r.cents id) (cents-added x c r.cents id));
  }
