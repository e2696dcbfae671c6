-- ===== src/Service/Transactions/Transfer/Books.antt =====
-- What a transfer does to the balances and to the ledger.
use mathlib.Core.Path.{subst}
use wallet_ledger_service.Common.{
  String, ◌≡◌, refl, sym, ap, ◌∙◌, Bool-cases, Bool, true, false, inl, inr, str_eq, eq_iff,
  if◌then◌else◌, first,
}
use wallet_ledger_service.Common.Int.{pos, ◌+ℤ◌, ◌-ℤ◌, int_laws, +ℤ-zero, zero-+ℤ}
use wallet_ledger_service.Model.{Uuid, Decimal}
use wallet_ledger_service.Database.{WalletRow, Database}
use wallet_ledger_service.World.{Env, Event}
use wallet_ledger_service.Repository.Effects.{row_at}
use wallet_ledger_service.Dto.Bodies.{TransferRequest, TransferResponse}
use wallet_ledger_service.Service.Transactions.Postings.{exists-update}
use wallet_ledger_service.Service.Transactions.Balances.{
  balance_of, balance_at, signed_amount, ledger_sum, ledger_sum-++, wallet_at-balance,
  first-set_balance, balance_of-set_balance, Exact, IsReconciled, store-Exact,
}
use wallet_ledger_service.Service.Transactions.Transfer.Commit.{Transferred, wallet_at-exists}

str_eq_sym_false : (a b : String) → str_eq a b ≡ false → str_eq b a ≡ false
str_eq_sym_false a b h = elim (Bool-cases (str_eq b a)) [
  | inl here ↦ cc (sym ((eq_iff a b).1 (sym ((eq_iff b a).0 here))) ∙ h)
  | inr there ↦ there
]

-- What a transfer adds to the balance of a wallet.
abbrev pub change : String → String → Decimal → String → Decimal
change source target amount id =
    (if str_eq source id then pos 0 -ℤ amount else pos 0)
    +ℤ (if str_eq target id then amount else pos 0)

module _ (source target : String) (amount : Decimal) (distinct : str_eq source target ≡ false) where
  change-source : change source target amount source ≡ pos 0 -ℤ amount
  change-source =
      rw ((eq_iff source source).1 refl, str_eq_sym_false source target distinct) (+ℤ-zero _)

  change-target : change source target amount target ≡ amount
  change-target = rw (distinct, (eq_iff target target).1 refl) (zero-+ℤ _)

change-other :
    (source target : String) (amount : Decimal) (id : String)
    → str_eq source id ≡ false
    → str_eq target id ≡ false
    → change source target amount id ≡ pos 0
change-other source target amount id h k = rw (h, k) (+ℤ-zero _)

-- The wallet under an id is the source, or the target, or neither.
by_wallet :
    (P : String → Type 0) (source target id : String)
    → P source
    → P target
    → (str_eq source id ≡ false → str_eq target id ≡ false → P id)
    → P id
by_wallet P source target id ps pt po = elim (Bool-cases (str_eq source id)) [
  | inl is_source ↦ subst P ((eq_iff _ _).0 is_source) ps
  | inr not_source ↦ elim (Bool-cases (str_eq target id)) [
    | inl is_target ↦ subst P ((eq_iff _ _).0 is_target) pt
    | inr not_target ↦ po not_source not_target
  ]
]

module _ {env : Env} {user_id : Uuid} {req : TransferRequest} {start d d' : Database}
    {a : TransferResponse} {e : Event} (t : Transferred env user_id req start d a e d') where
  -- A wallet that is neither the source nor the target keeps its row.
  pub row_at-other :
      (id : String)
      → str_eq t.source.id id ≡ false
      → str_eq t.target.id id ≡ false
      → row_at id d' ≡ row_at id d
  row_at-other id hs ht =
      ap (first (λ (w : WalletRow). str_eq w.id id)) t.posted.wallets
      ∙ first-set_balance id t.target.id _ _ _ ht
      ∙ first-set_balance id t.source.id _ _ d.wallets hs

  module _ (x : Exact env) where
    pub balance_at-source :
        x.IsCents (t.source.balance -ℤ req.amount)
        → balance_at t.source.id d' ≡ t.source.balance -ℤ req.amount
    balance_at-source c =
        ap (λ ws. balance_of (first (λ (w : WalletRow). str_eq w.id t.source.id) ws))
          t.posted.wallets
        ∙ ap balance_of (
            first-set_balance t.source.id t.target.id _ _ _
              (str_eq_sym_false t.source.id t.target.id t.distinct))
        ∙ balance_of-set_balance t.source.id _ _ d.wallets
            (wallet_at-exists t.source.id d t.source t.source_locked)
        ∙ store-Exact x _ _ c t.posted.source_stored

    balance_at-target :
        x.IsCents (t.target.balance +ℤ req.amount)
        → balance_at t.target.id d' ≡ t.target.balance +ℤ req.amount
    balance_at-target c =
        ap (λ ws. balance_of (first (λ (w : WalletRow). str_eq w.id t.target.id) ws))
          t.posted.wallets
        ∙ balance_of-set_balance t.target.id _ _ _ (
            exists-update (λ w. str_eq w.id t.target.id) _ _ d.wallets (λ w. refl)
            ∙ wallet_at-exists t.target.id d t.target t.target_locked)
        ∙ store-Exact x _ _ c t.posted.target_stored

    signed-debit : x.IsCents req.amount → signed_amount t.posted.debit ≡ pos 0 -ℤ req.amount
    signed-debit c = rw (t.posted.debited.kind, store-Exact x _ _ c t.posted.debited.stored) refl

    signed-credit : x.IsCents req.amount → signed_amount t.posted.credit ≡ req.amount
    signed-credit c = rw (t.posted.credited.kind, store-Exact x _ _ c t.posted.credited.stored) refl

    -- The ledger moves by what the two entries say.
    ledger_sum-change :
        x.IsCents req.amount
        → (id : String)
        → ledger_sum id d'.ledger_entries
          ≡ ledger_sum id d.ledger_entries +ℤ change t.source.id t.target.id req.amount id
    ledger_sum-change c id =
        ap (ledger_sum id) t.posted.entries
        ∙ ledger_sum-++ id d.ledger_entries _
        ∙ rw
            (
              t.posted.debited.wallet,
              t.posted.credited.wallet,
              signed-debit c,
              signed-credit c,
              +ℤ-zero,
            )
            refl

    -- The balances move by what was asked.
    balance_at-change :
        x.IsCents req.amount
        → ((id : String) → x.IsCents (balance_at id d))
        → (id : String)
        → balance_at id d' ≡ balance_at id d +ℤ change t.source.id t.target.id req.amount id
    balance_at-change c cs id =
        let source_is = wallet_at-balance t.source.id d t.source t.source_locked in
        let target_is = wallet_at-balance t.target.id d t.target t.target_locked in
        let add = change t.source.id t.target.id req.amount in
        by_wallet (λ i. balance_at i d' ≡ balance_at i d +ℤ add i) t.source.id t.target.id id
          (balance_at-source (x.minus _ _ (subst x.IsCents source_is (cs t.source.id)) c)
            ∙ rw (source_is, change-source t.source.id t.target.id req.amount t.distinct)
                (omega int_laws))
          (balance_at-target (x.plus _ _ (subst x.IsCents target_is (cs t.target.id)) c)
            ∙ rw (target_is, change-target t.source.id t.target.id req.amount t.distinct) refl)
          (λ hs ht.
            ap balance_of (row_at-other id hs ht)
            ∙ rw (change-other t.source.id t.target.id req.amount id hs ht) (sym (+ℤ-zero _)))

    cents_if : (b : Bool) (n : Decimal) → x.IsCents n → x.IsCents (if b then n else pos 0)
    cents_if true n c = c
    cents_if false n c = x.zero

    cents-change :
        x.IsCents req.amount
        → (id : String) → x.IsCents (change t.source.id t.target.id req.amount id)
    cents-change c id =
        x.plus _ _ (cents_if (str_eq t.source.id id) _ (x.minus _ _ x.zero c))
          (cents_if (str_eq t.target.id id) _ c)

    pub Transferred-IsReconciled : x.IsCents req.amount → IsReconciled x d → IsReconciled x d'
    Transferred-IsReconciled c r = record {
      balance = λ id.
          balance_at-change c r.cents id
          ∙ ap (λ b. b +ℤ change t.source.id t.target.id req.amount id) (r.balance id)
          ∙ sym (ledger_sum-change c id);
      cents = λ id.
          subst x.IsCents (sym (balance_at-change c r.cents id))
            (x.plus _ _ (r.cents id) (cents-change c id));
    }
