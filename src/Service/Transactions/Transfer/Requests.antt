-- ===== src/Service/Transactions/Transfer/Requests.antt =====
-- What a transfer guarantees, however its calls go and whatever other sessions do before it locks.
use mathlib.Core.Path.{subst}
use wallet_ledger_service.Common.{
  ℕ, String, ◌≡◌, refl, sym, ap, ◌∙◌, true, false, ◌⊎◌, inl, inr, str_eq,
}
use wallet_ledger_service.Common.Int.{◌+ℤ◌, moved_total}
use wallet_ledger_service.Model.{Uuid}
use wallet_ledger_service.Failure.{ok}
use wallet_ledger_service.Database.{Database}
use wallet_ledger_service.World.{Env, World, Event}
use wallet_ledger_service.World.Commits.{Requested, Requests-keeps, Requests-ok}
use wallet_ledger_service.Dto.Bodies.{TransferRequest, TransferResponse}
use wallet_ledger_service.Repository.Effects.{row_at}
use wallet_ledger_service.Service.Transactions.Postings.{exists-update}
use wallet_ledger_service.Service.Transactions.Balances.{
  balance_of, balance_at, first-set_balance, wallet_at-balance, Exact, IsReconciled, store-Exact,
}
use wallet_ledger_service.Service.Transactions.Totals.{
  total, distinct_ids, distinct_ids-set, total-set, set, all_nonneg, all_nonneg-set,
}
use wallet_ledger_service.Service.Transactions.Transfer.{transfer}
use wallet_ledger_service.Service.Transactions.Transfer.Commit.{
  Transferred, transfer-Requests, wallet_at-exists,
}
use wallet_ledger_service.Service.Transactions.Transfer.Books.{
  row_at-other, balance_at-source, Transferred-IsReconciled,
}

module _ {env : Env} {user_id : Uuid} {req : TransferRequest} {start d d' : Database}
    {a : TransferResponse} {e : Event} (t : Transferred env user_id req start d a e d') where
  all_nonneg-Transferred : all_nonneg d.wallets ≡ true → all_nonneg d'.wallets ≡ true
  all_nonneg-Transferred h =
      ap all_nonneg t.posted.wallets
      ∙ all_nonneg-set t.target.id _ _ _ t.posted.target_nonneg
          (all_nonneg-set t.source.id _ _ d.wallets t.posted.source_nonneg h)

  total-Transferred :
      (x : Exact env)
      → x.IsCents req.amount
      → ((id : String) → x.IsCents (balance_at id d))
      → distinct_ids d.wallets ≡ true
      → total d'.wallets ≡ total d.wallets
  total-Transferred x c cs u =
      let p = t.posted in
      let ws = set t.source.id p.source_balance p.source_time d.wallets in
      let source_is = wallet_at-balance t.source.id d t.source t.source_locked in
      let target_is = wallet_at-balance t.target.id d t.target t.target_locked in
      let source_kept =
        store-Exact x _ _ (x.minus _ _ (subst x.IsCents source_is (cs t.source.id)) c)
          p.source_stored in
      let target_kept =
        store-Exact x _ _ (x.plus _ _ (subst x.IsCents target_is (cs t.target.id)) c)
          p.target_stored in
      let first_step =
        total-set t.source.id p.source_balance p.source_time d.wallets u
          (wallet_at-exists t.source.id d t.source t.source_locked) in
      let second_step =
        total-set t.target.id p.target_balance p.target_time ws
          (distinct_ids-set t.source.id p.source_balance p.source_time d.wallets ∙ u)
          (exists-update (λ w. str_eq w.id t.target.id) _ _ d.wallets (λ w. refl)
            ∙ wallet_at-exists t.target.id d t.target t.target_locked) in
      let before =
        ap balance_of (
          first-set_balance t.target.id t.source.id p.source_balance p.source_time d.wallets
            t.distinct)
        ∙ target_is in
      ap total p.wallets
      ∙ moved_total _ _ _ t.source.balance t.target.balance req.amount
          (ap (λ b. total ws +ℤ b) (sym source_is)
            ∙ first_step
            ∙ ap (λ b. total d.wallets +ℤ b) source_kept)
          (ap (λ b. total (set t.target.id p.target_balance p.target_time ws) +ℤ b) (sym before)
            ∙ second_step
            ∙ ap (λ b. total ws +ℤ b) target_kept)

module _ (env : Env) (user_id : Uuid) (req : TransferRequest) (w : World) where
  -- A transfer ends in one of three ways, whichever calls fail and whatever other sessions do
  -- before its transaction begins. It errs, hands on no event, and leaves the tables as it found
  -- them or as the other sessions left them. Or it has done what `Transferred` says, answers it
  -- and hands its one event to the publishing goroutine. Or it has done that, the reply to COMMIT
  -- is lost, and it ends in a fault and hands on no event.
  pub transfer-Requested :
      Requested env (Transferred env user_id req) w (transfer env user_id req w)
  transfer-Requested = (transfer-Requests env user_id req).requested w

  -- Where the tables keep whole cents as they are, the amount is in whole cents, and the tables
  -- that the transfer may meet are reconciled (each wallet's balance is in whole cents, and is its
  -- credits less its debits), they are reconciled after it too.
  pub transfer-IsReconciled :
      (x : Exact env)
      → x.IsCents req.amount
      → IsReconciled x w.db
      → ((n : ℕ) → IsReconciled x (env.others n w.db))
      → IsReconciled x (transfer env user_id req w).1.db
  transfer-IsReconciled x c here there =
      Requests-keeps (IsReconciled x) (transfer-Requests env user_id req)
        (λ start d a e d' t r. Transferred-IsReconciled t x c r) w here there

  -- Where no wallet that a transfer may meet has a balance below zero, none has after it, however
  -- the columns round.
  pub transfer-all_nonneg :
      all_nonneg w.db.wallets ≡ true
      → ((n : ℕ) → all_nonneg (env.others n w.db).wallets ≡ true)
      → all_nonneg (transfer env user_id req w).1.db.wallets ≡ true
  transfer-all_nonneg here there =
      Requests-keeps (λ d. all_nonneg d.wallets ≡ true) (transfer-Requests env user_id req)
        (λ start d a e d' t h. all_nonneg-Transferred t h) w here there

  -- A transfer that answers leaves the row of every wallet but the two that its answer names as it
  -- was when its transaction began.
  pub transfer-untouched :
      (a : TransferResponse) (id : String)
      → (transfer env user_id req w).0 ≡ ok a
      → str_eq a.source_wallet_id id ≡ false
      → str_eq a.target_wallet_id id ≡ false
      → (n : ℕ) × (row_at id (transfer env user_id req w).1.db ≡ row_at id (env.others n w.db))
  transfer-untouched a id h hs ht =
      let (n, e, t, q) = Requests-ok (transfer-Requests env user_id req) w a h in
      (
        n,
        row_at-other t id
            (subst (λ (b : TransferResponse). str_eq b.source_wallet_id id ≡ false) t.answer hs)
            (subst (λ (b : TransferResponse). str_eq b.target_wallet_id id ≡ false) t.answer ht),
      )

  -- Where the tables keep whole cents as they are, and the amount and the balances are in whole
  -- cents, the `balance_after` that a transfer answers is the balance that the source wallet then
  -- has in the tables.
  pub transfer-balance_after :
      (x : Exact env) (a : TransferResponse)
      → x.IsCents req.amount
      → ((n : ℕ) (id : String) → x.IsCents (balance_at id (env.others n w.db)))
      → (transfer env user_id req w).0 ≡ ok a
      → balance_at a.source_wallet_id (transfer env user_id req w).1.db ≡ a.balance_after
  transfer-balance_after x a c cs h =
      let (n, e, t, q) = Requests-ok (transfer-Requests env user_id req) w a h in
      subst
        (λ (b : TransferResponse).
          balance_at b.source_wallet_id (transfer env user_id req w).1.db ≡ b.balance_after)
        (sym t.answer)
        (balance_at-source t x (
          x.minus _ _
            (subst x.IsCents
              (wallet_at-balance t.source.id (env.others n w.db) t.source t.source_locked)
              (cs n t.source.id))
            c))

  -- Where the tables keep whole cents as they are, the amount and the balances are in whole cents,
  -- and no two wallets that the transfer meets have an id in common, all wallets together hold as
  -- much after a transfer as before it, or as they held when its transaction began.
  pub transfer-total :
      (x : Exact env)
      → x.IsCents req.amount
      → ((n : ℕ) (id : String) → x.IsCents (balance_at id (env.others n w.db)))
      → ((n : ℕ) → distinct_ids (env.others n w.db).wallets ≡ true)
      → (total (transfer env user_id req w).1.db.wallets ≡ total w.db.wallets)
        ⊎ ((n : ℕ) × (total (transfer env user_id req w).1.db.wallets
              ≡ total (env.others n w.db).wallets))
  transfer-total x c cs us = elim transfer-Requested [
    | inl (bad, inl same, q) ↦ inl (ap (λ (d : Database). total d.wallets) same)
    | inl (bad, inr (n, same), q) ↦ inr (n, ap (λ (d : Database). total d.wallets) same)
    | inr (n, a, e, t, ans) ↦ inr (n, total-Transferred t x c (cs n) (us n))
  ]
