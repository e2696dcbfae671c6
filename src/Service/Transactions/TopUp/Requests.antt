-- ===== src/Service/Transactions/TopUp/Requests.antt =====
-- What a top up guarantees, however its calls go and whatever other sessions do before it locks.
use wallet_ledger_service.Common.{ℕ, String, ◌≡◌, ap, true, ◌⊎◌, inl, inr}
use wallet_ledger_service.Common.Int.{◌+ℤ◌}
use wallet_ledger_service.Model.{Uuid, Decimal}
use wallet_ledger_service.Failure.{Result, ok}
use wallet_ledger_service.Database.{Database}
use wallet_ledger_service.World.{Env, World}
use wallet_ledger_service.World.Commits.{Requested, Requests-keeps, IsErr, IsFault}
use wallet_ledger_service.Dto.Bodies.{TopUpRequest, TopUpResponse}
use wallet_ledger_service.Service.Transactions.Balances.{balance_at, Exact, IsReconciled}
use wallet_ledger_service.Service.Transactions.Totals.{total, distinct_ids, all_nonneg}
use wallet_ledger_service.Service.Transactions.TopUp.{top_up}
use wallet_ledger_service.Service.Transactions.TopUp.Commit.{Credited, top_up-Requests}
use wallet_ledger_service.Service.Transactions.TopUp.Books.{
  all_nonneg-Credited, total-Credited, Credited-IsReconciled,
}

-- What all wallets together hold as a top up ends: with an answer, in a fault after COMMIT, or with
-- an error and nothing done.
abbrev pub Grown : Env → World → Decimal → Result TopUpResponse × World → Type 0
Grown env w amount (r, w') =
    ((a : TopUpResponse) × (r ≡ ok a)
      × ((n : ℕ) × (total w'.db.wallets ≡ total (env.others n w.db).wallets +ℤ amount)))
    ⊎ ((IsFault r × ((n : ℕ) × (total w'.db.wallets ≡ total (env.others n w.db).wallets +ℤ amount)))
        ⊎ (IsErr r
            × ((total w'.db.wallets ≡ total w.db.wallets)
                ⊎ ((n : ℕ) × (total w'.db.wallets ≡ total (env.others n w.db).wallets)))))

module _ (env : Env) (user_id : Uuid) (req : TopUpRequest) (w : World) where
  -- A top up ends in one of three ways, whichever calls fail and whatever other sessions do before
  -- its transaction begins. It errs, hands on no event, and leaves the tables as it found them or
  -- as the other sessions left them. Or it has done what `Credited` says, answers it and hands its
  -- one event to the publishing goroutine. Or it has done that, the reply to COMMIT is lost, and
  -- it ends in a fault and hands on no event.
  pub top_up-Requested : Requested env (Credited env user_id req) w (top_up env user_id req w)
  top_up-Requested = (top_up-Requests env user_id req).requested w

  -- Where the tables keep whole cents as they are, the amount is in whole cents, and the tables
  -- that the top up may meet are reconciled, they are reconciled after it too.
  pub top_up-IsReconciled :
      (x : Exact env)
      → x.IsCents req.amount
      → IsReconciled x w.db
      → ((n : ℕ) → IsReconciled x (env.others n w.db))
      → IsReconciled x (top_up env user_id req w).1.db
  top_up-IsReconciled x c here there =
      Requests-keeps (IsReconciled x) (top_up-Requests env user_id req)
        (λ start d a e d' t r. Credited-IsReconciled t x c r) w here there

  -- Where no wallet that a top up may meet has a balance below zero, none has after it, however
  -- the columns round.
  pub top_up-all_nonneg :
      all_nonneg w.db.wallets ≡ true
      → ((n : ℕ) → all_nonneg (env.others n w.db).wallets ≡ true)
      → all_nonneg (top_up env user_id req w).1.db.wallets ≡ true
  top_up-all_nonneg here there =
      Requests-keeps (λ d. all_nonneg d.wallets ≡ true) (top_up-Requests env user_id req)
        (λ start d a e d' t h. all_nonneg-Credited t h) w here there

  -- Where the tables keep whole cents as they are, the amount and the balances are in whole cents,
  -- and no two wallets that the top up meets have an id in common, a top up that answers has added
  -- its amount to what all wallets together held when its transaction began, and so has one whose
  -- COMMIT was carried out and its reply lost; one that errs otherwise leaves the sum as it was,
  -- or as other sessions have left it.
  pub top_up-total :
      (x : Exact env)
      → x.IsCents req.amount
      → ((n : ℕ) (id : String) → x.IsCents (balance_at id (env.others n w.db)))
      → ((n : ℕ) → distinct_ids (env.others n w.db).wallets ≡ true)
      → Grown env w req.amount (top_up env user_id req w)
  top_up-total x c cs us = elim top_up-Requested [
    | inl (bad, inl same, q) ↦ inr (inr (bad, inl (ap (λ (d : Database). total d.wallets) same)))
    | inl (bad, inr (n, same), q) ↦
        inr (inr (bad, inr (n, ap (λ (d : Database). total d.wallets) same)))
    | inr (n, a, e, t, inl (answered, q)) ↦
        inl (a, answered, (n, total-Credited t x c (cs n) (us n)))
    | inr (n, a, e, t, inr (fault, q)) ↦ inr (inl (fault, (n, total-Credited t x c (cs n) (us n))))
  ]
