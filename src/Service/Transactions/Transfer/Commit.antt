-- ===== src/Service/Transactions/Transfer/Commit.antt =====
-- A whole transfer: how it ends, and what it has done if it was committed.
use mathlib.Core.Option
use mathlib.Core.Option.{some-injective}
use wallet_ledger_service.Common.{
  String, ◌≡◌, refl, sym, ap, ◌∙◌, true, false, some, str_eq, eq_iff, exists,
}
use wallet_ledger_service.Common.Int.{◌-ℤ◌, ltb_ℤ}
use wallet_ledger_service.Model.{Uuid, Wallet, Transaction, transaction_status_completed}
use wallet_ledger_service.Failure.{wallet_not_found, self_transfer, target_wallet_not_found}
use wallet_ledger_service.Database.{WalletRow, Database}
use wallet_ledger_service.World.{Env, Event, EventData}
use wallet_ledger_service.World.Rules.{
  Effect, Runs, Runs-bind, Runs-deref, Runs-pure, Runs-weaken, Runs-raise_if, Runs-if,
}
use wallet_ledger_service.World.Commits.{
  Settles, Settles-bind, Settles-weaken, Settles-commit, Requests, Requests-bind, Requests-weaken,
  Requests-begin,
}
use wallet_ledger_service.World.Reading.{Reads-or_raise, Reads-raise_if}
use wallet_ledger_service.Repository.Wallets.{map_wallet}
use wallet_ledger_service.Repository.Effects.{
  wallet_at, wallet_of, find_by_id_for_update-Locks, find_by_user_id-Reads, find_by_id-Reads,
}
use wallet_ledger_service.Dto.Bodies.{TransferRequest, TransferResponse}
use wallet_ledger_service.Service.Events.{publish_event}
use wallet_ledger_service.Service.Transactions.Transfer.{
  Locked, lock_wallets, assign_locked, transfer_in_tx, transfer,
}
use wallet_ledger_service.Service.Transactions.Transfer.Posting.{Posted, post_transfer-Posts}
use wallet_ledger_service.Service.Transactions.Postings.{exists_of_first, first_holds}

-- The wallet that is found under an id has it, and its row exists.
pub wallet_at-id : (id : String) (d : Database) (w : Wallet) → wallet_at id d ≡ some w → w.id ≡ id
unfolding map_wallet
wallet_at-id id d w h =
    let (row, found, same) = (Option.map-eq-some_iff _ _).0 h in
    ap (λ (x : Wallet). x.id) (sym same)
    ∙ (eq_iff _ _).0 (first_holds (λ (x : WalletRow). str_eq x.id id) d.wallets row found)

pub wallet_at-exists :
    (id : String) (d : Database) (w : Wallet)
    → wallet_at id d ≡ some w
    → exists (λ (x : WalletRow). str_eq x.id id) d.wallets ≡ true
wallet_at-exists id d w h =
    let (row, found, same) = (Option.map-eq-some_iff _ _).0 h in
    exists_of_first (λ (x : WalletRow). str_eq x.id id) d.wallets row found

module _ (env : Env) where
  abbrev LocksBoth : Wallet → Wallet → Effect Locked
  LocksBoth source target d l d' =
      (d' ≡ d) × (l.w1 ≡ wallet_at source.id d) × (l.w2 ≡ wallet_at target.id d)

  lock_wallets-LocksBoth :
      (source target : Wallet) → Runs (lock_wallets env source target) (LocksBoth source target)
  unfolding lock_wallets
  lock_wallets-LocksBoth source target =
      Runs-if _
        (Runs-weaken
          (Runs-bind (find_by_id_for_update-Locks env source.id)
            λ w1. Runs-bind (find_by_id_for_update-Locks env target.id) λ w2. Runs-pure _)
          (λ d l d' (w1, d1, (e1, f1), (w2, d2, (e2, f2), (e3, same))).
            (e3 ∙ e2 ∙ e1, rw same f1, rw same (f2 ∙ ap (wallet_at target.id) e1))))
        (Runs-weaken
          (Runs-bind (find_by_id_for_update-Locks env target.id)
            λ w2. Runs-bind (find_by_id_for_update-Locks env source.id) λ w1. Runs-pure _)
          (λ d l d' (w2, d1, (e1, f1), (w1, d2, (e2, f2), (e3, same))).
            (e3 ∙ e2 ∙ e1, rw same (f2 ∙ ap (wallet_at source.id) e1), rw same f1)))

  -- The locked rows are the source's and the target's, in that order.
  abbrev Assigns : Wallet → Locked → Effect Locked
  Assigns source l d locked d' =
      (d' ≡ d) × ((d1 : Database) → l.w1 ≡ wallet_at source.id d1 → locked ≡ l)

  assign_locked-Assigns :
      (source : Wallet) (l : Locked) → Runs (assign_locked env source l) (Assigns source l)
  unfolding assign_locked
  assign_locked-Assigns source l =
      Runs-weaken (Runs-bind (Runs-deref l.w1) λ w1. Runs-pure _)
        (λ d locked d' (w1, d1, (e1, here), (e2, same)). (
          e2 ∙ e1,
          λ d2 at.
              let found : w1.id ≡ source.id = wallet_at-id source.id d2 w1 (sym at ∙ here) in
              same ∙ rw ((eq_iff w1.id source.id).1 found) refl,
        ))

  -- What a committed transfer has done, with the tables as other sessions have left them when it
  -- begins. `source` and `target` are the wallets as the transaction has read and locked them.
  pub record Transferred (user_id : Uuid) (req : TransferRequest) (start d : Database)
      (a : TransferResponse) (e : Event) (d' : Database) : Type 0 where
    pub source : Wallet
    pub target : Wallet
    pub txn : Transaction
    pub owner : Wallet
    pub owned : wallet_of user_id start ≡ some owner
    pub owner_id : source.id ≡ owner.id
    pub target_id : target.id ≡ req.target_wallet_id
    pub distinct : str_eq source.id target.id ≡ false
    pub source_locked : wallet_at source.id d ≡ some source
    pub target_locked : wallet_at target.id d ≡ some target
    pub covered : ltb_ℤ source.balance req.amount ≡ false
    pub posted : Posted env source target req.amount d txn d'
    pub answer : a ≡ record {
      transaction_id = txn.id;
      reference_no = txn.reference_no;
      type = txn.type;
      status = transaction_status_completed;
      amount = req.amount;
      source_wallet_id = source.id;
      target_wallet_id = target.id;
      balance_after = source.balance -ℤ req.amount;
      created_at = txn.created_at;
    }
    pub event : e ≡ record {
      event_type = "TRANSFER";
      user_id = env.uuid_string user_id;
      payload =
          EventData.transfer
            (env.uuid_string txn.id)
            txn.reference_no
            source.id
            target.id
            req.amount
            (source.balance -ℤ req.amount);
    }

  transfer_in_tx-Settles :
      (user_id : Uuid) (req : TransferRequest) (owner other : Wallet)
      → Settles (transfer_in_tx env user_id req owner other) (λ d a e d'.
        (start : Database)
        → wallet_of user_id start ≡ some owner
        → str_eq owner.id req.target_wallet_id ≡ false
        → other.id ≡ req.target_wallet_id
        → Transferred user_id req start d a e d')
  unfolding transfer_in_tx publish_event
  transfer_in_tx-Settles user_id req owner other =
      Settles-weaken
        (Settles-bind (lock_wallets-LocksBoth owner other) λ rows.
          Settles-bind (assign_locked-Assigns owner rows) λ locked.
            Settles-bind (Runs-deref locked.w1) λ source. Settles-bind (Runs-raise_if _ _) λ _.
              Settles-bind (post_transfer-Posts env source locked.w2 req.amount)
                λ txn. Settles-bind (Runs-deref locked.w2) λ target. Settles-commit env _ _ _)
        (λ d a e d'
            (
              rows,
              d1,
              (e1, f1, f2),
              (
                locked,
                d2,
                (e2, same),
                (
                  source,
                  d3,
                  (e3, here),
                  (
                    u,
                    d4,
                    (e4, covered),
                    (txn, d5, posts, (target, d6, (e6, there), (e7, answer, event))),
                  ),
                ),
              ),
            )
            start owned differ target_id.
          let kept = same d f1 in
          let source_locked : wallet_at owner.id d ≡ some source =
            sym (ap (λ (l : Locked). l.w1) kept ∙ f1) ∙ here in
          let target_locked : wallet_at other.id d ≡ some target =
            sym (ap (λ (l : Locked). l.w2) kept ∙ f2) ∙ there in
          let is_owner : source.id ≡ owner.id = wallet_at-id owner.id d source source_locked in
          let is_other : target.id ≡ other.id = wallet_at-id other.id d target target_locked in
          let d4-same : d4 ≡ d = e4 ∙ e3 ∙ e2 ∙ e1 in
          let d'-same : d' ≡ d5 = e7 ∙ e6 in
          let source_at : wallet_at source.id d ≡ some source =
            ap (λ id. wallet_at id d) is_owner ∙ source_locked in
          let target_at : wallet_at target.id d ≡ some target =
            ap (λ id. wallet_at id d) is_other ∙ target_locked in
          record {
            source = source;
            target = target;
            txn = txn;
            owner = owner;
            owned = owned;
            owner_id = is_owner;
            target_id = is_other ∙ target_id;
            distinct = rw (is_owner, is_other, target_id) differ;
            source_locked = source_at;
            target_locked = target_at;
            covered = covered;
            posted =
                rw (d'-same, ← d4-same)
                  (posts target there (rw d4-same (wallet_at-exists source.id d source source_at))
                    (rw d4-same (wallet_at-exists target.id d target target_at)));
            answer = answer;
            event = event;
          })

  -- A transfer is all or nothing, whatever the other sessions and the failures of the calls are.
  pub transfer-Requests :
      (user_id : Uuid) (req : TransferRequest)
      → Requests env (transfer env user_id req) (Transferred user_id req)
  unfolding transfer
  transfer-Requests user_id req =
      Requests-weaken
        (Requests-bind (find_by_user_id-Reads env user_id) λ found.
          Requests-bind (Reads-or_raise found wallet_not_found) λ owner.
            Requests-bind (Reads-raise_if _ self_transfer) λ _.
              Requests-bind (find_by_id-Reads env req.target_wallet_id) λ found_target.
                Requests-bind (Reads-or_raise found_target target_wallet_not_found)
                  λ target. Requests-begin env _ (transfer_in_tx-Settles user_id req owner target))
        (λ start d a e d'
            (found, h1, (owner, h2, (u, differ, (found_target, h3, (target, h4, done))))).
          done start (sym h1 ∙ h2) differ
            (wallet_at-id req.target_wallet_id start target (sym h3 ∙ h4)))
