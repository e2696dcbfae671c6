-- ===== src/Service/Transactions/TopUp/Commit.antt =====
-- A whole top up: how it ends, and what it has done if it was committed.
use wallet_ledger_service.Common.{◌≡◌, sym, ◌∙◌, some}
use wallet_ledger_service.Common.Int.{◌+ℤ◌}
use wallet_ledger_service.Model.{Uuid, Wallet, Transaction, transaction_status_completed}
use wallet_ledger_service.Failure.{wallet_not_found}
use wallet_ledger_service.Database.{Database}
use wallet_ledger_service.World.{Env, Event, EventData}
use wallet_ledger_service.World.Rules.{Runs-or_raise}
use wallet_ledger_service.World.Commits.{
  Settles, Settles-bind, Settles-weaken, Settles-commit, Requests, Requests-bind, Requests-weaken,
  Requests-begin,
}
use wallet_ledger_service.World.Reading.{Reads-or_raise}
use wallet_ledger_service.Repository.Effects.{
  wallet_at, wallet_of, find_by_id_for_update-Locks, find_by_user_id-Reads,
}
use wallet_ledger_service.Dto.Bodies.{TopUpRequest, TopUpResponse}
use wallet_ledger_service.Service.Events.{publish_event}
use wallet_ledger_service.Service.Transactions.TopUp.{top_up_in_tx, top_up}
use wallet_ledger_service.Service.Transactions.TopUp.Posting.{ToppedUp, post_top_up-TopsUp}
use wallet_ledger_service.Service.Transactions.Transfer.Commit.{wallet_at-exists}

module _ (env : Env) where
  -- What a committed top up has done, with the tables as other sessions have left them when it
  -- begins. `locked` is the wallet as the transaction has read and locked it.
  pub record Credited (user_id : Uuid) (req : TopUpRequest) (start d : Database) (a : TopUpResponse)
      (e : Event) (d' : Database) : Type 0 where
    pub wallet : Wallet
    pub locked : Wallet
    pub txn : Transaction
    pub owned : wallet_of user_id start ≡ some wallet
    pub found : wallet_at wallet.id d ≡ some locked
    pub posted : ToppedUp env wallet.id locked.balance req.amount d txn d'
    pub answer : a ≡ record {
      transaction_id = txn.id;
      reference_no = txn.reference_no;
      type = txn.type;
      status = transaction_status_completed;
      amount = req.amount;
      wallet_id = wallet.id;
      balance_after = locked.balance +ℤ req.amount;
      created_at = txn.created_at;
    }
    pub event : e ≡ record {
      event_type = "TOPUP";
      user_id = env.uuid_string user_id;
      payload =
          EventData.top_up
            (env.uuid_string txn.id)
            txn.reference_no
            wallet.id
            req.amount
            (locked.balance +ℤ req.amount);
    }

  top_up_in_tx-Settles :
      (user_id : Uuid) (req : TopUpRequest) (wallet : Wallet)
      → Settles (top_up_in_tx env user_id req wallet) (λ d a e d'.
        (start : Database)
        → wallet_of user_id start ≡ some wallet
        → Credited user_id req start d a e d')
  unfolding top_up_in_tx publish_event
  top_up_in_tx-Settles user_id req wallet =
      Settles-weaken
        (Settles-bind (find_by_id_for_update-Locks env wallet.id) λ found.
          Settles-bind (Runs-or_raise found wallet_not_found) λ locked.
            Settles-bind (post_top_up-TopsUp env wallet locked req.amount)
              λ txn. Settles-commit env _ _ _)
        (λ d a e d'
            (found, d1, (e1, at), (locked, d2, (e2, here), (txn, d3, posts, (e4, answer, event))))
            start owned.
          let start_same : d2 ≡ d = e2 ∙ e1 in
          let held : wallet_at wallet.id d ≡ some locked = sym at ∙ here in
          record {
            wallet = wallet;
            locked = locked;
            txn = txn;
            owned = owned;
            found = held;
            posted =
                rw (e4, ← start_same)
                  (posts (rw start_same (wallet_at-exists wallet.id d locked held)));
            answer = answer;
            event = event;
          })

  pub top_up-Requests :
      (user_id : Uuid) (req : TopUpRequest)
      → Requests env (top_up env user_id req) (Credited user_id req)
  unfolding top_up
  top_up-Requests user_id req =
      Requests-weaken
        (Requests-bind (find_by_user_id-Reads env user_id) λ found.
          Requests-bind (Reads-or_raise found wallet_not_found)
            λ wallet. Requests-begin env _ (top_up_in_tx-Settles user_id req wallet))
        (λ start d a e d' (found, h1, (wallet, h2, done)). done start (sym h1 ∙ h2))
