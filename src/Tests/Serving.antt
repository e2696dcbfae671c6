-- ===== src/Tests/Serving.antt =====
-- The theorems on the handlers, the limit and the idempotency key at concrete inputs.
use wallet_ledger_service.Common.{
  ◌%◌, List, ℕ, ◌≡◌, refl, sym, ◌+◌, ◌*◌, ap, none, [], ◌∷◌, ◌++◌, ◌≤◌, arith,
}
use wallet_ledger_service.Common.Int.{◌+ℤ◌}
use wallet_ledger_service.Model.{Uuid}
use wallet_ledger_service.Failure.{ok}
use wallet_ledger_service.World.{
  Env, Event, ◌>>=◌, query, or_raise, wrap, begin, with_rollback, commit, pure, read_clock,
  spawn_publish,
}
use wallet_ledger_service.Dto.Bodies.{
  TopUpRequest, TopUpResponse, TransferRequest, TransferResponse,
}
use wallet_ledger_service.Http.{
  Context, bound, Reply, replied, write_error, write_success, top_up_payload, transfer_payload,
  failure, success,
}
use wallet_ledger_service.Repository.Wallets
use wallet_ledger_service.Repository.LedgerEntries
use wallet_ledger_service.Repository.Transactions
use wallet_ledger_service.Repository.Common.{
  find_row, decimal_to_numeric, numeric_to_decimal, optional,
}
use wallet_ledger_service.Sql.Wallets.{
  find_wallet_by_user_id, find_wallet_by_id_for_update, update_wallet_balance,
}
use wallet_ledger_service.Sql.LedgerEntries.{create_ledger_entry}
use wallet_ledger_service.Sql.Transactions.{create_transaction, update_transaction_status}
use wallet_ledger_service.Utils.Ids.{
  generate_ledger_entry_id, generate_transaction_ref, random_alphanumeric,
}
use wallet_ledger_service.Service.Events.{publish_event}
use wallet_ledger_service.Service.Transactions.TopUp.{top_up, top_up_in_tx, post_top_up}
use wallet_ledger_service.Service.Transactions.TopUp.Commit.{Credited}
use wallet_ledger_service.Service.Transactions.Transfer.Commit.{Transferred}
use wallet_ledger_service.Middleware.Auth.{got, get_user_id_from_context}
use wallet_ledger_service.Middleware.Site.{Site, Chain, tick, put, second, is_success}
use wallet_ledger_service.Middleware.RateLimit.Window.{
  Behind, served, served_window, served_sliding,
}
use wallet_ledger_service.Middleware.Idempotency.{hit, look_up, get_value, idempotency}
use wallet_ledger_service.Middleware.Idempotency.Replays.{
  cached, idempotency-replays, idempotency-refused,
}
use wallet_ledger_service.Handler.Replies.{with_user, with_bound, settle, answer}
use wallet_ledger_service.Handler.Replies.Outcomes.{Untouched, replied_injective}
use wallet_ledger_service.Handler.Transactions.{
  top_up_error, transfer_error, handle_top_up, handle_transfer,
}
use wallet_ledger_service.Handler.Transactions.Statuses.{
  handle_transfer-refused, handle_transfer-succeeded, handle_top_up-succeeded,
}
use wallet_ledger_service.Tests.Fixtures.{calm, ready, sends, sends_too_much, deposits}
use wallet_ledger_service.Tests.Runs.{sent, sent_answer, too_much}
use wallet_ledger_service.Tests.Outside.{
  wire, ann_posts, site, json, json-Restores, deposited_answer,
}

abbrev too_much_reply : Reply
too_much_reply = record {
  status = 400;
  body = failure "insufficient balance" 400 [];
  cookie = none;
  headers = [];
}

too_much_refused :
    (handle_transfer wire calm ann_posts (bound sends_too_much) ready).0 ≡ replied too_much_reply
unfolding handle_transfer with_user with_bound settle get_user_id_from_context transfer_error
    write_error
too_much_refused =
    ap
      (answer (transfer_error wire)
        (λ res. write_success 200 "Transfer successful" (transfer_payload res)))
      too_much

handle_transfer-refused_example :
    Untouched calm ready (handle_transfer wire calm ann_posts (bound sends_too_much) ready).1
handle_transfer-refused_example =
    handle_transfer-refused wire calm ann_posts (bound sends_too_much) ready too_much_reply
      too_much_refused (omega arith) (omega arith)

abbrev sent_reply : Reply
sent_reply = record {
  status = 200;
  body = success "Transfer successful" (transfer_payload sent_answer);
  cookie = none;
  headers = [];
}

was_sent : (handle_transfer wire calm ann_posts (bound sends) ready).0 ≡ replied sent_reply
unfolding handle_transfer with_user with_bound settle get_user_id_from_context write_success
was_sent =
    ap
      (answer (transfer_error wire)
        (λ res. write_success 200 "Transfer successful" (transfer_payload res)))
      sent

handle_transfer-succeeded_example :
    (id : Uuid) × (get_user_id_from_context ann_posts ≡ got id)
    × ((req : TransferRequest) × (bound sends ≡ bound req)
        × ((n : ℕ) × (a : TransferResponse) × (e : Event) × Transferred calm id req ready.db
              (calm.others n ready.db)
              a
              e
              (handle_transfer wire calm ann_posts (bound sends) ready).1.db
            × (sent_reply ≡ write_success 200 "Transfer successful" (transfer_payload a))
            × ((handle_transfer wire calm ann_posts (bound sends) ready).1.events
                ≡ ready.events ++ e ∷ [])))
handle_transfer-succeeded_example =
    handle_transfer-succeeded wire calm ann_posts (bound sends) ready sent_reply was_sent refl

topped_up : (top_up calm 1 deposits ready).0 ≡ ok deposited_answer
unfolding top_up ◌>>=◌ query or_raise wrap begin with_rollback commit pure read_clock spawn_publish
    Wallets.find_by_user_id Wallets.map_wallet Wallets.find_by_id_for_update Wallets.update_balance
    find_row decimal_to_numeric numeric_to_decimal optional find_wallet_by_user_id
    find_wallet_by_id_for_update update_wallet_balance top_up_in_tx post_top_up LedgerEntries.create
    LedgerEntries.map_ledger_entry Transactions.create Transactions.map_transaction
    Transactions.update_status publish_event create_ledger_entry create_transaction
    update_transaction_status generate_ledger_entry_id generate_transaction_ref random_alphanumeric
    ◌+ℤ◌
topped_up = refl

abbrev deposited_reply : Reply
deposited_reply = record {
  status = 200;
  body = success "Top up successful" (top_up_payload deposited_answer);
  cookie = none;
  headers = [];
}

was_deposited :
    (handle_top_up wire calm ann_posts (bound deposits) ready).0 ≡ replied deposited_reply
unfolding handle_top_up with_user with_bound settle get_user_id_from_context write_success
was_deposited =
    ap
      (answer (top_up_error wire)
        (λ res. write_success 200 "Top up successful" (top_up_payload res)))
      topped_up

handle_top_up-succeeded_example :
    (id : Uuid) × (get_user_id_from_context ann_posts ≡ got id)
    × ((req : TopUpRequest) × (bound deposits ≡ bound req)
        × ((n : ℕ) × (a : TopUpResponse) × (e : Event) × Credited calm id req ready.db
              (calm.others n ready.db)
              a
              e
              (handle_top_up wire calm ann_posts (bound deposits) ready).1.db
            × (deposited_reply ≡ write_success 200 "Top up successful" (top_up_payload a))
            × ((handle_top_up wire calm ann_posts (bound deposits) ready).1.events
                ≡ ready.events ++ e ∷ [])))
handle_top_up-succeeded_example =
    handle_top_up-succeeded wire calm ann_posts (bound deposits) ready deposited_reply was_deposited
      refl

abbrev pub pays : Chain
pays c s = (replied sent_reply, s)

-- A clock that stays within a minute, and a chain that answers each request with 200.
abbrev clocked : Env
clocked = record calm { now = λ n. n % 50 }

abbrev elsewhere : Context
elsewhere = record ann_posts { client_ip = "10.0.0.2" }

pays-Behind : Behind pays
pays-Behind = record { keeps = λ c s. refl; own = λ c s. refl }

abbrev visits : List Context
visits = ann_posts ∷ elsewhere ∷ ann_posts ∷ ann_posts ∷ []

served_window_example : served clocked 2 (60 * second) pays "10.0.0.1" visits site ≡ 2
served_window_example =
    served_window clocked 2 (60 * second) pays pays-Behind (λ k. refl) "10.0.0.1" ann_posts
      (elsewhere ∷ ann_posts ∷ ann_posts ∷ []) site refl refl (λ k. omega arith)

served_sliding_example : served clocked 2 (60 * second) pays "10.0.0.1" visits site ≤ 4
served_sliding_example =
    served_sliding clocked 2 (60 * second) pays pays-Behind (λ k. refl) "10.0.0.1" 0 visits site
      (λ k. omega arith) (λ k. omega arith)

-- What stands behind the key: a transfer that is done, and one that is refused.
abbrev overdraws : Chain
overdraws c s = (replied too_much_reply, s)

missed : look_up calm wire json "idempotency:key-1" site ≡ none
unfolding look_up get_value
missed = refl

abbrev paid : Site
paid = record (tick (tick site)) {
  values =
      put "idempotency:key-1" (record { value = "{}"; expires = 1 + 24 * 3600 * second })
        (λ k. none);
}

is_paid : (idempotency calm wire json pays ann_posts site).1 ≡ paid
unfolding idempotency look_up get_value
is_paid = refl

idempotency-replays_example :
    idempotency calm wire json overdraws ann_posts paid
    ≡ (replied (hit (cached calm wire json pays ann_posts site sent_reply)), tick paid)
idempotency-replays_example =
    idempotency-replays calm wire json pays ann_posts site overdraws ann_posts paid sent_reply "{}"
      json-Restores (refl, refl) (refl, refl) refl missed refl refl refl refl
      (ap (λ (s : Site). s.values "idempotency:key-1") (sym is_paid)) refl (omega arith)

idempotency-refused_example :
    idempotency calm wire json overdraws ann_posts site ≡ overdraws ann_posts (tick site)
idempotency-refused_example =
    idempotency-refused calm wire json overdraws ann_posts site (refl, refl) missed
      (λ r h. ap (λ (x : Reply). is_success x.status) (sym (replied_injective _ _ h)))
