-- ===== src/Tests/Witnesses.antt =====
-- The theorems at concrete inputs.
use wallet_ledger_service.Common.{
  ℕ, String, ◌≡◌, refl, ◌⊎◌, inl, inr, Bool-cases, true, some, none, [], str_eq, eq_iff, ⊤, arith,
}
use mathlib.Core.Path.{subst}
use wallet_ledger_service.Common.Int.{pos, ◌+ℤ◌}
use wallet_ledger_service.Model.{transaction_status_completed}
use wallet_ledger_service.World.Commits.{Requested}
use wallet_ledger_service.Dto.{set_defaults, offset, total_pages}
use wallet_ledger_service.Repository.Common.{numeric_to_decimal}
use wallet_ledger_service.Repository.Effects.{row_at}
use wallet_ledger_service.Repository.Notifications.{mark_as_read, clear_all}
use wallet_ledger_service.Repository.Inbox.{
  inbox, mark_as_read-others, clear_all-others, clear_all-own,
}
use wallet_ledger_service.Service.Auth.{register}
use wallet_ledger_service.Service.Auth.Registering.{Registered, register-Requested}
use wallet_ledger_service.Service.Transactions.Balances.{
  balance_at, ledger_sum, Exact, IsReconciled,
}
use wallet_ledger_service.Service.Transactions.Totals.{total, all_nonneg}
use wallet_ledger_service.Service.Transactions.Transfer.{transfer}
use wallet_ledger_service.Service.Transactions.Transfer.Commit.{Transferred}
use wallet_ledger_service.Service.Transactions.Transfer.Requests.{
  transfer-Requested, transfer-IsReconciled, transfer-total, transfer-all_nonneg,
  transfer-untouched, transfer-balance_after,
}
use wallet_ledger_service.Service.Transactions.TopUp.{top_up}
use wallet_ledger_service.Service.Transactions.TopUp.Commit.{Credited}
use wallet_ledger_service.Service.Transactions.TopUp.Requests.{
  Grown, top_up-Requested, top_up-IsReconciled, top_up-total, top_up-all_nonneg,
}
use wallet_ledger_service.Service.Transactions.Queries.{get_transaction_detail}
use wallet_ledger_service.Service.Transactions.Access.{Detailed, get_transaction_detail-authorized}
use wallet_ledger_service.Service.Transactions.Lists.{
  FewestPages, Listed, get_all_transactions-Listed, offset_lem, total_pages_lem,
}
use wallet_ledger_service.Tests.Fixtures.{calm, ready, two_wallets, sends, deposits, joins}
use wallet_ledger_service.Tests.Runs.{
  sent, sent_answer, detailed, past_answer, listed, first_page, cleared,
}

-- Every amount is whole cents, and the tables keep it as it is.
abbrev exact : Exact calm
exact = record {
  IsCents = λ a. ⊤;
  zero = tt;
  plus = λ a b p q. tt;
  minus = λ a b p q. tt;
  scans = λ a. refl;
  keeps = λ a p. inl refl;
}

same_sum : (id : String) → balance_at id two_wallets ≡ ledger_sum id two_wallets.ledger_entries
unfolding numeric_to_decimal ◌+ℤ◌
same_sum id = elim (Bool-cases (str_eq "WLT-A" id)) [
  | inl here ↦
      subst (λ i. balance_at i two_wallets ≡ ledger_sum i two_wallets.ledger_entries)
        ((eq_iff _ _).0 here) refl
  | inr not_a ↦ elim (Bool-cases (str_eq "WLT-B" id)) [
    | inl here ↦
        subst (λ i. balance_at i two_wallets ≡ ledger_sum i two_wallets.ledger_entries)
          ((eq_iff _ _).0 here) refl
    | inr not_b ↦ rw (not_a, not_b) refl
  ]
]

reconciled : IsReconciled exact two_wallets
reconciled = record { balance = same_sum; cents = λ id. tt }

transfer-Requested_example :
    Requested calm (Transferred calm 1 sends) ready (transfer calm 1 sends ready)
transfer-Requested_example = transfer-Requested calm 1 sends ready

top_up-Requested_example :
    Requested calm (Credited calm 1 deposits) ready (top_up calm 1 deposits ready)
top_up-Requested_example = top_up-Requested calm 1 deposits ready

transfer-IsReconciled_example : IsReconciled exact (transfer calm 1 sends ready).1.db
transfer-IsReconciled_example =
    transfer-IsReconciled calm 1 sends ready exact tt reconciled (λ n. reconciled)

top_up-IsReconciled_example : IsReconciled exact (top_up calm 1 deposits ready).1.db
top_up-IsReconciled_example =
    top_up-IsReconciled calm 1 deposits ready exact tt reconciled (λ n. reconciled)

transfer-total_example :
    (total (transfer calm 1 sends ready).1.db.wallets ≡ total two_wallets.wallets)
    ⊎ ((n : ℕ) × (total (transfer calm 1 sends ready).1.db.wallets
          ≡ total (calm.others n two_wallets).wallets))
transfer-total_example = transfer-total calm 1 sends ready exact tt (λ n id. tt) (λ n. refl)

top_up-total_example : Grown calm ready (pos 30) (top_up calm 1 deposits ready)
top_up-total_example = top_up-total calm 1 deposits ready exact tt (λ n id. tt) (λ n. refl)

transfer-all_nonneg_example : all_nonneg (transfer calm 1 sends ready).1.db.wallets ≡ true
transfer-all_nonneg_example = transfer-all_nonneg calm 1 sends ready refl (λ n. refl)

top_up-all_nonneg_example : all_nonneg (top_up calm 1 deposits ready).1.db.wallets ≡ true
top_up-all_nonneg_example = top_up-all_nonneg calm 1 deposits ready refl (λ n. refl)

transfer-untouched_example :
    (n : ℕ) × (row_at "WLT-C" (transfer calm 1 sends ready).1.db
      ≡ row_at "WLT-C" (calm.others n two_wallets))
transfer-untouched_example =
    transfer-untouched calm 1 sends ready sent_answer "WLT-C" sent refl refl

transfer-balance_after_example : balance_at "WLT-A" (transfer calm 1 sends ready).1.db ≡ pos 430
transfer-balance_after_example =
    transfer-balance_after calm 1 sends ready exact sent_answer tt (λ n id. tt) sent

register-Requested_example :
    Requested calm (Registered calm joins) ready (register calm joins ready)
register-Requested_example = register-Requested calm joins ready

get_transaction_detail-authorized_example :
    Detailed calm 1 50 two_wallets past_answer
    × ((get_transaction_detail calm 1 50 ready).1.db ≡ two_wallets)
    × ((get_transaction_detail calm 1 50 ready).1.events ≡ [])
get_transaction_detail-authorized_example =
    get_transaction_detail-authorized calm 1 50 ready past_answer detailed

get_all_transactions-Listed_example :
    Listed none (some transaction_status_completed) 10 0 two_wallets first_page
get_all_transactions-Listed_example =
    get_all_transactions-Listed calm none (some transaction_status_completed) 0 9 ready first_page
      (omega arith) (omega arith) (omega arith) listed

offset_lem_example : offset (set_defaults (record { page = pos 3; limit = pos 10 })) ≡ pos 20
offset_lem_example = offset_lem 2 9 (omega arith) (omega arith)

total_pages_lem_example : FewestPages 21 10 (total_pages 21 (pos 10))
total_pages_lem_example = total_pages_lem 21 9 (omega arith)

mark_as_read-others_example : inbox 2 (mark_as_read calm 7 1 ready).1.db ≡ inbox 2 two_wallets
mark_as_read-others_example = mark_as_read-others calm 7 1 2 ready refl

clear_all-others_example : inbox 2 (clear_all calm 1 ready).1.db ≡ inbox 2 two_wallets
clear_all-others_example = clear_all-others calm 1 2 ready refl

clear_all-own_example : inbox 1 (clear_all calm 1 ready).1.db ≡ []
clear_all-own_example = clear_all-own calm 1 ready cleared
