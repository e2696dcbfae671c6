-- ===== src/Tests/Pages.antt =====
-- The theorems on the lists of audit logs and of ledger entries at concrete inputs.
use wallet_ledger_service.Common.{arith, length, ◌≡◌, refl, some, [], ◌∷◌, map, String, ℕ}
use wallet_ledger_service.Common.Int.{pos, ◌+ℤ◌, ◌-ℤ◌}
use wallet_ledger_service.Common.Words.{int32, int64, ◌*ℤ◌, quot}
use wallet_ledger_service.Failure.{ok}
use wallet_ledger_service.Database.{AuditLogRow}
use wallet_ledger_service.Dto.{set_defaults, offset, pagination_response, total_pages}
use wallet_ledger_service.Dto.Feeds.{AuditLogListResponse}
use wallet_ledger_service.World.{World, pure, wrap, query, ◌>>=◌}
use wallet_ledger_service.Repository.AuditLogs
use wallet_ledger_service.Repository.AuditLogs.{map_audit_log}
use wallet_ledger_service.Repository.Common.{list_page}
use wallet_ledger_service.Sql.AuditLogs.{
  newest, find_all_audit_logs_by_user_id_and_action, count_all_audit_logs_by_user_id_and_action,
}
use wallet_ledger_service.Sql.Order.{page}
use wallet_ledger_service.Service.Audit.{audit_log_response, get_all_logs}
use wallet_ledger_service.Service.Audit.Filters.{filtered_logs, get_all_logs-page}
use wallet_ledger_service.Model.{entry_type_credit}
use wallet_ledger_service.Dto.Bodies.{LedgerListResponse}
use wallet_ledger_service.Repository.Wallets
use wallet_ledger_service.Repository.LedgerEntries
use wallet_ledger_service.Repository.LedgerEntries.{map_ledger_entry}
use wallet_ledger_service.Repository.Common.{find_row, optional}
use wallet_ledger_service.World.{or_raise}
use wallet_ledger_service.Sql.Wallets.{find_wallet_by_user_id}
use wallet_ledger_service.Sql.LedgerEntries.{
  find_ledger_entries_by_wallet_id_and_type, count_ledger_entries_by_wallet_id_and_type,
}
use wallet_ledger_service.Service.Transactions.Queries.{ledger_entry_response}
use wallet_ledger_service.Service.Ledger.{get_ledger_entries}
use wallet_ledger_service.Service.Ledger.Pages.{Owned, get_ledger_entries-Owned}
use wallet_ledger_service.Tests.Fixtures.{calm, ready, two_wallets, first_credit}

abbrev log_row : String → ℕ → String → ℕ → AuditLogRow
log_row id user action time = record {
  id = id;
  user_id = some user;
  action = action;
  ip_address = "10.0.0.1";
  endpoint = "POST /api/v1/transfers";
  created_at = some time;
}

abbrev audited : World
audited = record ready {
  db = record two_wallets {
    audit_logs =
        log_row "AUD-1" 1 "LOGIN" 3
        ∷ log_row "AUD-2" 1 "TRANSFER" 4
        ∷ log_row "AUD-3" 2 "LOGIN" 5
        ∷ [];
  };
}

abbrev logins : AuditLogListResponse
logins = record {
  logs = audit_log_response (map_audit_log (log_row "AUD-1" 1 "LOGIN" 3)) ∷ [];
  pagination = record {
    current_page = pos 1;
    per_page = pos 10;
    total_items = pos 1;
    total_pages = pos 1;
  };
}

found :
    (get_all_logs calm (some 1) (some "LOGIN") (record { page = pos 1; limit = pos 10 }) audited).0
    ≡ ok logins
unfolding ◌>>=◌ wrap pure query get_all_logs AuditLogs.find_all list_page
    find_all_audit_logs_by_user_id_and_action count_all_audit_logs_by_user_id_and_action
    set_defaults offset pagination_response total_pages int32 int64 ◌*ℤ◌ quot ◌+ℤ◌ ◌-ℤ◌
found = refl

get_all_logs-page_example :
    (logins.logs
      ≡ map audit_log_response (
          map map_audit_log
            (page 10 0 (newest (filtered_logs (some 1) (some "LOGIN") audited.db)))))
    × (logins.pagination.total_items
        ≡ pos (length (filtered_logs (some 1) (some "LOGIN") audited.db)))
get_all_logs-page_example =
    get_all_logs-page calm (some 1) (some "LOGIN") 0 9 audited logins (omega arith) (omega arith)
      (omega arith) found

abbrev credits : LedgerListResponse
credits = record {
  entries = ledger_entry_response (map_ledger_entry (first_credit "LED-2" "WLT-B" 100)) ∷ [];
  pagination = record {
    current_page = pos 1;
    per_page = pos 10;
    total_items = pos 1;
    total_pages = pos 1;
  };
}

credited :
    (get_ledger_entries calm 2
      (some entry_type_credit)
      (record { page = pos 1; limit = pos 10 })
      ready).0
    ≡ ok credits
unfolding ◌>>=◌ wrap pure query or_raise get_ledger_entries Wallets.find_by_user_id
    Wallets.map_wallet find_row optional find_wallet_by_user_id LedgerEntries.find_by_wallet_id
    list_page find_ledger_entries_by_wallet_id_and_type count_ledger_entries_by_wallet_id_and_type
    set_defaults offset pagination_response total_pages int32 int64 ◌*ℤ◌ quot ◌+ℤ◌ ◌-ℤ◌
credited = refl

get_ledger_entries-Owned_example : Owned 2 (some entry_type_credit) 10 0 two_wallets credits
get_ledger_entries-Owned_example =
    get_ledger_entries-Owned calm 2 (some entry_type_credit) 0 9 ready credits (omega arith)
      (omega arith) (omega arith) credited
