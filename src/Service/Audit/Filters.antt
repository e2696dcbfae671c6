-- ===== src/Service/Audit/Filters.antt =====
-- `GetAllLogs`: the four queries against one description of both filters.
use wallet_ledger_service.Common.{
  ℕ, suc, ◌*◌, ◌^◌, ◌<◌, String, ◌≡◌, refl, sym, ap, ◌∙◌, Bool, true, ◌&&◌, Option, none, some,
  List, map, keep, keep_all, keep_same, length,
}
use wallet_ledger_service.Common.Int.{ℤ, pos}
use wallet_ledger_service.Model.{Uuid, AuditLog}
use wallet_ledger_service.Failure.{ok}
use wallet_ledger_service.Database.{AuditLogRow, Database, eq_uuid}
use wallet_ledger_service.World.{Env, World}
use wallet_ledger_service.World.Reading.{Reads, Reads-weaken}
use wallet_ledger_service.Repository.AuditLogs
use wallet_ledger_service.Repository.AuditLogs.{map_audit_log}
use wallet_ledger_service.Repository.Reads.{Reads-bind, Reads-pure, Paged, list_page-Paged, repaged}
use wallet_ledger_service.Sql.Order.{page}
use wallet_ledger_service.Sql.AuditLogs.{
  newest, find_audit_logs_by_user_id, count_audit_logs_by_user_id, find_all_audit_logs,
  count_all_audit_logs, find_all_audit_logs_by_action, count_all_audit_logs_by_action,
  find_all_audit_logs_by_user_id_and_action, count_all_audit_logs_by_user_id_and_action,
}
use wallet_ledger_service.Dto.{PaginationRequest, set_defaults, offset, pagination_response}
use wallet_ledger_service.Dto.Feeds.{AuditLogListResponse}
use wallet_ledger_service.Service.Audit.{audit_log_response, get_all_logs}
use wallet_ledger_service.Service.Transactions.Lists.{passes, and_true, asked_page}

-- A user that is not given lets every log pass.
abbrev pub of_user : Option Uuid → AuditLogRow → Bool
of_user none l = true
of_user (some id) l = eq_uuid l.user_id (some id)

abbrev pub filtered_logs : Option Uuid → Option String → Database → List AuditLogRow
filtered_logs user action d = keep (λ l. of_user user l && passes action l.action) d.audit_logs

module _ (env : Env) where
  find_all-Filtered :
      (user : Option Uuid) (action : Option String) (limit offset : ℤ)
      → Reads (AuditLogs.find_all env user action limit offset) (
          Paged map_audit_log limit offset
            (λ l o d. page l o (newest (filtered_logs user action d)))
            (λ d. length (filtered_logs user action d)))
  unfolding AuditLogs.find_all find_audit_logs_by_user_id count_audit_logs_by_user_id
      find_all_audit_logs count_all_audit_logs find_all_audit_logs_by_action
      count_all_audit_logs_by_action find_all_audit_logs_by_user_id_and_action
      count_all_audit_logs_by_user_id_and_action
  find_all-Filtered (some user) (some action) limit offset =
      list_page-Paged env _ _ map_audit_log limit offset _ _
  find_all-Filtered (some user) none limit offset =
      Reads-weaken
        (list_page-Paged env _ _ map_audit_log limit offset (find_audit_logs_by_user_id (some user))
          (count_audit_logs_by_user_id (some user)))
        (λ d r k.
          repaged map_audit_log newest limit offset d _ _ r k
            (keep_same _ _ d.audit_logs (λ l. sym (and_true _))))
  find_all-Filtered none (some action) limit offset =
      list_page-Paged env _ _ map_audit_log limit offset _ _
  find_all-Filtered none none limit offset =
      Reads-weaken
        (list_page-Paged env _ _ map_audit_log limit offset find_all_audit_logs
          count_all_audit_logs)
        (λ d r k.
          repaged map_audit_log newest limit offset d (λ e. e.audit_logs) (filtered_logs none none)
            r k (sym (keep_all _ d.audit_logs (λ l. refl))))

  answers :
      (user : Option Uuid) (action : Option String) (request : PaginationRequest)
      → Reads (get_all_logs env user action request) (λ d r.
        (listed : List AuditLog × ℕ) × Paged map_audit_log
          (set_defaults request).limit
          (offset (set_defaults request))
          (λ l o e. page l o (newest (filtered_logs user action e)))
          (λ e. length (filtered_logs user action e))
          d
          listed
        × (r ≡ record {
          logs = map audit_log_response listed.0;
          pagination = pagination_response (set_defaults request) listed.1;
        }))
  unfolding get_all_logs
  answers user action request =
      Reads-bind (find_all-Filtered user action _ _) λ listed. Reads-pure _

  -- For a page and a limit above zero, with page, limit and offset in the range of an `int32`, the
  -- logs that an answer of `GetAllLogs` holds, by whichever of its four queries, are that page of
  -- the logs that pass both filters, newest first, and its count is the number of all that pass;
  -- each filter may be missing.
  pub get_all_logs-page :
      (user : Option Uuid) (action : Option String) (p l : ℕ) (w : World) (r : AuditLogListResponse)
      → p < 2 ^ 31
      → suc l < 2 ^ 31
      → p * suc l < 2 ^ 31
      → (get_all_logs env user action (record { page = pos (suc p); limit = pos (suc l) }) w).0
        ≡ ok r
      → (r.logs
          ≡ map audit_log_response (
              map map_audit_log
                (page (suc l) (p * suc l) (newest (filtered_logs user action w.db)))))
        × (r.pagination.total_items ≡ pos (length (filtered_logs user action w.db)))
  unfolding pagination_response
  get_all_logs-page user action p l w r hp hl hpl h =
      let asked = answers user action (record { page = pos (suc p); limit = pos (suc l) }) in
      let (listed, k, same) = asked.finds w r h in
      let (rows, total) = asked_page map_audit_log p l _ _ w.db listed hp hl hpl k in
      (
        ap (λ (x : AuditLogListResponse). x.logs) same ∙ ap (map audit_log_response) rows,
        ap (λ (x : AuditLogListResponse). x.pagination.total_items) same ∙ ap pos total,
      )
