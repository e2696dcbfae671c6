-- ===== src/Dto/Pagination.antt =====
-- internal/dto/pagination.go, and the page count that each list service computes from it.
use wallet_ledger_service.Common.{ℕ, if◌then◌else◌}
use wallet_ledger_service.Common.Int.{ℤ, pos, ◌+ℤ◌, ◌-ℤ◌, leb_ℤ}
use wallet_ledger_service.Common.Words.{int64, ◌*ℤ◌, quot}

pub record PaginationRequest : Type 0 where
  pub page : ℤ
  pub limit : ℤ

pub record PaginationResponse : Type 0 where
  pub current_page : ℤ
  pub per_page : ℤ
  pub total_items : ℤ
  pub total_pages : ℤ

unfoldable pub set_defaults : PaginationRequest → PaginationRequest
set_defaults p = record {
  page = if leb_ℤ p.page (pos 0) then pos 1 else p.page;
  limit = if leb_ℤ p.limit (pos 0) then pos 10 else p.limit;
}

unfoldable pub offset : PaginationRequest → ℤ
offset p = int64 (int64 (p.page -ℤ pos 1) *ℤ p.limit)

-- `(total + pagination.Limit - 1) / pagination.Limit`
unfoldable pub total_pages : ℕ → ℤ → ℤ
total_pages total limit = quot (int64 (int64 (pos total +ℤ limit) -ℤ pos 1)) limit

unfoldable pub pagination_response : PaginationRequest → ℕ → PaginationResponse
pagination_response p total = record {
  current_page = p.page;
  per_page = p.limit;
  total_items = pos total;
  total_pages = total_pages total p.limit;
}
