-- ===== src/Service/Ledger/Pages.antt =====
-- `GetLedgerEntries`: whose entries are listed, and which page.
use wallet_ledger_service.Common.{
  ℕ, suc, ◌*◌, ◌^◌, ◌<◌, String, ◌≡◌, sym, ap, ◌∙◌, ◌&&◌, Option, none, some, List, map, keep,
  keep_same, length, str_eq,
}
use wallet_ledger_service.Common.Int.{ℤ, pos}
use wallet_ledger_service.Model.{Uuid, Wallet, LedgerEntry}
use wallet_ledger_service.Failure.{ok, wallet_not_found}
use wallet_ledger_service.Database.{LedgerEntryRow, Database}
use wallet_ledger_service.World.{Env, World}
use wallet_ledger_service.World.Reading.{Reads, Reads-or_raise, Reads-weaken}
use wallet_ledger_service.Repository.LedgerEntries
use wallet_ledger_service.Repository.LedgerEntries.{map_ledger_entry}
use wallet_ledger_service.Repository.Effects.{wallet_of, find_by_user_id-Reads}
use wallet_ledger_service.Repository.Reads.{Reads-bind, Reads-pure, Paged, list_page-Paged, repaged}
use wallet_ledger_service.Sql.Order.{page}
use wallet_ledger_service.Sql.LedgerEntries.{
  newest, find_ledger_entries_by_wallet_id, count_ledger_entries_by_wallet_id,
  find_ledger_entries_by_wallet_id_and_type, count_ledger_entries_by_wallet_id_and_type,
}
use wallet_ledger_service.Dto.{PaginationRequest, set_defaults, offset, pagination_response}
use wallet_ledger_service.Dto.Bodies.{LedgerListResponse}
use wallet_ledger_service.Service.Ledger.{get_ledger_entries}
use wallet_ledger_service.Service.Transactions.Queries.{ledger_entry_response}
use wallet_ledger_service.Service.Transactions.Lists.{passes, and_true, asked_page}

-- The wallet's entries that the type lets pass.
abbrev pub entries_of : String → Option String → Database → List LedgerEntryRow
entries_of wallet_id type d =
    keep (λ e. str_eq e.wallet_id wallet_id && passes type e.entry_type) d.ledger_entries

-- A page of the entries of the user's wallet, the newest first, and their number.
pub record Owned (user_id : Uuid) (type : Option String) (size skipped : ℕ) (d : Database)
    (r : LedgerListResponse) : Type 0 where
  pub wallet : Wallet
  pub owned : wallet_of user_id d ≡ some wallet
  pub rows :
      r.entries
      ≡ map ledger_entry_response
          (map map_ledger_entry (page size skipped (newest (entries_of wallet.id type d))))
  pub items : r.pagination.total_items ≡ pos (length (entries_of wallet.id type d))

module _ (env : Env) where
  find_by_wallet_id-Reads :
      (wallet_id : String) (type : Option String) (limit offset : ℤ)
      → Reads (LedgerEntries.find_by_wallet_id env wallet_id type limit offset) (
          Paged map_ledger_entry limit offset
            (λ l o d. page l o (newest (entries_of wallet_id type d)))
            (λ d. length (entries_of wallet_id type d)))
  unfolding LedgerEntries.find_by_wallet_id find_ledger_entries_by_wallet_id
      count_ledger_entries_by_wallet_id find_ledger_entries_by_wallet_id_and_type
      count_ledger_entries_by_wallet_id_and_type
  find_by_wallet_id-Reads wallet_id (some type) limit offset =
      list_page-Paged env _ _ map_ledger_entry limit offset _ _
  find_by_wallet_id-Reads wallet_id none limit offset =
      Reads-weaken
        (list_page-Paged env _ _ map_ledger_entry limit offset
          (find_ledger_entries_by_wallet_id wallet_id)
          (count_ledger_entries_by_wallet_id wallet_id))
        (λ d r k.
          repaged map_ledger_entry newest limit offset d _ _ r k
            (keep_same _ _ d.ledger_entries (λ e. sym (and_true _))))

  answers :
      (user_id : Uuid) (type : Option String) (request : PaginationRequest)
      → Reads (get_ledger_entries env user_id type request) (λ d r.
        (wallet : Wallet) × (listed : List LedgerEntry × ℕ) × (wallet_of user_id d ≡ some wallet)
        × Paged map_ledger_entry
            (set_defaults request).limit
            (offset (set_defaults request))
            (λ l o e. page l o (newest (entries_of wallet.id type e)))
            (λ e. length (entries_of wallet.id type e))
            d
            listed
        × (r ≡ record {
          entries = map ledger_entry_response listed.0;
          pagination = pagination_response (set_defaults request) listed.1;
        }))
  unfolding get_ledger_entries
  answers user_id type request =
      Reads-weaken
        (Reads-bind (find_by_user_id-Reads env user_id) λ found.
          Reads-bind (Reads-or_raise found wallet_not_found) λ wallet.
            Reads-bind (find_by_wallet_id-Reads wallet.id type _ _) λ listed. Reads-pure _)
        (λ d r (found, h, (wallet, is, (listed, k, same))). (wallet, listed, sym h ∙ is, k, same))

  -- For a page and a limit above zero, with page, limit and offset in the range of an `int32`, an
  -- answer of `GetLedgerEntries` lists that page of the entries of the asking user's own wallet
  -- that have the type, the newest first, or of all its entries where no type is given, and its
  -- count is their number.
  pub get_ledger_entries-Owned :
      (user_id : Uuid) (type : Option String) (p l : ℕ) (w : World) (r : LedgerListResponse)
      → p < 2 ^ 31
      → suc l < 2 ^ 31
      → p * suc l < 2 ^ 31
      → (get_ledger_entries env user_id type
          (record { page = pos (suc p); limit = pos (suc l) })
          w).0
        ≡ ok r
      → Owned user_id type (suc l) (p * suc l) w.db r
  unfolding pagination_response
  get_ledger_entries-Owned user_id type p l w r hp hl hpl h =
      let asked = answers user_id type (record { page = pos (suc p); limit = pos (suc l) }) in
      let (wallet, listed, is, k, same) = asked.finds w r h in
      let (rows, total) = asked_page map_ledger_entry p l _ _ w.db listed hp hl hpl k in
      record {
        wallet = wallet;
        owned = is;
        rows =
            ap (λ (x : LedgerListResponse). x.entries) same ∙ ap (map ledger_entry_response) rows;
        items = ap (λ (x : LedgerListResponse). x.pagination.total_items) same ∙ ap pos total;
      }
