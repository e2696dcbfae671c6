-- ===== src/Service/Transactions/Lists.antt =====
-- `GetAllTransactions`: the filters and the page.
use mathlib.Core.Path.{subst, ap₂}
use native.Mathlib.Nat.{lt-div-mul-add, div-mul-le_self}
use wallet_ledger_service.Common.{
  ◌≤◌, ℕ, ◌+◌, ◌*◌, ◌/◌, ◌^◌, ◌<◌, suc, String, ◌≡◌, refl, sym, ap, ◌∙◌, Bool, true, false, ◌&&◌,
  Option, none, some, List, map, keep, keep_all, keep_same, length, str_eq, arith,
}
use wallet_ledger_service.Common.Int.{ℤ, pos, negsuc, ◌+ℤ◌, ◌-ℤ◌, leb_ℤ, int_laws}
use wallet_ledger_service.Common.Words.{int32, int32-pos, int64-pos, pos-*ℤ-pos, quot}
use wallet_ledger_service.Model.{Transaction}
use wallet_ledger_service.Failure.{ok}
use wallet_ledger_service.Database.{TransactionRow, Database}
use wallet_ledger_service.World.{Env, World}
use wallet_ledger_service.World.Reading.{Reads, Reads-weaken, ok_injective}
use wallet_ledger_service.Repository.Common.{bound}
use wallet_ledger_service.Repository.Transactions
use wallet_ledger_service.Repository.Transactions.{map_transaction}
use wallet_ledger_service.Repository.Reads.{Reads-bind, Reads-pure, Paged, list_page-Paged, repaged}
use wallet_ledger_service.Sql.Order.{page}
use wallet_ledger_service.Sql.Transactions.{
  newest, find_all_transactions, count_all_transactions, find_all_transactions_by_type,
  count_all_transactions_by_type, find_all_transactions_by_status, count_all_transactions_by_status,
  find_all_transactions_by_type_and_status, count_all_transactions_by_type_and_status,
}
use wallet_ledger_service.Dto.{
  PaginationRequest, set_defaults, offset, pagination_response, total_pages,
}
use wallet_ledger_service.Dto.Bodies.{TransactionListResponse}
use wallet_ledger_service.Service.Transactions.Queries.{transaction_response, get_all_transactions}

-- A filter that is not given lets every text pass.
abbrev pub passes : Option String → String → Bool
passes none s = true
passes (some t) s = str_eq s t

abbrev pub matches : Option String → Option String → TransactionRow → Bool
matches type status t = passes type t.type && passes status t.status

abbrev pub matching : Option String → Option String → Database → List TransactionRow
matching type status d = keep (matches type status) d.transactions

pub and_true : (b : Bool) → b && true ≡ b
and_true b = ground arith

leb_suc : (p : ℕ) → leb_ℤ (pos (suc p)) (pos 0) ≡ false
leb_suc p = ground arith

minus_one : (p : ℕ) → pos (suc p) -ℤ pos 1 ≡ pos p
minus_one p = omega int_laws

plus_pos : (a b : ℕ) → pos a +ℤ pos b ≡ pos (a + b)
plus_pos a b = omega int_laws

less_one : (n l : ℕ) → pos (n + suc l) -ℤ pos 1 ≡ pos (n + l)
less_one n l = omega int_laws

pub limit_lem :
    (p l : ℕ)
    → (set_defaults (record { page = pos (suc p); limit = pos (suc l) })).limit ≡ pos (suc l)
unfolding set_defaults
limit_lem p l = rw (leb_suc l) refl

sized : (n m : ℕ) → n < 2 ^ 31 → bound (int32 (pos n)) ≡ ok m → m ≡ n
sized n m h e = ok_injective m n (sym e ∙ ap bound (int32-pos n h))

-- For a page and a limit above zero the offset is the limit times the pages before, where that is
-- in the range of an `int`.
pub offset_lem :
    (p l : ℕ)
    → p < 2 ^ 63
    → p * suc l < 2 ^ 63
    → offset (set_defaults (record { page = pos (suc p); limit = pos (suc l) })) ≡ pos (p * suc l)
unfolding offset set_defaults
offset_lem p l h k =
    rw (leb_suc p, leb_suc l, minus_one p, int64-pos p h, pos-*ℤ-pos p (suc l))
      (int64-pos (p * suc l) k)

-- A number of pages of a size that holds so many items, with less than a page left empty.
abbrev pub FewestPages : ℕ → ℕ → ℤ → Type 0
FewestPages items size (pos p) = (items ≤ p * size) × (p * size < items + size)
FewestPages items size (negsuc p) = ⊥

pages_formula : (n l : ℕ) → n + suc l < 2 ^ 63 → total_pages n (pos (suc l)) ≡ pos ((n + l) / suc l)
unfolding total_pages quot
pages_formula n l h =
    rw
      (
        plus_pos n (suc l),
        int64-pos (n + suc l) h,
        less_one n l,
        int64-pos (n + l) (omega (arith, h)),
      )
      refl

fewest : (n l : ℕ) → FewestPages n (suc l) (pos ((n + l) / suc l))
fewest n l =
    let room : n + l < (n + l) / suc l * suc l + suc l = lt-div-mul-add (omega arith) in
    let within : (n + l) / suc l * suc l ≤ n + l = div-mul-le_self (n + l) (suc l) in
    (omega (arith, room), omega (arith, within))

-- For a limit above zero, where the sum of the items and the limit is in the range of an `int`,
-- the number of pages is not negative, so many pages hold all items, and less than a page of them
-- is left empty.
pub total_pages_lem :
    (n l : ℕ) → n + suc l < 2 ^ 63 → FewestPages n (suc l) (total_pages n (pos (suc l)))
total_pages_lem n l h = rw (pages_formula n l h) (fewest n l)

-- A page of the transactions that match, the newest first, and their number.
pub record Listed (type status : Option String) (size skipped : ℕ) (d : Database)
    (r : TransactionListResponse) : Type 0 where
  pub rows :
      r.transactions
      ≡ map transaction_response
          (map map_transaction (page size skipped (newest (matching type status d))))
  pub items : r.pagination.total_items ≡ pos (length (matching type status d))
  pub per_page : r.pagination.per_page ≡ pos size

-- The page that is asked for, in range.
pub asked_page :
    {A B : Type 0} (f : A → B) (p l : ℕ) (rows : ℕ → ℕ → Database → List A) (count : Database → ℕ)
    (d : Database) (r : List B × ℕ)
    → p < 2 ^ 31
    → suc l < 2 ^ 31
    → p * suc l < 2 ^ 31
    → Paged f
        (set_defaults (record { page = pos (suc p); limit = pos (suc l) })).limit
        (offset (set_defaults (record { page = pos (suc p); limit = pos (suc l) })))
        rows
        count
        d
        r
    → (r.0 ≡ map f (rows (suc l) (p * suc l) d)) × (r.1 ≡ count d)
asked_page f p l rows count d r hp hl hpl k =
    let size : k.size ≡ suc l =
      sized (suc l) k.size hl
        (subst (λ x. bound (int32 x) ≡ ok k.size) (limit_lem p l) k.size_is) in
    let skipped : k.skipped ≡ p * suc l = sized (p * suc l) k.skipped hpl (
      subst (λ x. bound (int32 x) ≡ ok k.skipped)
        (offset_lem p l (omega (arith, hp)) (omega (arith, hpl))) k.skipped_is) in
    (k.listed ∙ ap₂ (λ i j. map f (rows i j d)) size skipped, k.total)

module _ (env : Env) where
  find_all-Matched :
      (type status : Option String) (limit offset : ℤ)
      → Reads (Transactions.find_all env type status limit offset) (
          Paged map_transaction limit offset
            (λ l o d. page l o (newest (matching type status d)))
            (λ d. length (matching type status d)))
  unfolding Transactions.find_all find_all_transactions_by_type_and_status
      count_all_transactions_by_type_and_status find_all_transactions_by_type
      count_all_transactions_by_type find_all_transactions_by_status
      count_all_transactions_by_status find_all_transactions count_all_transactions
  find_all-Matched (some type) (some status) limit offset =
      list_page-Paged env _ _ map_transaction limit offset _ _
  find_all-Matched (some type) none limit offset =
      Reads-weaken
        (list_page-Paged env _ _ map_transaction limit offset (find_all_transactions_by_type type)
          (count_all_transactions_by_type type))
        (λ d r k.
          repaged map_transaction newest limit offset d _ _ r k
            (keep_same _ _ d.transactions (λ t. sym (and_true _))))
  find_all-Matched none (some status) limit offset =
      list_page-Paged env _ _ map_transaction limit offset _ _
  find_all-Matched none none limit offset =
      Reads-weaken
        (list_page-Paged env _ _ map_transaction limit offset find_all_transactions
          count_all_transactions)
        (λ d r k.
          repaged map_transaction newest limit offset d (λ e. e.transactions) (matching none none) r
            k (sym (keep_all _ d.transactions (λ t. refl))))

  answers :
      (type status : Option String) (request : PaginationRequest)
      → Reads (get_all_transactions env type status request) (λ d r.
        (listed : List Transaction × ℕ) × Paged map_transaction
          (set_defaults request).limit
          (offset (set_defaults request))
          (λ l o e. page l o (newest (matching type status e)))
          (λ e. length (matching type status e))
          d
          listed
        × (r ≡ record {
          transactions = map transaction_response listed.0;
          pagination = pagination_response (set_defaults request) listed.1;
        }))
  unfolding get_all_transactions
  answers type status request = Reads-bind (find_all-Matched type status _ _) λ listed. Reads-pure _

  -- For a page and a limit above zero, with the page, the limit and the offset in the range of an
  -- `int32`, the list that `GetAllTransactions` answers is that page of the transactions that pass
  -- both filters, the newest first, and its count is the number of all that pass; each filter may
  -- be missing.
  pub get_all_transactions-Listed :
      (type status : Option String) (p l : ℕ) (w : World) (r : TransactionListResponse)
      → p < 2 ^ 31
      → suc l < 2 ^ 31
      → p * suc l < 2 ^ 31
      → (get_all_transactions env type status
          (record { page = pos (suc p); limit = pos (suc l) })
          w).0
        ≡ ok r
      → Listed type status (suc l) (p * suc l) w.db r
  unfolding pagination_response
  get_all_transactions-Listed type status p l w r hp hl hpl h =
      let asked = answers type status (record { page = pos (suc p); limit = pos (suc l) }) in
      let (listed, k, same) = asked.finds w r h in
      let (rows, total) = asked_page map_transaction p l _ _ w.db listed hp hl hpl k in
      record {
        rows =
            ap (λ (x : TransactionListResponse). x.transactions) same
            ∙ ap (map transaction_response) rows;
        items = ap (λ (x : TransactionListResponse). x.pagination.total_items) same ∙ ap pos total;
        per_page = ap (λ (x : TransactionListResponse). x.pagination.per_page) same ∙ limit_lem p l;
      }
