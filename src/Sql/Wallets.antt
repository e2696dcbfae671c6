-- ===== src/Sql/Wallets.antt =====
-- database/queries/wallets.sql, with the constraints of 000002_create_wallets_table.up.sql.
use wallet_ledger_service.Common.{
  String, not, ◌&&◌, Option, none, some, [], ◌∷◌, ◌++◌, str_eq, fits, first, exists, update,
  if◌then◌else◌,
}
use wallet_ledger_service.Model.{Uuid, Time, Decimal}
use wallet_ledger_service.Failure.{
  Result, ok, err, no_rows, require, not_null, unique_violation, check_violation,
  foreign_key_violation, value_too_long, ◌>>=◌, ◌>>◌,
}
use wallet_ledger_service.Database.{
  Numeric, WalletRow, UserRow, Database, eq_uuid, store, is_nonneg,
}

pub record CreateWalletParams : Type 0 where
  pub id : String
  pub user_id : Option Uuid
  pub balance : Numeric
  pub currency : String

-- `:one`
abbrev pub one : {A : Type 0} → Option A → Result A
one none = err no_rows
one (some a) = ok a

unfoldable pub create_wallet :
    (Decimal → Option Decimal)
    → Time
    → CreateWalletParams
    → Database
    → Result (WalletRow × Database)
create_wallet column now p d = do
  require (fits 20 p.id && fits 3 p.currency) value_too_long
  owner ← not_null p.user_id
  balance ← store column p.balance
  require (is_nonneg balance) check_violation
  require (not (exists (λ (w : WalletRow). str_eq w.id p.id) d.wallets)) unique_violation
  require (not (exists (λ (w : WalletRow). eq_uuid w.user_id (some owner)) d.wallets))
      unique_violation
  require (exists (λ (u : UserRow). eq_uuid u.id (some owner)) d.users) foreign_key_violation
  let row : WalletRow = record {
    id = p.id;
    user_id = some owner;
    balance = balance;
    currency = p.currency;
    created_at = some now;
    updated_at = some now;
  }
  ok (row, record d { wallets = d.wallets ++ row ∷ [] })

unfoldable pub find_wallet_by_user_id : Option Uuid → Database → Result WalletRow
find_wallet_by_user_id user_id d = one (first (λ w. eq_uuid w.user_id user_id) d.wallets)

unfoldable pub find_wallet_by_id : String → Database → Result WalletRow
find_wallet_by_id id d = one (first (λ w. str_eq w.id id) d.wallets)

-- `FOR UPDATE` takes the row's lock and reads as above.
unfoldable pub find_wallet_by_id_for_update : String → Database → Result WalletRow
find_wallet_by_id_for_update id d = one (first (λ w. str_eq w.id id) d.wallets)

-- `SET balance = $2, updated_at = NOW()`
abbrev pub set_balance : Numeric → Time → WalletRow → WalletRow
set_balance balance now w = record w { balance = balance; updated_at = some now }

-- An id that no row has is no error, and then no row is checked.
unfoldable pub update_wallet_balance :
    (Decimal → Option Decimal) → Time → String → Numeric → Database → Result Database
update_wallet_balance column now id balance d =
    if exists (λ w. str_eq w.id id) d.wallets
    then (do
      kept ← store column balance
      require (is_nonneg kept) check_violation
      ok (record d { wallets = update (λ w. str_eq w.id id) (set_balance kept now) d.wallets }))
    else ok d
