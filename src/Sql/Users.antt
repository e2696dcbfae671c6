-- ===== src/Sql/Users.antt =====
-- database/queries/users.sql, with the constraints of 000001_create_users_table.up.sql.
use wallet_ledger_service.Common.{
  ℕ, String, not, ◌&&◌, ◌||◌, Option, none, some, List, [], ◌∷◌, ◌++◌, str_eq, fits, first, exists,
  map, length,
}
use wallet_ledger_service.Model.{Uuid, Time}
use wallet_ledger_service.Failure.{
  Result, ok, require, unique_violation, check_violation, value_too_long, ◌>>◌,
}
use wallet_ledger_service.Database.{Numeric, null, UserRow, WalletRow, Database, eq_uuid}
use wallet_ledger_service.Sql.Order.{order_desc, page}
use wallet_ledger_service.Sql.Wallets.{one}

unfoldable pub create_user :
    Uuid → Time → String → String → String → Database → Result (UserRow × Database)
create_user id now email password_hash role d = do
  require (fits 255 email && fits 255 password_hash && fits 10 role) value_too_long
  require (str_eq role "USER" || str_eq role "ADMIN") check_violation
  require (not (exists (λ (u : UserRow). eq_uuid u.id (some id)) d.users)) unique_violation
  require (not (exists (λ (u : UserRow). str_eq u.email email) d.users)) unique_violation
  let row : UserRow = record {
    id = some id;
    email = email;
    password_hash = password_hash;
    role = role;
    created_at = some now;
    updated_at = some now;
  }
  ok (row, record d { users = d.users ++ row ∷ [] })

unfoldable pub find_user_by_email : String → Database → Result UserRow
find_user_by_email email d = one (first (λ u. str_eq u.email email) d.users)

unfoldable pub find_user_by_id : Option Uuid → Database → Result UserRow
find_user_by_id id d = one (first (λ u. eq_uuid u.id id) d.users)

pub record FindAllUsersRow : Type 0 where
  pub id : Option Uuid
  pub email : String
  pub role : String
  pub created_at : Option Time
  pub updated_at : Option Time
  pub wallet_id : Option String
  pub wallet_balance : Numeric

-- `LEFT JOIN wallets w ON u.id = w.user_id`; `user_id` is unique, so a user joins one row.
unfoldable pub join_wallet : List WalletRow → UserRow → FindAllUsersRow
join_wallet wallets u =
    let found = first (λ w. eq_uuid u.id w.user_id) wallets in
    record {
      id = u.id;
      email = u.email;
      role = u.role;
      created_at = u.created_at;
      updated_at = u.updated_at;
      wallet_id = elim found [ none ↦ none | some w ↦ some w.id ];
      wallet_balance = elim found [ none ↦ null | some w ↦ w.balance ];
    }

unfoldable pub find_all_users : ℕ → ℕ → Database → List FindAllUsersRow
unfolding join_wallet
find_all_users limit offset d =
    page limit offset
      (order_desc (λ (r : FindAllUsersRow). r.created_at) (map (join_wallet d.wallets) d.users))

unfoldable pub count_all_users : Database → ℕ
count_all_users d = length d.users
