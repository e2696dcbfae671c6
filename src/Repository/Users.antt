-- ===== src/Repository/Users.antt =====
-- internal/repository/user_repository.go
use wallet_ledger_service.Common.{ℕ, String, Option, some, List}
use wallet_ledger_service.Common.Int.{ℤ}
use wallet_ledger_service.Model.{Uuid, User, UserWithWallet}
use wallet_ledger_service.Database.{UserRow}
use wallet_ledger_service.Sql.Users.{
  create_user, find_user_by_email, find_user_by_id, FindAllUsersRow, find_all_users,
  count_all_users,
}
use wallet_ledger_service.World.{Env, M, Handle, no_tx, query, wrap, ◌>>=◌, pure}
use wallet_ledger_service.Repository.Common.{
  numeric_to_decimal, valid_or_zero, valid_or_empty, find_row, list_page,
}

unfoldable pub map_user : UserRow → User
map_user u = record {
  id = valid_or_zero u.id;
  email = u.email;
  password_hash = u.password_hash;
  role = u.role;
  created_at = valid_or_zero u.created_at;
  updated_at = valid_or_zero u.updated_at;
}

unfoldable pub map_find_all_users_row : FindAllUsersRow → UserWithWallet
map_find_all_users_row u = record {
  user = record {
    id = valid_or_zero u.id;
    email = u.email;
    password_hash = "";
    role = u.role;
    created_at = valid_or_zero u.created_at;
    updated_at = valid_or_zero u.updated_at;
  };
  wallet_id = valid_or_empty u.wallet_id;
  wallet_balance = numeric_to_decimal u.wallet_balance;
}

module _ (env : Env) where
  unfoldable pub create : Handle → String → String → String → M User
  create h email password_hash role = do
    row ←
        wrap "create user query failed"
          (query env h λ n. create_user (env.new_uuid n) (env.now n) email password_hash role)
    pure (map_user row)

  unfoldable pub find_by_email : String → M (Option User)
  find_by_email email =
      find_row env no_tx "find user by email query failed" map_user (find_user_by_email email)

  unfoldable pub find_by_id : Uuid → M (Option User)
  find_by_id id =
      find_row env no_tx "find user by id query failed" map_user (find_user_by_id (some id))

  unfoldable pub find_all : ℤ → ℤ → M (List UserWithWallet × ℕ)
  find_all limit offset =
      list_page env "find all users query failed" "count all users query failed"
        map_find_all_users_row limit offset find_all_users count_all_users
