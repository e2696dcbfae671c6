-- ===== src/Service/Auth.antt =====
-- internal/service/auth_service.go
pub mod Registering
pub mod LoggingIn
use wallet_ledger_service.Common.{String, Option, none, some, Bool, true, false, not, map}
use wallet_ledger_service.Common.Int.{pos}
use wallet_ledger_service.Model.{UserWithWallet, user_role_user}
use wallet_ledger_service.Failure.{
  Error, ok, err, email_conflict, invalid_credentials, hash_failed, sign_failed,
}
use wallet_ledger_service.World.{
  Env, M, EventData, in_tx, or_fail, or_raise, raise_if, wrap, begin, commit, with_rollback,
  read_clock, pure, ◌>>=◌, ◌>>◌,
}
use wallet_ledger_service.Repository.Users
use wallet_ledger_service.Repository.Wallets
use wallet_ledger_service.Utils.Ids.{generate_wallet_id}
use wallet_ledger_service.Dto.{PaginationRequest, set_defaults, offset, pagination_response}
use wallet_ledger_service.Dto.Bodies.{
  RegisterRequest, RegisterResponse, LoginRequest, LoginResponse, AdminUserListResponse,
}
use wallet_ledger_service.Service.Events.{publish_event}

abbrev pub is_some : {A : Type 0} → Option A → Bool
is_some none = false
is_some (some a) = true

module _ (env : Env) where
  -- What runs between `Begin` and the deferred rollback.
  unfoldable pub register_in_tx : RegisterRequest → String → M RegisterResponse
  register_in_tx req pwd_hash = do
    user ← Users.create env in_tx req.email pwd_hash user_role_user
    wallet_id ← wrap "failed to generate wallet ID" (generate_wallet_id env)
    created ← read_clock env
    updated ← read_clock env
    wallet ← Wallets.create env in_tx (record {
      id = wallet_id;
      user_id = user.id;
      balance = pos 0;
      currency = "IDR";
      created_at = created;
      updated_at = updated;
    })
    wrap "failed to commit transaction" (commit env)
    publish_event env "REGISTER" user.id (EventData.register wallet_id)
    pure (record {
      user_id = user.id;
      email = user.email;
      wallet_id = wallet_id;
      created_at = user.created_at;
    })

  unfoldable pub register : RegisterRequest → M RegisterResponse
  register req = do
    existing ← Users.find_by_email env req.email
    raise_if (is_some existing) email_conflict
    pwd_hash ← wrap "failed to hash password" (or_fail (env.hash_password req.password) hash_failed)
    wrap "failed to begin transaction" (begin env)
    with_rollback (register_in_tx req pwd_hash)

  -- The response and the token.
  unfoldable pub login : LoginRequest → M (LoginResponse × String)
  login req = do
    found ← Users.find_by_email env req.email
    user ← or_raise found invalid_credentials
    raise_if (not (env.check_password req.password user.password_hash)) invalid_credentials
    token ←
        wrap "failed to generate token"
          (or_fail (env.sign_token user.id user.email user.role) sign_failed)
    publish_event env "LOGIN" user.id EventData.nil
    pure (record { user_id = user.id; email = user.email; role = user.role }, token)

  unfoldable pub get_all_users : PaginationRequest → M AdminUserListResponse
  get_all_users pagination = do
    let p = set_defaults pagination
    listed ← Users.find_all env p.limit (offset p)
    pure (record {
      users =
          map
            (λ (u : UserWithWallet). record {
              user_id = u.user.id;
              email = u.user.email;
              role = u.user.role;
              wallet_id = u.wallet_id;
              balance = u.wallet_balance;
              created_at = u.user.created_at;
            })
            listed.0;
      pagination = pagination_response p listed.1;
    })
