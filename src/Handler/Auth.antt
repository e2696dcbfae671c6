-- ===== src/Handler/Auth.antt =====
-- internal/handler/auth_handler.go
use wallet_ledger_service.Common.{ℕ, Bool, none, some, [], if◌then◌else◌}
use wallet_ledger_service.Failure.{Error, is_error, email_conflict, invalid_credentials}
use wallet_ledger_service.World.{Env}
use wallet_ledger_service.Dto.{PaginationRequest}
use wallet_ledger_service.Dto.Bodies.{RegisterRequest, LoginRequest}
use wallet_ledger_service.Http.{
  Bound, Reply, Wire, text_of, write_success, write_error, no_payload, register_payload,
  login_payload, users_payload,
}
use wallet_ledger_service.Handler.Replies.{Serve, reply, with_bound, internal_error, settle}
use wallet_ledger_service.Service.Auth.{register, login, get_all_users}

pub record AuthHandler : Type 0 where
  pub jwt_expiry : ℕ
  pub secure : Bool

module _ (wire : Wire) where
  unfoldable pub register_error : Error → Reply
  register_error e =
      if is_error e email_conflict then write_error 409 (text_of wire e) [] else internal_error

  unfoldable pub login_error : Error → Reply
  login_error e =
      if is_error e invalid_credentials then write_error 401 (text_of wire e) [] else internal_error

  module _ (env : Env) (h : AuthHandler) where
    unfoldable pub handle_register : Bound RegisterRequest → Serve
    handle_register body = with_bound body λ req.
        settle register_error
          (λ res. write_success 201 "User registered successfully" (register_payload res))
          (register env req)

    -- The cookie is the token's, for as long as the token lasts.
    unfoldable pub handle_login : Bound LoginRequest → Serve
    handle_login body = with_bound body λ req.
        settle login_error
          (λ res. record (write_success 200 "Login successful" (login_payload res.0)) {
            cookie =
                some (record { value = res.1; max_age = some h.jwt_expiry; secure = h.secure });
          })
          (login env req)

    -- A negative age deletes the cookie.
    unfoldable pub handle_logout : Serve
    handle_logout = reply (record (write_success 200 "Logout successful" no_payload) {
      cookie = some (record { value = ""; max_age = none; secure = h.secure });
    })

    unfoldable pub handle_get_users_admin : Bound PaginationRequest → Serve
    handle_get_users_admin query = with_bound query λ pagination.
        settle (λ e. internal_error)
          (λ res. write_success 200 "Users retrieved successfully" (users_payload res))
          (get_all_users env pagination)
