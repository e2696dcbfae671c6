-- ===== src/Server.antt =====
-- The routes of cmd/server/main.go, with the middleware in front of each.
pub mod Access
pub mod Sessions
use wallet_ledger_service.Common.{
  ℕ, String, Bool, true, false, Option, none, some, List, [], ◌∷◌, first, str_eq, ◌&&◌, ◌*◌,
  if◌then◌else◌,
}
use wallet_ledger_service.World.{Env}
use wallet_ledger_service.Dto.{PaginationRequest}
use wallet_ledger_service.Dto.Bodies.{RegisterRequest, LoginRequest, TopUpRequest, TransferRequest}
use wallet_ledger_service.Http.{Context, Bound, Reply, Answer, Wire}
use wallet_ledger_service.Middleware.Site.{Site, Chain, endpoint, abort, second}
use wallet_ledger_service.Middleware.Cors.{cors}
use wallet_ledger_service.Middleware.RateLimit.{rate_limit}
use wallet_ledger_service.Middleware.Jwt.{Jwt, jwt_auth, role_guard}
use wallet_ledger_service.Middleware.Idempotency.{CacheJson, idempotency}
use wallet_ledger_service.Middleware.Audit.{audit_log}
use wallet_ledger_service.Handler.Auth.{
  AuthHandler, handle_register, handle_login, handle_logout, handle_get_users_admin,
}
use wallet_ledger_service.Handler.Wallets.{handle_get_my_wallet, handle_get_ledger_entries}
use wallet_ledger_service.Handler.Transactions.{
  handle_top_up, handle_transfer, handle_get_transactions, handle_get_transaction_detail,
  handle_get_transactions_admin, handle_get_transaction_detail_admin,
}
use wallet_ledger_service.Handler.Feeds.{
  handle_get_audit_logs, handle_get_audit_logs_admin, handle_get_notifications, handle_mark_as_read,
  handle_clear_all,
}

-- A request with what gin's binding makes of its body and its query for each type.
pub record Request : Type 0 where
  pub context : Context
  pub register_body : Bound RegisterRequest
  pub login_body : Bound LoginRequest
  pub top_up_body : Bound TopUpRequest
  pub transfer_body : Bound TransferRequest
  pub pagination : Bound PaginationRequest

-- `path_matches` is gin's test of a pattern, `no_route` its reply where there is none, and
-- `stream_notifications` the handler of the event stream.
pub record Server : Type 0 where
  pub env : Env
  pub wire : Wire
  pub json : CacheJson
  pub jwt : Jwt
  pub jwt_secret : String
  pub auth_handler : AuthHandler
  pub path_matches : String → String → Bool
  pub no_route : Reply
  pub stream_notifications : Chain

pub data Route : Type 0 where
  register_route login_route logout_route my_wallet_route top_up_route transfer_route : Route
  transactions_route transaction_detail_route ledger_entries_route audit_logs_route : Route
  notifications_route mark_as_read_route clear_all_route stream_route : Route
  admin_users_route admin_transactions_route admin_transaction_detail_route : Route
  admin_audit_logs_route : Route

abbrev pub routes : List Route
routes =
    register_route ∷ login_route ∷ logout_route ∷ my_wallet_route ∷ top_up_route ∷ transfer_route
    ∷ transactions_route ∷ transaction_detail_route ∷ ledger_entries_route ∷ audit_logs_route
    ∷ notifications_route ∷ mark_as_read_route ∷ clear_all_route ∷ stream_route ∷ admin_users_route
    ∷ admin_transactions_route ∷ admin_transaction_detail_route ∷ admin_audit_logs_route ∷ []

-- The method and the pattern of a route.
abbrev pub method_of : Route → String
method_of register_route = "POST"
method_of login_route = "POST"
method_of logout_route = "POST"
method_of top_up_route = "POST"
method_of transfer_route = "POST"
method_of mark_as_read_route = "PATCH"
method_of clear_all_route = "DELETE"
method_of _ = "GET"

abbrev pub pattern_of : Route → String
pattern_of register_route = "/api/v1/auth/register"
pattern_of login_route = "/api/v1/auth/login"
pattern_of logout_route = "/api/v1/auth/logout"
pattern_of my_wallet_route = "/api/v1/wallets/me"
pattern_of top_up_route = "/api/v1/wallets/topup"
pattern_of transfer_route = "/api/v1/transfers"
pattern_of transactions_route = "/api/v1/transactions"
pattern_of transaction_detail_route = "/api/v1/transactions/:transactionId"
pattern_of ledger_entries_route = "/api/v1/ledger/entries"
pattern_of audit_logs_route = "/api/v1/audit/logs"
pattern_of notifications_route = "/api/v1/notifications"
pattern_of mark_as_read_route = "/api/v1/notifications/:id/read"
pattern_of clear_all_route = "/api/v1/notifications"
pattern_of stream_route = "/api/v1/notifications/stream"
pattern_of admin_users_route = "/api/v1/admin/users"
pattern_of admin_transactions_route = "/api/v1/admin/transactions"
pattern_of admin_transaction_detail_route = "/api/v1/admin/transactions/:transactionId"
pattern_of admin_audit_logs_route = "/api/v1/admin/audit-logs"

module _ (sv : Server) where
  -- The groups of routes.
  unfoldable pub protected : Chain → Chain
  protected next = jwt_auth sv.env sv.jwt sv.jwt_secret (audit_log sv.env next)

  unfoldable pub idempotent : Chain → Chain
  idempotent next = protected (idempotency sv.env sv.wire sv.json next)

  unfoldable pub admin : Chain → Chain
  admin next = protected (role_guard ("ADMIN" ∷ []) next)

  unfoldable pub chain_of : Request → Route → Chain
  chain_of q register_route =
      endpoint λ c. handle_register sv.wire sv.env sv.auth_handler q.register_body
  chain_of q login_route = endpoint λ c. handle_login sv.wire sv.env sv.auth_handler q.login_body
  chain_of q logout_route = protected (endpoint λ c. handle_logout sv.wire sv.env sv.auth_handler)
  chain_of q my_wallet_route = protected (endpoint λ c. handle_get_my_wallet sv.env c sv.wire)
  chain_of q top_up_route = idempotent (endpoint λ c. handle_top_up sv.wire sv.env c q.top_up_body)
  chain_of q transfer_route =
      idempotent (endpoint λ c. handle_transfer sv.wire sv.env c q.transfer_body)
  chain_of q transactions_route =
      protected (endpoint λ c. handle_get_transactions sv.wire sv.env c q.pagination)
  chain_of q transaction_detail_route =
      protected (endpoint λ c. handle_get_transaction_detail sv.wire sv.env c)
  chain_of q ledger_entries_route =
      protected (endpoint λ c. handle_get_ledger_entries sv.env c q.pagination)
  chain_of q audit_logs_route =
      protected (endpoint λ c. handle_get_audit_logs sv.env c q.pagination)
  chain_of q notifications_route =
      protected (endpoint λ c. handle_get_notifications sv.env c q.pagination)
  chain_of q mark_as_read_route = protected (endpoint λ c. handle_mark_as_read sv.env c sv.wire)
  chain_of q clear_all_route = protected (endpoint λ c. handle_clear_all sv.env c)
  chain_of q stream_route = protected sv.stream_notifications
  chain_of q admin_users_route =
      admin (endpoint λ c. handle_get_users_admin sv.wire sv.env sv.auth_handler q.pagination)
  chain_of q admin_transactions_route =
      admin (endpoint λ c. handle_get_transactions_admin sv.wire sv.env c q.pagination)
  chain_of q admin_transaction_detail_route =
      admin (endpoint λ c. handle_get_transaction_detail_admin sv.wire sv.env c)
  chain_of q admin_audit_logs_route =
      admin (endpoint λ c. handle_get_audit_logs_admin sv.env c sv.wire q.pagination)

  unfoldable pub find_route : Context → Option Route
  find_route c =
      first (λ r. str_eq (method_of r) c.method && sv.path_matches (pattern_of r) c.path) routes

  abbrev on_route : Request → Option Route → Chain
  on_route q none c s = abort sv.no_route s
  on_route q (some r) c s = chain_of q r c s

  -- `gin.Recovery` makes a reply 500 of the answer `panicking`.
  unfoldable pub serve : Request → Site → Answer × Site
  serve q = cors (rate_limit sv.env 100 (60 * second) (on_route q (find_route q.context))) q.context
