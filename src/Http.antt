-- ===== src/Http.antt =====
-- A request as gin hands it to the handlers, and internal/utils/response.go.
use wallet_ledger_service.Common.{ℕ, String, Bool, Option, none, List, []}
use wallet_ledger_service.Model.{Uuid}
use wallet_ledger_service.Failure.{Error, error_text}
use wallet_ledger_service.Dto.Bodies.{
  TopUpResponse, TransferResponse, TransactionDetailResponse, TransactionListResponse,
  LedgerListResponse, WalletResponse, RegisterResponse, LoginResponse, AdminUserListResponse,
}
use wallet_ledger_service.Dto.Feeds.{AuditLogListResponse, NotificationListResponse}
use wallet_ledger_service.Dto.Validation.{BindError}

-- A value that a middleware has set on the context.
pub data Value : Type 0 where
  uuid : Uuid → Value
  text : String → Value

-- `*gin.Context` on the way in: an absent header, query or path parameter is empty.
pub record Context : Type 0 where
  pub method : String
  pub path : String
  pub client_ip : String
  pub cookie : String → Option String
  pub header : String → String
  pub query : String → String
  pub param : String → String
  pub user_id : Option Value
  pub email : Option Value
  pub role : Option Value

-- What `ShouldBindJSON` and `ShouldBindQuery` make of a request.
pub data Bound (A : Type 0) : Type 0 where
  bound : A → Bound A
  refused : BindError → Bound A

-- The `data` of a response; `no_payload` is nil.
pub data Payload : Type 0 where
  no_payload : Payload
  top_up_payload : TopUpResponse → Payload
  transfer_payload : TransferResponse → Payload
  transactions_payload : TransactionListResponse → Payload
  detail_payload : TransactionDetailResponse → Payload
  wallet_payload : WalletResponse → Payload
  ledger_payload : LedgerListResponse → Payload
  audit_payload : AuditLogListResponse → Payload
  notifications_payload : NotificationListResponse → Payload
  register_payload : RegisterResponse → Payload
  login_payload : LoginResponse → Payload
  users_payload : AdminUserListResponse → Payload

-- `SuccessResponse`, `ErrorResponse`, bytes as they are, or nothing.
pub data Body : Type 0 where
  success : String → Payload → Body
  failure : String → ℕ → List String → Body
  raw : String → Body
  no_body : Body

-- The cookie `accessToken`: its value and its age.
pub record Cookie : Type 0 where
  pub value : String
  pub max_age : Option ℕ
  pub secure : Bool

pub record Reply : Type 0 where
  pub status : ℕ
  pub body : Body
  pub cookie : Option Cookie
  pub headers : List (String × String)

-- A handler replies, or it panics.
pub data Answer : Type 0 where
  replied : Reply → Answer
  panicking : Answer

unfoldable pub write_success : ℕ → String → Payload → Reply
write_success status message payload = record {
  status = status;
  body = success message payload;
  cookie = none;
  headers = [];
}

unfoldable pub write_error : ℕ → String → List String → Reply
write_error status message errors = record {
  status = status;
  body = failure message status errors;
  cookie = none;
  headers = [];
}

-- What the libraries around the handlers do: `uuid.Parse`, the texts of their errors, JSON.
pub record Wire : Type 0 where
  pub parse_uuid : String → Option Uuid
  pub fault_text : Error → String
  pub encode : Body → String

-- The bytes of a body.
abbrev pub bytes : Wire → Body → String
bytes wire (raw s) = s
bytes wire no_body = ""
bytes wire b = wire.encode b

-- `err.Error()`
abbrev pub text_of : Wire → Error → String
text_of wire e = error_text wire.fault_text e
