-- ===== src/Middleware/Auth.antt =====
-- What the handlers take from internal/middleware/auth_middleware.go.
use wallet_ledger_service.Common.{String, none, some}
use wallet_ledger_service.Model.{Uuid}
use wallet_ledger_service.Http.{uuid, text, Context}

-- A value of the context, or the text of an error.
pub data Fetched (A : Type 0) : Type 0 where
  got : A → Fetched A
  missing : String → Fetched A

unfoldable pub get_user_id_from_context : Context → Fetched Uuid
get_user_id_from_context c = elim c.user_id [
  | none ↦ missing "user ID not found in context"
  | some (uuid id) ↦ got id
  | some (text s) ↦ missing "user ID in context is not a valid UUID"
]

unfoldable pub get_email_from_context : Context → Fetched String
get_email_from_context c = elim c.email [
  | none ↦ missing "email not found in context"
  | some (uuid id) ↦ missing "email in context is not a valid string"
  | some (text s) ↦ got s
]
