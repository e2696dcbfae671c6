-- ===== src/Handler/Replies.antt =====
-- The early returns that the handlers share.
pub mod Outcomes
use wallet_ledger_service.Common.{String, ℕ, Bool, Option, none, some, [], str_eq, if◌then◌else◌}
use wallet_ledger_service.Model.{Uuid}
use wallet_ledger_service.Failure.{Error, Result, ok, err, is_panic}
use wallet_ledger_service.Dto.Validation.{format_validation_errors}
use wallet_ledger_service.World.{World, M}
use wallet_ledger_service.Http.{
  Context, Bound, bound, refused, Reply, Answer, replied, panicking, write_error,
}
use wallet_ledger_service.Middleware.Auth.{got, missing, get_user_id_from_context}

abbrev pub Serve : Type 0
Serve = World → Answer × World

abbrev pub reply : Reply → Serve
reply r w = (replied r, w)

-- `userID, err := middleware.GetUserIDFromContext(c)`
unfoldable pub with_user : Context → (Uuid → Serve) → Serve
with_user c f = elim (get_user_id_from_context c) [
  | got id ↦ f id
  | missing message ↦ reply (write_error 401 message [])
]

-- `if err := c.ShouldBind…(&req); err != nil`
unfoldable pub with_bound : {B : Type 0} → Bound B → (B → Serve) → Serve
with_bound (bound b) f = f b
with_bound (refused e) f = reply (write_error 400 "Validation failed" (format_validation_errors e))

-- `if t := c.Query(name); t != "" { p = &t }`
abbrev pub optional_query : Context → String → Option String
optional_query c name = if str_eq (c.query name) "" then none else some (c.query name)

abbrev pub internal_error : Reply
unfolding write_error
internal_error = write_error 500 "Internal server error" []

-- What becomes of a service's result; a panic passes the handler by.
abbrev pub answer : {A : Type 0} → (Error → Reply) → (A → Reply) → Result A → Answer
answer bad good (ok a) = replied (good a)
answer bad good (err e) = if is_panic e then panicking else replied (bad e)

unfoldable pub settle : {A : Type 0} → (Error → Reply) → (A → Reply) → M A → Serve
settle bad good m w = (answer bad good (m w).0, (m w).1)
