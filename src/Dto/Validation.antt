-- ===== src/Dto/Validation.antt =====
-- `FormatValidationErrors` of internal/dto/validator.go. What the validator reports of a field is the
-- library's.
use Prim.Native.String
use wallet_ledger_service.Common.{String, List, [], ◌∷◌, map, str_eq, if◌then◌else◌}

pub record FieldError : Type 0 where
  pub field : String
  pub tag : String
  pub parameter : String

-- Why gin has not bound a request: the validator's errors, or another error by its text.
pub data BindError : Type 0 where
  validation_errors : List FieldError → BindError
  other_error : String → BindError

infixr 65 ◌<>◌
abbrev ◌<>◌ : String → String → String
s <> t = String.◌++◌ s t

-- The `switch` on the tag.
unfoldable pub field_message : FieldError → String
field_message e =
    if str_eq e.tag "required"
    then e.field <> " is required"
    else if str_eq e.tag "email"
    then e.field <> " must be a valid email"
    else if str_eq e.tag "min"
    then e.field <> " must be at least " <> e.parameter <> " characters"
    else if str_eq e.tag "eqfield"
    then e.field <> " must equal " <> e.parameter
    else if str_eq e.tag "gt"
    then e.field <> " must be greater than " <> e.parameter
    else e.field <> " is invalid: " <> e.tag

unfoldable pub format_validation_errors : BindError → List String
format_validation_errors (validation_errors es) = map field_message es
format_validation_errors (other_error text) = text ∷ []
