-- ===== src/Middleware/Jwt.antt =====
-- internal/utils/jwt.go, and the two guards of internal/middleware/auth_middleware.go.
pub mod RoundTrip
use wallet_ledger_service.Common.{
  ℕ, String, Bool, true, false, not, Option, none, some, List, [], ◌∷◌, exists, str_eq, ◌+◌, ◌||◌,
  if◌then◌else◌,
}
use wallet_ledger_service.Model.{Uuid, Time}
use wallet_ledger_service.World.{Env}
use wallet_ledger_service.Http.{Context, Value, uuid, text, write_error}
use wallet_ledger_service.Middleware.Site.{Site, Chain, abort, tick}

pub record Claims : Type 0 where
  pub user_id : Uuid
  pub email : String
  pub role : String
  pub expires_at : Time
  pub issued_at : Time

-- `token.Method`, as far as `ParseToken` asks.
pub data SigningMethod : Type 0 where
  hmac other_method : SigningMethod

-- What `jwt.ParseWithClaims` returns without an error; `claims` is none if they are not `*Claims`.
pub record Token : Type 0 where
  pub claims : Option Claims
  pub valid : Bool

-- github.com/golang-jwt/jwt: the arguments of `parse_with_claims` are the key function, the time and
-- the text.
pub record Jwt : Type 0 where
  pub numeric_date : Time → Time
  pub signed_string : Claims → String → Option String
  pub parse_with_claims : (SigningMethod → Option String) → Time → String → Option Token

unfoldable pub generate_token : Jwt → Time → Uuid → String → String → String → Time → Option String
generate_token jwt now user_id email role secret expiration =
    jwt.signed_string
      (record {
        user_id = user_id;
        email = email;
        role = role;
        expires_at = jwt.numeric_date (now + expiration);
        issued_at = jwt.numeric_date now;
      })
      secret

abbrev pub key_of : String → SigningMethod → Option String
key_of secret hmac = some secret
key_of secret other_method = none

abbrev token_claims : Option Token → Option Claims
token_claims none = none
token_claims (some t) = if t.valid then t.claims else none

unfoldable pub parse_token : Jwt → Time → String → String → Option Claims
parse_token jwt now token_string secret =
    token_claims (jwt.parse_with_claims (key_of secret) now token_string)

abbrev pub with_claims : Context → Claims → Context
with_claims c claims = record c {
  user_id = some (uuid claims.user_id);
  email = some (text claims.email);
  role = some (text claims.role);
}

unfoldable pub jwt_auth : Env → Jwt → String → Chain → Chain
jwt_auth env jwt secret next c s = elim (c.cookie "accessToken") [
  | none ↦ abort (write_error 401 "Unauthorized: please login first" []) s
  | some token ↦ elim (parse_token jwt (env.now s.world.calls) token secret) [
    | none ↦ abort (write_error 401 "Unauthorized: invalid or expired token" []) (tick s)
    | some claims ↦ next (with_claims c claims) (tick s)
  ]
]

unfoldable pub role_guard : List String → Chain → Chain
role_guard allowed_roles next c s = elim c.role [
  | none ↦ abort (write_error 401 "Unauthorized: role not found" []) s
  | some (uuid id) ↦ abort (write_error 401 "Unauthorized: invalid role type" []) s
  | some (text role) ↦
      if exists (λ r. str_eq r role) allowed_roles
      then next c s
      else abort
          (write_error 403 "Forbidden: you do not have permission to access this resource" []) s
]
