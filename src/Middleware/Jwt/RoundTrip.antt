-- ===== src/Middleware/Jwt/RoundTrip.antt =====
-- A token of `GenerateToken` at the guard `JWTAuth`.
use wallet_ledger_service.Common.{String, ◌≡◌, refl, Option, some, true, ◌+◌, ◌<◌}
use wallet_ledger_service.Model.{Uuid, Time}
use wallet_ledger_service.World.{Env}
use wallet_ledger_service.Http.{Context, text}
use wallet_ledger_service.Middleware.Auth.{got, get_user_id_from_context}
use wallet_ledger_service.Middleware.Site.{Site, Chain, tick}
use wallet_ledger_service.Middleware.Jwt.{
  Claims, SigningMethod, hmac, Jwt, generate_token, parse_token, jwt_auth, with_claims,
}

-- A signed text is parsed under the same key until it expires.
abbrev pub Accepts : Jwt → Type 0
Accepts jwt =
    (claims : Claims) (secret token : String) (key : SigningMethod → Option String) (now : Time)
    → jwt.signed_string claims secret ≡ some token
    → key hmac ≡ some secret
    → now < claims.expires_at
    → jwt.parse_with_claims key now token ≡ some (record { claims = some claims; valid = true })

module _ (jwt : Jwt) (accepts : Accepts jwt) (created : Time) (id : Uuid)
    (email role secret token : String) (expiration : Time) where
  abbrev claims : Claims
  claims = record {
    user_id = id;
    email = email;
    role = role;
    expires_at = jwt.numeric_date (created + expiration);
    issued_at = jwt.numeric_date created;
  }

  parse_token-generate_token :
      (now : Time)
      → generate_token jwt created id email role secret expiration ≡ some token
      → now < jwt.numeric_date (created + expiration)
      → parse_token jwt now token secret ≡ some claims
  unfolding generate_token parse_token
  parse_token-generate_token now made live =
      rw (parse_token, accepts claims secret token _ now made refl live) refl

  -- Where the library parses what it has signed, under the same key and until it expires, a token
  -- of `GenerateToken` in the cookie lets the request through `JWTAuth` before it expires, and the
  -- context then holds the user id and the role that the token was made for.
  pub jwt_auth-generate_token :
      (env : Env) (next : Chain) (c : Context) (s : Site)
      → generate_token jwt created id email role secret expiration ≡ some token
      → c.cookie "accessToken" ≡ some token
      → env.now s.world.calls < jwt.numeric_date (created + expiration)
      → (c' : Context) × (jwt_auth env jwt secret next c s ≡ next c' (tick s))
        × (get_user_id_from_context c' ≡ got id)
        × (c'.role ≡ some (text role))
  unfolding jwt_auth get_user_id_from_context
  jwt_auth-generate_token env next c s made held live = (
    with_claims c claims,
    rw (jwt_auth, held, parse_token-generate_token _ made live) refl,
    refl,
    refl,
  )
