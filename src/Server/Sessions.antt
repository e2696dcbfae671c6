-- ===== src/Server/Sessions.antt =====
-- The token of a login at the guard of the protected routes.
use wallet_ledger_service.Common.{String, ◌≡◌, sym, ap, ◌∙◌, some, ◌+◌, ◌<◌}
use wallet_ledger_service.Model.{Uuid, Time}
use wallet_ledger_service.Failure.{ok}
use wallet_ledger_service.World.{Env, World}
use wallet_ledger_service.Dto.Bodies.{LoginRequest, LoginResponse}
use wallet_ledger_service.Http.{Context, text}
use wallet_ledger_service.Middleware.Auth.{got, get_user_id_from_context}
use wallet_ledger_service.Middleware.Site.{Site, Chain, tick}
use wallet_ledger_service.Middleware.Jwt.{Jwt, generate_token, jwt_auth}
use wallet_ledger_service.Middleware.Jwt.RoundTrip.{Accepts, jwt_auth-generate_token}
use wallet_ledger_service.Service.Auth.{login}
use wallet_ledger_service.Service.Auth.LoggingIn.{login-LoggedIn}

module _ (env : Env) (jwt : Jwt) (accepts : Accepts jwt) (secret : String)
    (created expiration : Time) where
  -- Where tokens are signed by `GenerateToken` and the library parses what it has signed under the
  -- same key until it expires, the token of a login in the cookie lets a request through `JWTAuth`
  -- before it expires, and the context then holds the user id and the role of the login's
  -- response.
  pub login-jwt_auth :
      (req : LoginRequest) (w : World) (res : LoginResponse) (token : String)
      → ((id : Uuid) (email role : String)
          → env.sign_token id email role
            ≡ generate_token jwt created id email role secret expiration)
      → (login env req w).0 ≡ ok (res, token)
      → (next : Chain) (c : Context) (s : Site) → c.cookie "accessToken" ≡ some token
      → env.now s.world.calls < jwt.numeric_date (created + expiration)
      → (c' : Context) × (jwt_auth env jwt secret next c s ≡ next c' (tick s))
        × (get_user_id_from_context c' ≡ got res.user_id)
        × (c'.role ≡ some (text res.role))
  login-jwt_auth req w res token signs h next c s held live =
      let (same, (e, k, q)) = login-LoggedIn env req w (res, token) h in
      let (c', passes, id, role) =
        jwt_auth-generate_token jwt accepts created k.user.id k.user.email k.user.role secret token
          expiration env next c s (sym (signs k.user.id k.user.email k.user.role) ∙ k.signed) held
          live in
      (
        c',
        passes,
        id ∙ ap (λ (r : LoginResponse). got r.user_id) (sym k.answer),
        role ∙ ap (λ (r : LoginResponse). some (text r.role)) (sym k.answer),
      )
