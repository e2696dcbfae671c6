-- ===== src/Tests/Guards.antt =====
-- The theorems on tokens, access and the configuration at concrete inputs.
use wallet_ledger_service.Common.Int.{pos}
use wallet_ledger_service.Common.{◌≡◌, refl, ◌↔◌, true, ◌⊎◌, some, [], ◌∷◌, ◌++◌, ⊤, arith}
use wallet_ledger_service.Failure.{ok}
use wallet_ledger_service.World.{
  Env, raise_if, Event, ◌>>=◌, query, or_raise, wrap, pure, spawn_publish,
}
use wallet_ledger_service.Dto.Bodies.{LoginRequest, LoginResponse}
use wallet_ledger_service.Http.{Context, text}
use wallet_ledger_service.Repository.Users
use wallet_ledger_service.Sql.Users.{find_user_by_email}
use wallet_ledger_service.Service.Auth.{login}
use wallet_ledger_service.Service.Auth.LoggingIn.{LoggedIn, login-LoggedIn}
use wallet_ledger_service.Server.Sessions.{login-jwt_auth}
use wallet_ledger_service.Repository.Common.{find_row, optional}
use wallet_ledger_service.Service.Events.{publish_event}
use wallet_ledger_service.Middleware.Auth.{got, get_user_id_from_context}
use wallet_ledger_service.Middleware.Site.{tick}
use wallet_ledger_service.Middleware.Jwt.{generate_token, jwt_auth}
use wallet_ledger_service.Middleware.Jwt.RoundTrip.{jwt_auth-generate_token}
use wallet_ledger_service.Server.{serve, find_route, admin_users_route}
use wallet_ledger_service.Server.Access.{Kept, Presents, before, serve-admin, serve-protected}
use wallet_ledger_service.Config.{Config, load, loaded, value, IsComplete, load-loaded}
use wallet_ledger_service.Tests.Fixtures.{calm, ready}
use wallet_ledger_service.Tests.Outside.{site, jwt, jwt-Accepts, settings, server, asks_for_users}
use wallet_ledger_service.Tests.Serving.{pays}

abbrev ann_asks : Context
ann_asks = asks_for_users.context

made : generate_token jwt 0 1 "ann@example.com" "USER" "secret" 1000 ≡ some "secret"
unfolding generate_token
made = refl

routed : find_route server asks_for_users.context ≡ some admin_users_route
unfolding find_route
routed = refl

jwt_auth-generate_token_example :
    (c' : Context) × (jwt_auth calm jwt "secret" pays ann_asks site ≡ pays c' (tick site))
    × (get_user_id_from_context c' ≡ got 1)
    × (c'.role ≡ some (text "USER"))
jwt_auth-generate_token_example =
    jwt_auth-generate_token jwt jwt-Accepts 0 1 "ann@example.com" "USER" "secret" "secret" 1000 calm
      pays ann_asks site made refl (omega arith)

serve-admin_example :
    (Kept site (serve server asks_for_users site).1
      × (serve server asks_for_users site ≡ before server pays asks_for_users.context site))
    ⊎ Presents server (λ claims. claims.role ≡ "ADMIN") asks_for_users.context
serve-admin_example = serve-admin server asks_for_users site admin_users_route pays routed refl

serve-protected_example :
    Kept site (serve server asks_for_users site).1
    ⊎ Presents server (λ claims. ⊤) asks_for_users.context
serve-protected_example =
    serve-protected server asks_for_users site admin_users_route routed refl refl

load-loaded_example :
    ((cfg : Config) × (load settings ≡ loaded cfg) × (cfg.jwt_expiration ≡ pos 86400)) ↔ (
      IsComplete settings
      × (settings.parse_duration (value settings "JWT_EXPIRATION") ≡ some (pos 86400)))
load-loaded_example = load-loaded settings (pos 86400)

-- The password is Ann's, and the token is the library's.
abbrev knows_ann : Env
knows_ann = record calm {
  check_password = λ password hash. true;
  sign_token = λ id email role. generate_token jwt 0 id email role "secret" 1000;
}

abbrev logs_in : LoginRequest
logs_in = record { email = "ann@example.com"; password = "password" }

abbrev logged_in : LoginResponse
logged_in = record { user_id = 1; email = "ann@example.com"; role = "USER" }

was_logged_in : (login knows_ann logs_in ready).0 ≡ ok (logged_in, "secret")
unfolding login ◌>>=◌ Users.find_by_email Users.map_user find_row optional query wrap or_raise
    raise_if publish_event spawn_publish pure find_user_by_email generate_token
was_logged_in = refl

login-LoggedIn_example :
    ((login knows_ann logs_in ready).1.db ≡ ready.db)
    × ((e : Event) × LoggedIn knows_ann logs_in ready.db (logged_in, "secret") e
        × ((login knows_ann logs_in ready).1.events ≡ ready.events ++ e ∷ []))
login-LoggedIn_example = login-LoggedIn knows_ann logs_in ready (logged_in, "secret") was_logged_in

login-jwt_auth_example :
    (c' : Context) × (jwt_auth knows_ann jwt "secret" pays ann_asks site ≡ pays c' (tick site))
    × (get_user_id_from_context c' ≡ got 1)
    × (c'.role ≡ some (text "USER"))
login-jwt_auth_example =
    login-jwt_auth knows_ann jwt jwt-Accepts "secret" 0 1000 logs_in ready logged_in "secret"
      (λ id email role. refl) was_logged_in pays ann_asks site refl (omega arith)
