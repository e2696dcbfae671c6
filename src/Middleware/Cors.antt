-- ===== src/Middleware/Cors.antt =====
-- internal/middleware/cors_middleware.go
use wallet_ledger_service.Common.{String, none, [], ◌∷◌, ◌++◌, List, str_eq, if◌then◌else◌}
use wallet_ledger_service.Http.{Context, Answer, replied, panicking, no_body}
use wallet_ledger_service.Middleware.Site.{Chain, abort}

abbrev pub cors_headers : Context → List (String × String)
cors_headers c =
    (
      "Access-Control-Allow-Origin",
      if str_eq (c.header "Origin") "" then "*" else c.header "Origin",
    )
    ∷ ("Access-Control-Allow-Credentials", "true")
    ∷ (
      "Access-Control-Allow-Headers",
      "Content-Type, Content-Length, Accept-Encoding, X-CSRF-Token, Authorization, accept, origin, Cache-Control, X-Requested-With, Idempotency-Key",
    )
    ∷ ("Access-Control-Allow-Methods", "POST, OPTIONS, GET, PUT, DELETE, PATCH")
    ∷ []

abbrev pub with_headers : List (String × String) → Answer → Answer
with_headers hs (replied r) = replied (record r { headers = hs ++ r.headers })
with_headers hs panicking = panicking

-- The headers are set before the rest runs, and stand on whatever is replied.
unfoldable pub cors : Chain → Chain
cors next c s =
    if str_eq c.method "OPTIONS"
    then abort (record { status = 204; body = no_body; cookie = none; headers = cors_headers c }) s
    else let (a, s') = next c s in (with_headers (cors_headers c) a, s')
