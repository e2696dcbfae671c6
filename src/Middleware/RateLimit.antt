-- ===== src/Middleware/RateLimit.antt =====
-- internal/middleware/rate_limit_middleware.go
pub mod Window
use Prim.Native.String
use wallet_ledger_service.Common.{
  ℕ, suc, String, Bool, true, false, Option, none, some, [], ltb, leb, ◌+◌, ◌*◌, ◌/◌, if◌then◌else◌,
}
use wallet_ledger_service.Model.{Time}
use wallet_ledger_service.World.{Env}
use wallet_ledger_service.Http.{Context, write_error}
use wallet_ledger_service.Middleware.Site.{Site, Chain, Counter, abort, tick, put, second}

abbrev pub fresh : Time → Time → Counter
fresh now ttl = record { count = 1; expires = now + ttl }

-- `rateLimitScript`: INCR, and EXPIRE for the first of a window.
unfoldable pub rate_limit_script : Time → Time → Option Counter → Counter
rate_limit_script now ttl none = fresh now ttl
rate_limit_script now ttl (some k) =
    if leb k.expires now then fresh now ttl else record k { count = suc k.count }

abbrev pub exceeds : ℕ → Counter → Bool
exceeds max_requests k = ltb max_requests k.count

-- A failure of Redis lets the request pass.
unfoldable pub rate_limit : Env → ℕ → Time → Chain → Chain
rate_limit env max_requests window next c s =
    let key = String.◌++◌ "ratelimit:" c.client_ip in
    let now = env.now s.world.calls in
    let counter = rate_limit_script now (window / second * second) (s.counters key) in
    if env.fails s.world.calls
    then next c (tick s)
    else let s' = record (tick s) { counters = put key counter s.counters } in
      if exceeds max_requests counter
      then abort (write_error 429 "Too many requests. Please try again later." []) s'
      else next c s'
