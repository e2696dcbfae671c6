-- ===== src/Middleware/Idempotency.antt =====
-- internal/middleware/idempotency_middleware.go
pub mod Replays
use Prim.Native.String
use wallet_ledger_service.Common.{
  ℕ, String, Bool, true, false, not, Option, none, some, [], ◌∷◌, leb, str_eq, ◌+◌, ◌*◌,
  if◌then◌else◌,
}
use wallet_ledger_service.Model.{Time}
use wallet_ledger_service.World.{Env}
use wallet_ledger_service.Http.{
  Context, Reply, Answer, replied, panicking, raw, Wire, bytes, write_error,
}
use wallet_ledger_service.Middleware.Site.{
  Site, Chain, Stored, abort, tick, put, second, is_success,
}

pub record CachedResponse : Type 0 where
  pub status_code : ℕ
  pub body : String

-- encoding/json on a `cachedResponse`
pub record CacheJson : Type 0 where
  pub marshal : CachedResponse → Option String
  pub unmarshal : String → Option CachedResponse

abbrev pub redis_key : Context → String
redis_key c = String.◌++◌ "idempotency:" (c.header "Idempotency-Key")

abbrev pub hit : CachedResponse → Reply
hit res = record {
  status = res.status_code;
  body = raw res.body;
  cookie = none;
  headers = ("Content-Type", "application/json") ∷ ("X-Cache", "HIT") ∷ [];
}

-- What GET answers: nothing for a key that is absent or has expired.
unfoldable pub get_value : Time → Option Stored → Option String
get_value now none = none
get_value now (some v) = if leb v.expires now then none else some v.value

module _ (env : Env) (wire : Wire) (json : CacheJson) where
  unfoldable pub look_up : String → Site → Option CachedResponse
  look_up key s =
      if env.fails s.world.calls
      then none
      else elim (get_value (env.now s.world.calls) (s.values key)) [
        | none ↦ none
        | some val ↦ json.unmarshal val
      ]

  abbrev pub set_value : String → Option String → Site → Site
  set_value key none s = s
  set_value key (some text) s = if env.fails s.world.calls then tick s else record (tick s) {
    values =
        put key (record { value = text; expires = env.now s.world.calls + 24 * 3600 * second })
          s.values;
  }

  -- Only what ended with a status 2xx is kept.
  abbrev pub remember : String → Answer × Site → Answer × Site
  remember key (panicking, s) = (panicking, s)
  remember key (replied r, s) = (
    replied r,
    if is_success r.status
        then set_value key
            (json.marshal (record { status_code = r.status; body = bytes wire r.body })) s
        else s,
  )

  abbrev pub on_lookup : String → Option CachedResponse → Chain → Chain
  on_lookup key (some res) next c s = abort (hit res) s
  on_lookup key none next c s = remember key (next c s)

  unfoldable pub idempotency : Chain → Chain
  idempotency next c s =
      if not (str_eq c.method "POST")
      then next c s
      else if str_eq (c.header "Idempotency-Key") ""
      then abort (write_error 400 "Idempotency-Key header is required" []) s
      else on_lookup (redis_key c) (look_up (redis_key c) s) next c (tick s)
