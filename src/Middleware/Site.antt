-- ===== src/Middleware/Site.antt =====
-- The state that the middleware of internal/middleware share: the services' world, the keys that
-- Redis holds, and the audit events that have been handed on.
use wallet_ledger_service.Common.{
  ℕ, suc, String, Bool, Option, some, List, ltb, leb, str_eq, ◌&&◌, if◌then◌else◌,
}
use wallet_ledger_service.Model.{Uuid, Time}
use wallet_ledger_service.World.{World}
use wallet_ledger_service.Http.{Context, Reply, Answer, replied}
use wallet_ledger_service.Handler.Replies.{Serve}

-- A counter of Redis, and when it expires.
pub record Counter : Type 0 where
  pub count : ℕ
  pub expires : Time

pub record Stored : Type 0 where
  pub value : String
  pub expires : Time

-- `WalletEvent` with its `AuditEventMessage`.
pub record AuditEvent : Type 0 where
  pub user_id : Uuid
  pub action : String
  pub ip_address : String
  pub endpoint : String
  pub timestamp : Time

pub record Site : Type 0 where
  pub world : World
  pub counters : String → Option Counter
  pub values : String → Option Stored
  pub audits : List AuditEvent

-- The rest of the chain, `c.Next()`.
abbrev pub Chain : Type 0
Chain = Context → Site → Answer × Site

-- A handler ends the chain.
abbrev pub endpoint : (Context → Serve) → Chain
endpoint f c s = let (a, w) = f c s.world in (a, record s { world = w })

-- `c.Abort()` after a reply.
abbrev pub abort : Reply → Site → Answer × Site
abort r s = (replied r, s)

-- A call of Redis or of the clock has a number, as the others have.
abbrev pub tick : Site → Site
tick s = record s { world = record s.world { calls = suc s.world.calls } }

abbrev pub put : {A : Type 0} → String → A → (String → Option A) → String → Option A
put key a f k = if str_eq key k then some a else f k

-- Times and durations in nanoseconds.
abbrev pub second : Time
second = 1000000000

abbrev pub is_success : ℕ → Bool
is_success status = leb 200 status && ltb status 300
