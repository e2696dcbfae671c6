-- ===== src/World/Monad.antt =====
-- The outside of a request, and the monad of code that calls it.
use wallet_ledger_service.Common.{
  ℕ, suc, String, Bool, true, false, ⊤, Option, none, some, List, [], ◌∷◌, ◌++◌, if◌then◌else◌,
}
use wallet_ledger_service.Model.{Uuid, Time, Decimal, Notification}
use wallet_ledger_service.Failure.{
  Error, Result, ok, err, Sentinel, sentinel, connection_failed, tx_closed, panicked, wrapped,
}
use wallet_ledger_service.Database.{Numeric, Database}

-- How a COMMIT ends: it is done and confirmed, it is refused, or it is done and the reply is lost.
pub data CommitResult : Type 0 where
  committed refused reply_lost : CommitResult

-- The services outside the program. A statement on the pool whose call fails has been carried out
-- all the same where `applied` says so: its reply is lost. `others` is what other sessions commit up to the start of this
-- request's transaction.
pub record Env : Type 0 where
  pub fails : ℕ → Bool
  pub applied : ℕ → Bool
  pub others : ℕ → Database → Database
  pub commit_result : ℕ → CommitResult
  pub now : ℕ → Time
  pub new_uuid : ℕ → Uuid
  pub random_index : ℕ → Option ℕ
  pub date_stamp : Time → String
  pub uuid_string : Uuid → String
  pub scan : Decimal → Option Numeric
  pub column : Decimal → Option Decimal
  pub hash_password : String → Option String
  pub check_password : String → String → Bool
  pub sign_token : Uuid → String → String → Option String

-- `eventData` of each `publishEvent`.
pub data EventData : Type 0 where
  nil : EventData
  register : String → EventData
  top_up : String → String → String → Decimal → Decimal → EventData
  transfer : String → String → String → String → Decimal → Decimal → EventData

pub record Event : Type 0 where
  pub event_type : String
  pub user_id : String
  pub payload : EventData

-- `tx` is the working copy of the open transaction. `pushes` are the notifications that Redis has
-- taken, each for a channel.
pub record World : Type 0 where
  pub db : Database
  pub tx : Option Database
  pub calls : ℕ
  pub events : List Event
  pub pushes : List (String × Notification)

abbrev pub M : Type 0 → Type 0
M A = World → Result A × World

abbrev pub resume : {A B : Type 0} → Result A → (A → M B) → M B
resume (ok a) f w = f a w
resume (err e) f w = (err e, w)

infixl 5 ◌>>=◌ ◌>>◌
unfoldable pub ◌>>=◌ : {A B : Type 0} → M A → (A → M B) → M B
◌>>=◌ m f w = resume (m w).0 f (m w).1

abbrev pub ◌>>◌ : {B : Type 0} → M ⊤ → M B → M B
m >> k = m >>= λ _. k

unfoldable pub pure : {A : Type 0} → A → M A
pure a w = (ok a, w)

unfoldable pub raise : {A : Type 0} → Error → M A
raise e w = (err e, w)

unfoldable pub raise_if : Bool → Sentinel → M ⊤
raise_if true s w = (err (sentinel s), w)
raise_if false s w = (ok tt, w)

-- `if p == nil { return nil, ErrX }`
unfoldable pub or_raise : {A : Type 0} → Option A → Sentinel → M A
or_raise none s w = (err (sentinel s), w)
or_raise (some a) s w = (ok a, w)

-- A call that may fail and leaves the program's state alone.
abbrev pub or_fail : {A : Type 0} → Option A → Error → M A
or_fail none e w = (err e, w)
or_fail (some a) e w = (ok a, w)

-- The use of a pointer: nil panics.
unfoldable pub deref : {A : Type 0} → Option A → M A
deref none w = (err panicked, w)
deref (some a) w = (ok a, w)

abbrev pub rewrap : {A : Type 0} → String → Result A → Result A
rewrap text (ok a) = ok a
rewrap text (err e) = err (wrapped text e)

-- `if err != nil { return nil, fmt.Errorf(text + ": %w", err) }`
unfoldable pub wrap : {A : Type 0} → String → M A → M A
wrap text m w = (rewrap text (m w).0, (m w).1)

-- A repository is handed the open transaction, or nil for the pool.
pub data Handle : Type 0 where
  no_tx in_tx : Handle

-- A statement's rows and tables, put back where they came from.
abbrev pub put_db : {A : Type 0} → Result (A × Database) → M A
put_db (ok (a, d)) w = (ok a, record w { db = d })
put_db (err e) w = (err e, w)

abbrev pub put_tx : {A : Type 0} → Result (A × Database) → M A
put_tx (ok (a, d)) w = (ok a, record w { tx = some d })
put_tx (err e) w = (err e, w)

abbrev pub on_copy : {A : Type 0} → Option Database → (Database → Result (A × Database)) → M A
on_copy none f w = (err tx_closed, w)
on_copy (some d) f w = put_tx (f d) w

-- One statement, against the committed tables or the open transaction's.
abbrev pub run : {A : Type 0} → Handle → (Database → Result (A × Database)) → M A
run no_tx f w = put_db (f w.db) w
run in_tx f w = on_copy w.tx f w

abbrev pub or_fault : {A : Type 0} → Bool → M A → M A
or_fault true m w = (err connection_failed, w)
or_fault false m w = m w

-- A numbered call, which fails where the environment says so.
abbrev pub call : {A : Type 0} → Env → (ℕ → M A) → M A
call env m w = or_fault (env.fails w.calls) (m w.calls) (record w { calls = suc w.calls })

-- A statement on the pool that fails, before or after it is carried out.
abbrev pub or_lost : {A : Type 0} → Bool → Bool → M A → M A
or_lost true true m w = (err connection_failed, (m w).1)
or_lost true false m w = (err connection_failed, w)
or_lost false lost m w = m w

-- In a transaction a call that fails leaves the working copy alone, which is then rolled back.
abbrev pub run_query :
    {A : Type 0} → Bool → Bool → Handle → (Database → Result (A × Database)) → M A
run_query fault lost no_tx f = or_lost fault lost (run no_tx f)
run_query fault lost in_tx f = or_fault fault (run in_tx f)

unfoldable pub query : {A : Type 0} → Env → Handle → (ℕ → Database → Result (A × Database)) → M A
query env h f w =
    run_query (env.fails w.calls) (env.applied w.calls) h (f w.calls)
      (record w { calls = suc w.calls })

-- The working copy is made of the tables as other sessions have left them by then.
abbrev pub open_tx : Env → ℕ → M ⊤
open_tx env n w = (ok tt, record w { db = env.others n w.db; tx = some (env.others n w.db) })

-- `pool.Begin`
unfoldable pub begin : Env → M ⊤
begin env = call env (open_tx env)

-- What COMMIT makes of the working copy.
abbrev pub close : Option Database → CommitResult → M ⊤
close none c w = (err tx_closed, w)
close (some d) committed w = (ok tt, record w { db = d; tx = none })
close (some d) refused w = (err connection_failed, record w { tx = none })
close (some d) reply_lost w = (err connection_failed, record w { db = d; tx = none })

-- `tx.Commit`
unfoldable pub commit : Env → M ⊤
commit env w = close w.tx (env.commit_result w.calls) (record w { calls = suc w.calls })

-- `defer tx.Rollback(ctx)`: it runs however the body ends, by a panic too.
unfoldable pub with_rollback : {A : Type 0} → M A → M A
with_rollback m w = let (r, w') = m w in (r, record w' { tx = none })

-- `go func() { … publishEvent(…) … }()`: the event is handed on, and its delivery is not awaited.
unfoldable pub spawn_publish : Event → M ⊤
spawn_publish e w = (ok tt, record w { events = w.events ++ e ∷ [] })

-- `time.Now()`
unfoldable pub read_clock : Env → M Time
read_clock env w = (ok (env.now w.calls), record w { calls = suc w.calls })

-- `redisClient.Publish`, whose error is only logged.
unfoldable pub push : Env → String → Notification → M ⊤
push env channel n w =
    let w' = record w { calls = suc w.calls } in
    (ok tt, if env.fails w.calls then w' else record w' { pushes = w.pushes ++ (channel, n) ∷ [] })
