-- ===== src/Utils/SafeChannel.antt =====
-- internal/utils/rabbitmq.go, and `DeclareExchangeAndQueues` of internal/config/rabbitmq.go. The mutex
-- makes each operation one step.
pub mod Connected
pub mod Publishing
pub mod Renewal
use Prim.Native.String
use wallet_ledger_service.Common.{
  ℕ, suc, String, ⊤, Bool, true, false, ◌||◌, Option, none, some, List, [], ◌∷◌, ◌++◌,
  if◌then◌else◌,
}
use wallet_ledger_service.Failure.{
  Error, Result, ok, err, connection_failed, panicked, wrapped, is_panic,
}

-- What has been declared at the broker.
pub data Declaration : Type 0 where
  exchange : String → Declaration
  queue : String → Declaration
  binding : String → String → String → Declaration

-- A connection is known by the number of the call that dialled it, and a channel by its connection
-- and the number of the call that opened it.
pub record Channel : Type 0 where
  pub connection : ℕ
  pub number : ℕ

pub record Message : Type 0 where
  pub exchange_name : String
  pub routing_key : String
  pub body : String

-- One call of the library's `PublishWithContext`: its number, and whether it returned nil. By nil the
-- library has written the message out; neither answer says whether the broker has received it.
pub record Attempt : Type 0 where
  pub message : Message
  pub number : ℕ
  pub written : Bool

-- `conn_close` and `ch_close` are the listeners for the end of a connection and of a channel.
-- `declared` is the broker's side,
-- and `attempts` are the publications that were asked of the library.
pub record SafeChannel : Type 0 where
  pub conn : Option ℕ
  pub ch : Option Channel
  pub conn_close : Option ℕ
  pub ch_close : Option Channel
  pub calls : ℕ
  pub declared : List Declaration
  pub attempts : List Attempt

-- The library and the broker: whether the call of a number succeeds, and whether an end has been
-- reported by then.
pub record Broker : Type 0 where
  pub succeeds : ℕ → Bool
  pub conn_ended : ℕ → ℕ → Bool
  pub ch_ended : ℕ → Channel → Bool
  pub is_closed : ℕ → ℕ → Bool

abbrev pub Act : Type 0 → Type 0
Act A = SafeChannel → Result A × SafeChannel

abbrev pub then_act : {A B : Type 0} → Result A → (A → Act B) → Act B
then_act (ok a) f s = f a s
then_act (err e) f s = (err e, s)

infixl 5 ◌>>=◌ ◌>>◌
abbrev pub ◌>>=◌ : {A B : Type 0} → Act A → (A → Act B) → Act B
◌>>=◌ m f s = then_act (m s).0 f (m s).1

abbrev pub ◌>>◌ : {B : Type 0} → Act ⊤ → Act B → Act B
m >> k = m >>= λ _. k

abbrev pub done : {A : Type 0} → A → Act A
done a s = (ok a, s)

abbrev pub modify : (SafeChannel → SafeChannel) → Act ⊤
modify f s = (ok tt, f s)

abbrev pub wrap_error : {A : Type 0} → String → Result A → Result A
wrap_error text (ok a) = ok a
wrap_error text (err e) = err (wrapped text e)

abbrev pub wrap : {A : Type 0} → String → Act A → Act A
wrap text m s = (wrap_error text (m s).0, (m s).1)

abbrev pub outcome : {A : Type 0} → Bool → A → Act A
outcome true a s = (ok a, s)
outcome false a s = (err connection_failed, s)

unfoldable pub new_safe_channel : SafeChannel
new_safe_channel = record {
  conn = none;
  ch = none;
  conn_close = none;
  ch_close = none;
  calls = 0;
  declared = [];
  attempts = [];
}

module _ (broker : Broker) where
  -- A call that succeeds with its number, or fails.
  abbrev pub request : Act ℕ
  request s = outcome (broker.succeeds s.calls) s.calls (record s { calls = suc s.calls })

  abbrev pub declare : Declaration → Act ⊤
  declare d = do n ← request; modify λ s. record s { declared = s.declared ++ d ∷ [] }

  abbrev pub declare_queues : List String → Act ⊤
  declare_queues [] = done tt
  declare_queues (q ∷ qs) = do
    wrap (String.◌++◌ "failed to declare queue " q) (declare (queue q))
    wrap (String.◌++◌ "failed to bind queue " q)
        (declare (binding q "wallet.event.#" "wallet_events"))
    declare_queues qs

  unfoldable pub declare_exchange_and_queues : Act ⊤
  declare_exchange_and_queues = do
    wrap "failed to declare exchange" (declare (exchange "wallet_events"))
    declare_queues ("notification_queue" ∷ "audit_queue" ∷ "analytics_queue" ∷ [])

  abbrev pub conn_gone : Option ℕ → ℕ → Bool
  conn_gone none n = false
  conn_gone (some c) n = broker.conn_ended n c

  abbrev pub ch_gone : Option Channel → ℕ → Bool
  ch_gone none n = false
  ch_gone (some c) n = broker.ch_ended n c

  -- The two `select`s on the listeners.
  abbrev pub drop_ended : SafeChannel → SafeChannel
  drop_ended s = record s {
    conn = if conn_gone s.conn_close s.calls then none else s.conn;
    ch = if ch_gone s.ch_close s.calls then none else s.ch;
    calls = suc s.calls;
  }

  abbrev pub needs_dial : Option ℕ → ℕ → Bool
  needs_dial none n = true
  needs_dial (some c) n = broker.is_closed n c

  abbrev pub dial : Act ⊤
  dial = do
    modify λ s. record s { ch = none; conn = none }
    n ← wrap "failed to connect to rabbitmq" request
    modify λ s. record s { conn = some n; conn_close = some n }

  abbrev pub reconnect : Act ⊤
  reconnect s = if needs_dial s.conn s.calls then dial s else (ok tt, s)

  -- `s.conn.Channel()`
  abbrev pub channel_of : Option ℕ → ℕ → Result Channel
  channel_of none n = err panicked
  channel_of (some c) n = ok (record { connection = c; number = n })

  abbrev pub open_channel : String → Act Channel
  open_channel text = do n ← wrap text request; λ s. (channel_of s.conn n, s)

  abbrev pub ensure_channel : Option Channel → Act ⊤
  ensure_channel (some c) = done tt
  ensure_channel none = do
    c ← open_channel "failed to open channel"
    wrap "failed to declare exchange/queues" declare_exchange_and_queues
    modify λ s. record s { ch = some c; ch_close = some c }

  unfoldable pub ensure_connected_locked : Act ⊤
  ensure_connected_locked = do modify drop_ended; reconnect; λ s. ensure_channel s.ch s

  -- `s.ch.PublishWithContext`
  abbrev pub publish_on : Option Channel → Message → Act ⊤
  publish_on none msg s = (err panicked, s)
  publish_on (some c) msg s = outcome (broker.succeeds s.calls) tt (record s {
    calls = suc s.calls;
    attempts =
        s.attempts
        ++ record { message = msg; number = s.calls; written = broker.succeeds s.calls } ∷ [];
  })

  -- A second attempt, on a new channel.
  abbrev pub publish_again : Message → Act ⊤
  publish_again msg = do
    modify λ s. record s { ch = none }
    wrap "retry publish failed, unable to reconnect" ensure_connected_locked
    wrap "failed to publish after reconnect" (λ s. publish_on s.ch msg s)

  abbrev pub on_failure : Result ⊤ → Act ⊤ → Act ⊤
  on_failure (ok a) m s = (ok a, s)
  on_failure (err e) m s = if is_panic e then (err e, s) else m s

  unfoldable pub publish_with_context : Message → Act ⊤
  publish_with_context msg = do
    wrap "publish failed, unable to connect" ensure_connected_locked
    λ s. let (r, s') = publish_on s.ch msg s in on_failure r (publish_again msg) s'

  -- A channel of its own, for a worker.
  unfoldable pub new_channel : Act Channel
  new_channel = do ensure_connected_locked; open_channel "failed to open new channel"

unfoldable pub channel : Option SafeChannel → Option Channel
channel none = none
channel (some s) = s.ch

unfoldable pub close : SafeChannel → SafeChannel
close s = record s { conn = none; ch = none }
