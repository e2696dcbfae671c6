-- ===== src/World/Reading.antt =====
-- Code that only reads the committed tables: what it finds in them.
use wallet_ledger_service.Common.{String, ◌≡◌, refl, Bool, true, false, Option, none, some, arith}
use wallet_ledger_service.Failure.{Result, ok, Sentinel}
use wallet_ledger_service.Database.{Database}
use wallet_ledger_service.World.Monad.{World, M, raise_if, or_raise, wrap, rewrap}

-- What a read of the committed tables finds; nothing but the number of calls changes.
pub record Reads {A : Type 0} (m : M A) (P : Database → A → Type 0) : Type 0 where
  pub db_same : (w : World) → (m w).1.db ≡ w.db
  pub events_same : (w : World) → (m w).1.events ≡ w.events
  pub finds : (w : World) (a : A) → (m w).0 ≡ ok a → P w.db a

module _ {A : Type 0} where
  pub Reads-or_raise : (o : Option A) (s : Sentinel) → Reads (or_raise o s) (λ start a. o ≡ some a)
  unfolding or_raise
  Reads-or_raise none s = record {
    db_same = λ w. refl;
    events_same = λ w. refl;
    finds = λ w a e. cc;
  }
  Reads-or_raise (some b) s = record {
    db_same = λ w. refl;
    events_same = λ w. refl;
    finds = λ w a e. ground arith;
  }

  rewrap_ok : (text : String) (r : Result A) (a : A) → rewrap text r ≡ ok a → r ≡ ok a
  rewrap_ok text r a h = ground arith

  pub Reads-wrap :
      {P : Database → A → Type 0} {m : M A} (text : String) → Reads m P → Reads (wrap text m) P
  unfolding wrap
  Reads-wrap {m = m} text k = record {
    db_same = k.db_same;
    events_same = k.events_same;
    finds = λ w a e. k.finds w a (rewrap_ok text (m w).0 a e);
  }

  pub Reads-weaken :
      {P Q : Database → A → Type 0} {m : M A}
      → Reads m P
      → ((d : Database) (a : A) → P d a → Q d a)
      → Reads m Q
  Reads-weaken k f = record {
    db_same = k.db_same;
    events_same = k.events_same;
    finds = λ w a e. f w.db a (k.finds w a e);
  }

pub Reads-raise_if : (b : Bool) (s : Sentinel) → Reads (raise_if b s) (λ start a. b ≡ false)
unfolding raise_if
Reads-raise_if true s = record { db_same = λ w. refl; events_same = λ w. refl; finds = λ w a e. cc }
Reads-raise_if false s = record {
  db_same = λ w. refl;
  events_same = λ w. refl;
  finds = λ w a e. refl;
}

pub ok_injective : {A : Type 0} (a b : A) → Result.ok a ≡ ok b → a ≡ b
ok_injective a b h = ground arith
