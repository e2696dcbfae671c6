-- ===== src/World/Rules.antt =====
-- What code does to the open transaction while nothing is committed or published: a judgement on
-- an action, with one rule for each way to build an action.
use wallet_ledger_service.Common.{
  ℕ, suc, String, ◌≡◌, refl, sym, ap, ◌∙◌, Bool, true, false, Option, none, some, arith,
  if◌then◌else◌,
}
use mathlib.Core.Option.{some-injective}
use wallet_ledger_service.Failure.{Result, ok, err, Sentinel}
use wallet_ledger_service.Database.{Database}
use wallet_ledger_service.World.Monad.{
  Env, World, M, ◌>>=◌, pure, raise_if, or_raise, deref, wrap, rewrap, resume, put_tx, on_copy,
  or_fault, run, in_tx, query, read_clock,
}

abbrev pub Effect : Type 0 → Type 1
Effect A = Database → A → Database → Type 0

-- `m` commits and publishes nothing, and where it returns `a` it has taken the working copy `d` to
-- some `d'` with `R d a d'`.
pub record Runs {A : Type 0} (m : M A) (R : Effect A) : Type 0 where
  pub db_same : (w : World) → (m w).1.db ≡ w.db
  pub events_same : (w : World) → (m w).1.events ≡ w.events
  pub moves :
      (w : World) (d : Database) (a : A)
      → w.tx ≡ some d
      → (m w).0 ≡ ok a
      → (d' : Database) × ((m w).1.tx ≡ some d') × R d a d'

-- The working copy stays, and the value has a property.
abbrev pub Gives : {A : Type 0} → (A → Type 0) → Effect A
Gives P d a d' = (d' ≡ d) × P a

abbrev pub Stays : {A : Type 0} → Effect A
Stays d a d' = d' ≡ d

abbrev pub Then : {A B : Type 0} → Effect A → (A → Effect B) → Effect B
Then {A} R S d b d'' = (a : A) × (d' : Database) × R d a d' × S a d' b d''

pub Runs-raise_if : (b : Bool) (s : Sentinel) → Runs (raise_if b s) (Gives (λ _. b ≡ false))
unfolding raise_if
Runs-raise_if true s = record {
  db_same = λ w. refl;
  events_same = λ w. refl;
  moves = λ w d b h e. cc;
}
Runs-raise_if false s = record {
  db_same = λ w. refl;
  events_same = λ w. refl;
  moves = λ w d b h e. (d, h, (refl, refl));
}

pub Runs-read_clock : (env : Env) → Runs (read_clock env) Stays
unfolding read_clock
Runs-read_clock env = record {
  db_same = λ w. refl;
  events_same = λ w. refl;
  moves = λ w d b h e. (d, h, refl);
}

module _ {A : Type 0} where
  pub Runs-pure : (a : A) → Runs (pure a) (Gives (λ b. b ≡ a))
  unfolding pure
  Runs-pure a = record {
    db_same = λ w. refl;
    events_same = λ w. refl;
    moves = λ w d b h e. (d, h, (refl, ground arith));
  }

  pub Runs-or_raise : (o : Option A) (s : Sentinel) → Runs (or_raise o s) (Gives (λ a. o ≡ some a))
  unfolding or_raise
  Runs-or_raise none s = record {
    db_same = λ w. refl;
    events_same = λ w. refl;
    moves = λ w d b h e. cc;
  }
  Runs-or_raise (some a) s = record {
    db_same = λ w. refl;
    events_same = λ w. refl;
    moves = λ w d b h e. (d, h, (refl, ground arith));
  }

  pub Runs-deref : (o : Option A) → Runs (deref o) (Gives (λ a. o ≡ some a))
  unfolding deref
  Runs-deref none = record { db_same = λ w. refl; events_same = λ w. refl; moves = λ w d b h e. cc }
  Runs-deref (some a) = record {
    db_same = λ w. refl;
    events_same = λ w. refl;
    moves = λ w d b h e. (d, h, (refl, ground arith));
  }

  rewrap-ok : (text : String) (r : Result A) (a : A) → rewrap text r ≡ ok a → r ≡ ok a
  rewrap-ok text (ok b) a e = e
  rewrap-ok text (err x) a e = cc

  pub Runs-wrap : {R : Effect A} (text : String) {m : M A} → Runs m R → Runs (wrap text m) R
  unfolding wrap
  Runs-wrap text {m} k = record {
    db_same = k.db_same;
    events_same = k.events_same;
    moves = λ w d a h e. k.moves w d a h (rewrap-ok text (m w).0 a e);
  }

  put_tx-same :
      (r : Result (A × Database)) (w : World)
      → ((put_tx r w).1.db ≡ w.db) × ((put_tx r w).1.events ≡ w.events)
  put_tx-same (ok (a, d)) w = (refl, refl)
  put_tx-same (err e) w = (refl, refl)

  put_tx-moves :
      (r : Result (A × Database)) (w : World) (a : A)
      → (put_tx r w).0 ≡ ok a
      → (d : Database) × ((put_tx r w).1.tx ≡ some d) × (r ≡ ok (a, d))
  put_tx-moves (ok (b, d)) w a e = (d, refl, ground arith)
  put_tx-moves (err x) w a e = cc

  module _ (f : Database → Result (A × Database)) where
    on_copy-same :
        (t : Option Database) (w : World)
        → ((on_copy t f w).1.db ≡ w.db) × ((on_copy t f w).1.events ≡ w.events)
    on_copy-same none w = (refl, refl)
    on_copy-same (some d) w = put_tx-same (f d) w

    on_copy-moves :
        (t : Option Database) (w : World) (d : Database) (a : A)
        → t ≡ some d
        → (on_copy t f w).0 ≡ ok a
        → (d' : Database) × ((on_copy t f w).1.tx ≡ some d') × (f d ≡ ok (a, d'))
    on_copy-moves none w d a h e = cc
    on_copy-moves (some c) w d a h e =
        let (d', t, x) = put_tx-moves (f c) w a e in (d', t, ap f (sym (some-injective _ _ h)) ∙ x)

    run-same :
        (fault : Bool) (w : World)
        → ((or_fault fault (run in_tx f) w).1.db ≡ w.db)
          × ((or_fault fault (run in_tx f) w).1.events ≡ w.events)
    run-same true w = (refl, refl)
    run-same false w = on_copy-same w.tx w

    run-moves :
        (fault : Bool) (w : World) (d : Database) (a : A)
        → w.tx ≡ some d
        → (or_fault fault (run in_tx f) w).0 ≡ ok a
        → (d' : Database) × ((or_fault fault (run in_tx f) w).1.tx ≡ some d') × (f d ≡ ok (a, d'))
    run-moves true w d a h e = cc
    run-moves false w d a h e = on_copy-moves w.tx w d a h e

  -- A statement on the working copy.
  pub Runs-query :
      (env : Env) (f : ℕ → Database → Result (A × Database)) {R : Effect A}
      → ((n : ℕ) (d : Database) (a : A) (d' : Database) → f n d ≡ ok (a, d') → R d a d')
      → Runs (query env in_tx f) R
  unfolding query
  Runs-query env f k = record {
    db_same = λ w. (run-same (f w.calls) (env.fails w.calls) (record w { calls = suc w.calls })).0;
    events_same =
        λ w. (run-same (f w.calls) (env.fails w.calls) (record w { calls = suc w.calls })).1;
    moves = λ w d a h e.
        let (d', t, x) =
          run-moves (f w.calls) (env.fails w.calls) (record w { calls = suc w.calls }) d a h e in
        (d', t, k w.calls d a d' x);
  }

  pub Runs-weaken :
      {R S : Effect A} {m : M A}
      → Runs m R
      → ((d : Database) (a : A) (d' : Database) → R d a d' → S d a d')
      → Runs m S
  Runs-weaken k f = record {
    db_same = k.db_same;
    events_same = k.events_same;
    moves = λ w d a h e. let (d', t, r) = k.moves w d a h e in (d', t, f d a d' r);
  }

  pub Runs-if :
      {R : Effect A} (b : Bool) {m n : M A} → Runs m R → Runs n R → Runs (if b then m else n) R
  Runs-if true k l = k
  Runs-if false k l = l

module _ {A B : Type 0} {S : A → Effect B} {f : A → M B} where
  resume-same :
      ((a : A) → Runs (f a) (S a))
      → (r : Result A) (w : World)
      → ((resume r f w).1.db ≡ w.db) × ((resume r f w).1.events ≡ w.events)
  resume-same l (ok a) w = ((l a).db_same w, (l a).events_same w)
  resume-same l (err e) w = (refl, refl)

module _ {A B : Type 0} {S : A → Effect B} {f : A → M B} where
  resume-moves :
      (R : Effect A)
      → ((a : A) → Runs (f a) (S a))
      → (d : Database) (r : Result A) (w : World) (b : B)
      → ((a : A) → r ≡ ok a → (d' : Database) × (w.tx ≡ some d') × R d a d')
      → (resume r f w).0 ≡ ok b
      → (d' : Database) × ((resume r f w).1.tx ≡ some d') × Then R S d b d'
  resume-moves R l d (ok a) w b m e =
      let (d', t, x) = m a refl in
      let (d'', t', y) = (l a).moves w d' b t e in (d'', t', (a, d', x, y))
  resume-moves R l d (err x) w b m e = cc

  pub Runs-bind :
      {R : Effect A} {m : M A} → Runs m R → ((a : A) → Runs (f a) (S a)) → Runs (m >>= f) (Then R S)
  unfolding ◌>>=◌
  Runs-bind {R} {m} k l = record {
    db_same = λ w. (resume-same l (m w).0 (m w).1).0 ∙ k.db_same w;
    events_same = λ w. (resume-same l (m w).0 (m w).1).1 ∙ k.events_same w;
    moves = λ w d b h e. resume-moves R l d (m w).0 (m w).1 b (λ a. k.moves w d a h) e;
  }
