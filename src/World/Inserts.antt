-- ===== src/World/Inserts.antt =====
-- One statement on the pool that inserts a row, as code that adds rows to a table.
use wallet_ledger_service.Common.{
  ℕ, suc, ◌≡◌, refl, sym, Bool, true, false, ◌⊎◌, inl, inr, List, [], ◌∷◌,
}
use wallet_ledger_service.Failure.{Error, Result, ok, err}
use wallet_ledger_service.Database.{Database}
use wallet_ledger_service.World.Monad.{Env, World, query, no_tx, run, put_db, or_lost}
use wallet_ledger_service.World.Appends.{Table, Good, Bad, Ends, Appends}

-- A call has failed.
abbrev pub Fails : Env → Type 0
Fails env = (n : ℕ) × (env.fails n ≡ true)

-- A call has failed, or the tables refuse what the statement asks.
abbrev pub Excused : {A : Type 0} → Env → (ℕ → Database → Result (A × Database)) → Database → Type 0
Excused env f d = Fails env ⊎ ((n : ℕ) × (e : Error) × (f n d ≡ err e))

module _ {Row : Type 0} (t : Table Row) where
  abbrev pub Inserts :
      {A : Type 0} → (ℕ → Database → Result (A × Database)) → (Row → Type 0) → Type 0
  Inserts {A} f Q =
      (n : ℕ) (d : Database) (a : A) (d' : Database)
      → f n d ≡ ok (a, d')
      → (row : Row) × (d' ≡ t.add d (row ∷ [])) × Q row

  abbrev pub OneRow : {A : Type 0} → (Row → Type 0) → Good A Row
  OneRow Q d a rows = (row : Row) × (rows ≡ row ∷ []) × Q row

  -- No row, and the reason; or the row, and the reply is lost.
  abbrev pub Missed :
      {A : Type 0} → Env → (ℕ → Database → Result (A × Database)) → (Row → Type 0) → Bad Row
  Missed env f Q d rows =
      ((rows ≡ []) × Excused env f d) ⊎ (((row : Row) × (rows ≡ row ∷ []) × Q row) × Fails env)

  module _ {A : Type 0} (env : Env) (f : ℕ → Database → Result (A × Database)) (Q : Row → Type 0)
      (k : Inserts f Q) where
    put-Ends :
        (n : ℕ) (w : World) (r : Result (A × Database))
        → f n w.db ≡ r
        → (rows : List Row) × ((put_db r w).1.db ≡ t.add w.db rows)
          × Ends (OneRow Q) (Missed env f Q) w.db (put_db r w).0 rows
    put-Ends n w (err e) h = ([], sym (t.add_nil w.db), inl (refl, inr (n, e, h)))
    put-Ends n w (ok (a, d')) h =
        let (row, moved, q) = k n w.db a d' h in (row ∷ [], moved, (row, refl, q))

    put_lost-Ends :
        (n : ℕ) (w : World) (r : Result (A × Database))
        → f n w.db ≡ r
        → Fails env
        → (rows : List Row) × ((put_db r w).1.db ≡ t.add w.db rows) × Missed env f Q w.db rows
    put_lost-Ends n w (err e) h fails = ([], sym (t.add_nil w.db), inl (refl, inl fails))
    put_lost-Ends n w (ok (a, d')) h fails =
        let (row, moved, q) = k n w.db a d' h in (row ∷ [], moved, inr ((row, refl, q), fails))

    query-Ends :
        (fault lost : Bool) (n : ℕ) (w : World)
        → env.fails n ≡ fault
        → (rows : List Row) × ((or_lost fault lost (run no_tx (f n)) w).1.db ≡ t.add w.db rows)
          × Ends (OneRow Q) (Missed env f Q) w.db (or_lost fault lost (run no_tx (f n)) w).0 rows
    query-Ends true false n w h = ([], sym (t.add_nil w.db), inl (refl, inl (n, h)))
    query-Ends true true n w h = put_lost-Ends n w (f n w.db) refl (n, h)
    query-Ends false lost n w h = put-Ends n w (f n w.db) refl

    pub Appends-query : Appends t (query env no_tx f) (OneRow Q) (Missed env f Q)
    unfolding query
    Appends-query = record {
      appends = λ w.
          query-Ends (env.fails w.calls) (env.applied w.calls) w.calls
            (record w { calls = suc w.calls }) refl;
    }
