-- ===== src/Worker/Consume.antt =====
-- The loop `consumeLoop` of the workers of internal/worker.
use mathlib.Core.Path.{subst}
use wallet_ledger_service.Common.{
  String, ◌≡◌, refl, sym, ap, ◌∙◌, Bool-cases, ⊤, List, [], ◌∷◌, ◌++◌, inl, inr, if◌then◌else◌,
}
use wallet_ledger_service.Failure.{Result, ok, err, is_panic}
use wallet_ledger_service.Database.{Database}
use wallet_ledger_service.World.{World, M}
use wallet_ledger_service.World.Appends.{Table, Good, Bad, Ends, Appends}

-- What the broker learns of a delivery: `Ack`, `Nack` with requeue, or nothing since the process has
-- panicked. The broker's answer to either is ignored.
pub data Verdict : Type 0 where
  acked requeued crashed : Verdict

abbrev pub Process : Type 0
Process = String → M ⊤

abbrev pub verdict : Result ⊤ → Verdict
verdict (ok a) = acked
verdict (err e) = if is_panic e then crashed else requeued

-- After a panic nothing more is consumed.
abbrev pub go_on : Verdict → List Verdict × World → World → List Verdict × World
go_on crashed rest w = (crashed ∷ [], w)
go_on v (vs, w') w = (v ∷ vs, w')

unfoldable pub consume_loop : Process → List String → World → List Verdict × World
consume_loop process [] w = ([], w)
consume_loop process (body ∷ bodies) w =
    let (r, w') = process body w in
    let rest = consume_loop process bodies w' in go_on (verdict r) rest w'

-- The analytics worker acknowledges what it has logged.
unfoldable pub process_analytics : Process
process_analytics body w = (ok tt, w)

module _ {Row : Type 0} (t : Table Row) (P : String → Good ⊤ Row) (E : String → Bad Row) where
  -- The rows that the deliveries have added, in turn: what `P` says for one that is acknowledged,
  -- and what `E` says for another.
  abbrev pub Handled : Database → List String → List Verdict → List Row → Type 0
  Handled d [] [] rows = rows ≡ []
  Handled d [] (v ∷ vs) rows = ⊥
  Handled d (b ∷ bs) [] rows = ⊥
  Handled d (b ∷ bs) (acked ∷ vs) rows =
      (xs : List Row) × (ys : List Row) × (rows ≡ xs ++ ys)
      × P b d tt xs
      × Handled (t.add d xs) bs vs ys
  Handled d (b ∷ bs) (requeued ∷ vs) rows =
      (xs : List Row) × (ys : List Row) × (rows ≡ xs ++ ys)
      × E b d xs
      × Handled (t.add d xs) bs vs ys
  Handled d (b ∷ bs) (crashed ∷ vs) rows = (vs ≡ []) × E b d rows

  next-Handled :
      (d : Database) (b : String) (bs : List String) (r : Result ⊤) (vs : List Verdict)
      (w w' : World) (xs ys : List Row)
      → w.db ≡ t.add d xs
      → Ends (P b) (E b) d r xs
      → w'.db ≡ t.add w.db ys
      → Handled w.db bs vs ys
      → (rows : List Row) × ((go_on (verdict r) (vs, w') w).1.db ≡ t.add d rows)
        × Handled d (b ∷ bs) (go_on (verdict r) (vs, w') w).0 rows
  next-Handled d b bs (ok a) vs w w' xs ys moved ends moved' handled = (
    xs ++ ys,
    moved' ∙ ap (λ d'. t.add d' ys) moved ∙ t.add_add d xs ys,
    (xs, ys, refl, ends, subst (λ d'. Handled d' bs vs ys) moved handled),
  )
  next-Handled d b bs (err e) vs w w' xs ys moved ends moved' handled =
      elim (Bool-cases (is_panic e)) [
        | inl panics ↦ rw panics (xs, moved, (refl, ends))
        | inr errs ↦ rw errs (
          xs ++ ys,
          moved' ∙ ap (λ d'. t.add d' ys) moved ∙ t.add_add d xs ys,
          (xs, ys, refl, ends, subst (λ d'. Handled d' bs vs ys) moved handled),
        )
      ]

  module _ (process : Process) (k : (b : String) → Appends t (process b) (P b) (E b)) where
    pub consume_loop-Handled :
        (bodies : List String) (w : World)
        → (rows : List Row) × ((consume_loop process bodies w).1.db ≡ t.add w.db rows)
          × Handled w.db bodies (consume_loop process bodies w).0 rows
    unfolding consume_loop
    consume_loop-Handled [] w = ([], sym (t.add_nil w.db), refl)
    consume_loop-Handled (b ∷ bs) w =
        let (xs, moved, ends) = (k b).appends w in
        let (ys, moved', handled) = consume_loop-Handled bs (process b w).1 in
        next-Handled w.db b bs (process b w).0 (consume_loop process bs (process b w).1).0
          (process b w).1 (consume_loop process bs (process b w).1).1 xs ys moved ends moved'
          handled
