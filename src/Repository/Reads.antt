-- ===== src/Repository/Reads.antt =====
-- What the queries outside a transaction find.
use mathlib.Core.Path.{subst}
use wallet_ledger_service.Common.{
  ℕ, suc, String, ◌≡◌, refl, sym, ap, ◌∙◌, Bool, true, false, List, map, length, arith,
}
use wallet_ledger_service.Common.Int.{ℤ}
use wallet_ledger_service.Common.Words.{int32}
use wallet_ledger_service.Failure.{Result, ok, err}
use wallet_ledger_service.Failure
use wallet_ledger_service.Database.{Database}
use wallet_ledger_service.World.{Env, World, M, resume, ◌>>=◌, pure, no_tx, or_lost, run, query}
use wallet_ledger_service.World.Reading.{Reads, Reads-wrap, Reads-weaken, ok_injective}
use wallet_ledger_service.Sql.Order.{page}
use wallet_ledger_service.Repository.Common.{reading, bound, list_page}

module _ {A B : Type 0} (P : Database → A → Type 0) {Q : A → Database → B → Type 0}
    {f : A → M B} where
  resume-Reads :
      ((a : A) → Reads (f a) (Q a))
      → (d : Database) (r : Result A) (w : World) → w.db ≡ d
      → ((a : A) → r ≡ ok a → P d a)
      → ((resume r f w).1.db ≡ w.db)
        × ((resume r f w).1.events ≡ w.events)
        × ((b : B) → (resume r f w).0 ≡ ok b → (a : A) × P d a × Q a w.db b)
  resume-Reads l d (ok a) w same p =
      ((l a).db_same w, (l a).events_same w, λ b e. (a, p a refl, (l a).finds w b e))
  resume-Reads l d (err x) w same p = (refl, refl, λ b e. cc)

module _ {A B : Type 0} {P : Database → A → Type 0} {Q : A → Database → B → Type 0} {m : M A}
    {f : A → M B} where
  pub Reads-bind :
      Reads m P → ((a : A) → Reads (f a) (Q a)) → Reads (m >>= f) (λ d b. (a : A) × P d a × Q a d b)
  unfolding ◌>>=◌
  Reads-bind k l =
      let end = λ (w : World). resume-Reads P l w.db (m w).0 (m w).1 (k.db_same w) (k.finds w) in
      record {
        db_same = λ w. (end w).0 ∙ k.db_same w;
        events_same = λ w. (end w).1 ∙ k.events_same w;
        finds =
            λ w b e. let (a, p, q) = (end w).2 b e in (a, p, subst (λ d. Q a d b) (k.db_same w) q);
      }

module _ {A : Type 0} where
  pub Reads-pure : (a : A) → Reads (pure a) (λ d b. b ≡ a)
  unfolding pure
  Reads-pure a = record {
    db_same = λ w. refl;
    events_same = λ w. refl;
    finds = λ w b e. ground arith;
  }

  reading-finds :
      (q : Database → Result A) (n : ℕ) (fault lost : Bool) (w : World)
      → ((or_lost fault lost (run no_tx (reading q n)) w).1.db ≡ w.db)
        × ((or_lost fault lost (run no_tx (reading q n)) w).1.events ≡ w.events)
        × ((a : A) → (or_lost fault lost (run no_tx (reading q n)) w).0 ≡ ok a → q w.db ≡ ok a)
  reading-finds q n true false w = (refl, refl, λ a e. cc)
  reading-finds q n true true w = (ground arith, ground arith, λ a e. cc)
  reading-finds q n false lost w = ground arith

  pub Reads-query :
      (env : Env) (q : Database → Result A)
      → Reads (query env no_tx (reading q)) (λ d a. q d ≡ ok a)
  unfolding query
  Reads-query env q =
      let end = λ (w : World).
        reading-finds q w.calls (env.fails w.calls) (env.applied w.calls)
          (record w { calls = suc w.calls }) in
      record {
        db_same = λ w. (end w).0;
        events_same = λ w. (end w).1;
        finds = λ w a e. (end w).2 a e;
      }

-- A page of the rows, and the count of all of them.
pub record Paged {A B : Type 0} (f : A → B) (limit offset : ℤ) (rows : ℕ → ℕ → Database → List A)
    (count : Database → ℕ) (d : Database) (r : List B × ℕ) : Type 0 where
  pub size : ℕ
  pub skipped : ℕ
  pub size_is : bound (int32 limit) ≡ ok size
  pub skipped_is : bound (int32 offset) ≡ ok skipped
  pub listed : r.0 ≡ map f (rows size skipped d)
  pub total : r.1 ≡ count d

page_parts :
    {A : Type 0} (limit offset : Result ℕ) (rows : ℕ → ℕ → List A) (xs : List A)
    → Failure.◌>>=◌ limit (λ l. Failure.◌>>=◌ offset λ o. ok (rows l o)) ≡ ok xs
    → (l : ℕ) × (o : ℕ) × (limit ≡ ok l) × (offset ≡ ok o) × (xs ≡ rows l o)
page_parts (ok l) (ok o) rows xs h = (l, o, refl, refl, ground arith)
page_parts (ok l) (err e) rows xs h = ground arith
page_parts (err e) o rows xs h = ground arith

pub list_page-Paged :
    {A B : Type 0} (env : Env) (text count_text : String) (f : A → B) (limit offset : ℤ)
    (rows : ℕ → ℕ → Database → List A) (count : Database → ℕ)
    → Reads
        (list_page env text count_text f limit offset rows count)
        (Paged f limit offset rows count)
unfolding list_page
list_page-Paged env text count_text f limit offset rows count =
    Reads-weaken
      (Reads-bind (Reads-wrap _ (Reads-query env _)) λ found.
        Reads-bind (Reads-wrap _ (Reads-query env (λ d. ok (count d))))
          λ total. Reads-pure (map f found, total))
      (λ d r (found, h, (total, k, same)).
        let (l, o, hl, ho, e) = page_parts _ _ (λ l o. rows l o d) found h in
        record {
          size = l;
          skipped = o;
          size_is = hl;
          skipped_is = ho;
          listed = ap (λ (x : List _ × ℕ). x.0) same ∙ ap (map f) e;
          total = ap (λ (x : List _ × ℕ). x.1) same ∙ sym (ok_injective _ _ k);
        })

-- The same page, where the rows come from the same list.
pub repaged :
    {A B : Type 0} (f : A → B) (sort : List A → List A) (limit offset : ℤ) (d : Database)
    (from to : Database → List A) (r : List B × ℕ)
    → Paged f limit offset (λ l o e. page l o (sort (from e))) (λ e. length (from e)) d r
    → from d ≡ to d
    → Paged f limit offset (λ l o e. page l o (sort (to e))) (λ e. length (to e)) d r
repaged f sort limit offset d from to r k e = record {
  size = k.size;
  skipped = k.skipped;
  size_is = k.size_is;
  skipped_is = k.skipped_is;
  listed = k.listed ∙ ap (λ ts. map f (page k.size k.skipped (sort ts))) e;
  total = k.total ∙ ap length e;
}
