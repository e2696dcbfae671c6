-- ===== src/World/Appends.antt =====
-- Code that adds rows to one table by single statements on the pool: a judgement with a rule for each
-- way to build such code.
use mathlib.Core.Path.{subst}
use mathlib.Core.List.{append-nil}
use wallet_ledger_service.Common.{
  String, ◌≡◌, refl, sym, ap, ◌∙◌, Bool, true, false, ◌⊎◌, inl, inr, List, [], ◌++◌, Option, none,
  some, arith, if◌then◌else◌,
}
use wallet_ledger_service.Failure.{Error, Result, ok, err}
use wallet_ledger_service.Database.{Database}
use wallet_ledger_service.World.Monad.{
  Env, World, M, ◌>>=◌, pure, resume, wrap, rewrap, or_fail, push,
}
use wallet_ledger_service.World.Reading.{Reads}
use wallet_ledger_service.Model.{Notification}

-- A table that grows.
pub record Table (Row : Type 0) : Type 0 where
  pub add : Database → List Row → Database
  pub add_nil : (d : Database) → add d [] ≡ d
  pub add_add : (d : Database) (xs ys : List Row) → add (add d xs) ys ≡ add d (xs ++ ys)

-- What holds of the tables before, of a value and of the rows; and of the rows where the code errs.
abbrev pub Good : Type 0 → Type 0 → Type 1
Good A Row = Database → A → List Row → Type 0

abbrev pub Bad : Type 0 → Type 1
Bad Row = Database → List Row → Type 0

abbrev pub Ends : {A Row : Type 0} → Good A Row → Bad Row → Database → Result A → List Row → Type 0
Ends P E d (ok a) rows = P d a rows
Ends P E d (err e) rows = E d rows

abbrev pub NoRows : {Row : Type 0} → Bad Row
NoRows d rows = rows ≡ []

abbrev pub Never : {Row : Type 0} → Bad Row
Never d rows = ⊥

module _ {Row : Type 0} (t : Table Row) where
  pub record Appends {A : Type 0} (m : M A) (P : Good A Row) (E : Bad Row) : Type 0 where
    pub appends :
        (w : World)
        → (rows : List Row) × ((m w).1.db ≡ t.add w.db rows) × Ends P E w.db (m w).0 rows

  -- One after the other.
  abbrev pub ThenGood : {A B : Type 0} → Good A Row → (A → Good B Row) → Good B Row
  ThenGood {A} P Q d b zs =
      (a : A) × (xs : List Row) × (ys : List Row) × (zs ≡ xs ++ ys)
      × P d a xs
      × Q a (t.add d xs) b ys

  abbrev pub ThenBad : {A : Type 0} → Good A Row → Bad Row → (A → Bad Row) → Bad Row
  ThenBad {A} P E F d zs =
      E d zs
      ⊎ ((a : A) × (xs : List Row) × (ys : List Row) × (zs ≡ xs ++ ys)
          × P d a xs
          × F a (t.add d xs) ys)

  pub Appends-weaken :
      {A : Type 0} {m : M A} {P Q : Good A Row} {E F : Bad Row}
      → Appends m P E
      → ((d : Database) (a : A) (rows : List Row) → P d a rows → Q d a rows)
      → ((d : Database) (rows : List Row) → E d rows → F d rows)
      → Appends m Q F
  Appends-weaken {A} {m} {P} {Q} {E} {F} k f g = record {
    appends =
        λ w. let (rows, moved, ends) = k.appends w in (rows, moved, go w.db (m w).0 rows ends);
  }
    where
      go : (d : Database) (r : Result A) (rows : List Row) → Ends P E d r rows → Ends Q F d r rows
      go d (ok a) rows p = f d a rows p
      go d (err e) rows p = g d rows p

  pub Appends-pure :
      {A : Type 0} (a : A) → Appends (pure a) (λ d b rows. (b ≡ a) × (rows ≡ [])) Never
  unfolding pure
  Appends-pure a = record { appends = λ w. ([], sym (t.add_nil w.db), (refl, refl)) }

  pub Appends-wrap :
      {A : Type 0} {m : M A} {P : Good A Row} {E : Bad Row} (text : String)
      → Appends m P E
      → Appends (wrap text m) P E
  unfolding wrap
  Appends-wrap {A} {m} {P} {E} text k = record {
    appends =
        λ w. let (rows, moved, ends) = k.appends w in (rows, moved, go w.db (m w).0 rows ends);
  }
    where
      go :
          (d : Database) (r : Result A) (rows : List Row)
          → Ends P E d r rows
          → Ends P E d (rewrap text r) rows
      go d (ok a) rows p = p
      go d (err e) rows p = p

  resume-Appends :
      {A B : Type 0} (P : Good A Row) (E : Bad Row) {f : A → M B} {Q : A → Good B Row}
      {F : A → Bad Row}
      → ((a : A) → Appends (f a) (Q a) (F a))
      → (d : Database) (r : Result A) (w : World) (xs : List Row) → w.db ≡ t.add d xs
      → Ends P E d r xs
      → (rows : List Row) × ((resume r f w).1.db ≡ t.add d rows)
        × Ends (ThenGood P Q) (ThenBad P E F) d (resume r f w).0 rows
  resume-Appends P E l d (err e) w xs moved p = (xs, moved, inl p)
  resume-Appends {A} {B} P E {f} {Q} {F} l d (ok a) w xs moved p =
      let (ys, moved', ends) = (l a).appends w in
      (
        xs ++ ys,
        moved' ∙ ap (λ d'. t.add d' ys) moved ∙ t.add_add d xs ys,
        go (f a w).0 ys (rw (← moved) ends),
      )
    where
      go :
          (r : Result B) (ys : List Row)
          → Ends (Q a) (F a) (t.add d xs) r ys
          → Ends (ThenGood P Q) (ThenBad P E F) d r (xs ++ ys)
      go (ok b) ys q = (a, xs, ys, refl, p, q)
      go (err e) ys q = inr (a, xs, ys, refl, p, q)

  pub Appends-bind :
      {A B : Type 0} {m : M A} {P : Good A Row} {E : Bad Row} {f : A → M B} {Q : A → Good B Row}
      {F : A → Bad Row}
      → Appends m P E
      → ((a : A) → Appends (f a) (Q a) (F a))
      → Appends (m >>= f) (ThenGood P Q) (ThenBad P E F)
  unfolding ◌>>=◌
  Appends-bind {m = m} {P = P} {E = E} k l = record {
    appends = λ w.
        let (xs, moved, p) = k.appends w in resume-Appends P E l w.db (m w).0 (m w).1 xs moved p;
  }

  abbrev pub Still : {A : Type 0} → (Database → A → Type 0) → Good A Row
  Still P d a rows = (rows ≡ []) × P d a

  -- Nothing is added by what leaves the tables alone.
  pub Appends-still :
      {A : Type 0} {m : M A} (P : Database → A → Type 0)
      → ((w : World) → (m w).1.db ≡ w.db)
      → ((w : World) (a : A) → (m w).0 ≡ ok a → P w.db a)
      → Appends m (Still P) NoRows
  Appends-still {A} {m} P same finds = record {
    appends = λ w. ([], same w ∙ sym (t.add_nil w.db), go w.db (m w).0 (finds w));
  }
    where
      go :
          (d : Database) (r : Result A)
          → ((a : A) → r ≡ ok a → P d a)
          → Ends (Still P) NoRows d r []
      go d (ok a) h = (refl, h a refl)
      go d (err e) h = refl

  pub Appends-Reads :
      {A : Type 0} {m : M A} {P : Database → A → Type 0} → Reads m P → Appends m (Still P) NoRows
  Appends-Reads {P = P} k = Appends-still P k.db_same k.finds

  pub Appends-or_fail :
      {A : Type 0} (o : Option A) (e : Error)
      → Appends (or_fail o e) (Still (λ d a. o ≡ some a)) NoRows
  Appends-or_fail none e = Appends-still _ (λ w. refl) (λ w a h. cc)
  Appends-or_fail (some b) e = Appends-still _ (λ w. refl) (λ w a h. ground arith)

  pub Appends-push :
      (env : Env) (channel : String) (n : Notification)
      → Appends (push env channel n) (λ d u rows. rows ≡ []) Never
  unfolding push
  Appends-push env channel n = record {
    appends = λ w. ([], pushed (env.fails w.calls) w.db _ _ refl refl ∙ sym (t.add_nil w.db), refl);
  }
    where
      pushed :
          (b : Bool) (d : Database) (w w' : World)
          → w.db ≡ d
          → w'.db ≡ d
          → (if b then w else w').db ≡ d
      pushed true d w w' h k = h
      pushed false d w w' h k = k

  -- What comes first adds nothing.
  pub Appends-after :
      {A B : Type 0} {m : M A} {P : Database → A → Type 0} {f : A → M B} {Q : A → Good B Row}
      {E : A → Bad Row}
      → Appends m (Still P) NoRows
      → ((a : A) → Appends (f a) (Q a) (E a))
      → Appends
          (m >>= f)
          (λ d b rows. (a : A) × P d a × Q a d b rows)
          (λ d rows. (rows ≡ []) ⊎ ((a : A) × P d a × E a d rows))
  Appends-after {A} {P = P} {Q = Q} {E = E} k l =
      Appends-weaken (Appends-bind k l)
        (λ d b rows (a, xs, ys, all, (none_yet, p), q). (
          a,
          p,
          subst (λ zs. Q a d b zs) (sym (all ∙ ap (λ zs. zs ++ ys) none_yet))
              (subst (λ d'. Q a d' b ys) (ap (t.add d) none_yet ∙ t.add_nil d) q),
        ))
        (λ d rows b. elim b [
          | inl none_yet ↦ inl none_yet
          | inr (a, xs, ys, all, (none_yet, p), q) ↦ inr (
            a,
            p,
            subst (λ zs. E a d zs) (sym (all ∙ ap (λ zs. zs ++ ys) none_yet))
                (subst (λ d'. E a d' ys) (ap (t.add d) none_yet ∙ t.add_nil d) q),
          )
        ])

  -- A value is made of what was added.
  pub Appends-map :
      {A B : Type 0} {m : M A} {P : Good A Row} {E : Bad Row} (g : A → B)
      → Appends m P E
      → Appends (m >>= λ a. pure (g a)) (λ d b rows. (a : A) × (b ≡ g a) × P d a rows) E
  Appends-map {A} {P = P} {E = E} g k =
      Appends-weaken (Appends-bind k (λ a. Appends-pure (g a)))
        (λ d b rows (a, xs, ys, all, p, (same, end)).
          (a, same, subst (λ zs. P d a zs) (sym (all ∙ ap (λ zs. xs ++ zs) end ∙ append-nil xs)) p))
        (λ d rows b. elim b [ inl e ↦ e | inr (a, xs, ys, all, p, q) ↦ absurd q ])

  -- What comes last adds nothing and does not fail.
  pub Appends-before :
      {A B : Type 0} {m : M A} {P : Good A Row} {E : Bad Row} {f : A → M B} {Q : A → Good B Row}
      → Appends m P E
      → ((a : A) → Appends (f a) (Q a) Never)
      → ((a : A) (d : Database) (b : B) (rows : List Row) → Q a d b rows → rows ≡ [])
      → Appends (m >>= f) (λ d b rows. (a : A) × P d a rows) E
  Appends-before {P = P} k l none_more =
      Appends-weaken (Appends-bind k l)
        (λ d b rows (a, xs, ys, all, p, q). (
          a,
          subst (λ zs. P d a zs)
              (sym (all ∙ ap (λ zs. xs ++ zs) (none_more a _ b ys q) ∙ append-nil xs)) p,
        ))
        (λ d rows b. elim b [ inl e ↦ e | inr (a, xs, ys, all, p, q) ↦ absurd q ])
