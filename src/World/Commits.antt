-- ===== src/World/Commits.antt =====
-- How a request that writes ends: judgements on code that commits, and on the whole of a request.
use wallet_ledger_service.Common.{
  ℕ, suc, String, ◌≡◌, refl, sym, ◌∙◌, ◌⊎◌, inl, inr, Bool, true, false, ⊤, Option, none, some,
  List, [], ◌∷◌, ◌++◌,
}
use mathlib.Core.Path.{subst}
use mathlib.Core.Option.{some-injective}
use wallet_ledger_service.Failure.{Result, ok, err, has_sentinel}
use wallet_ledger_service.Database.{Database}
use wallet_ledger_service.World.Monad.{
  Env, World, Event, M, CommitResult, committed, refused, reply_lost, ◌>>=◌, resume, pure, wrap,
  rewrap, or_fault, open_tx, begin, commit, close, with_rollback, spawn_publish,
}
use wallet_ledger_service.World.Rules.{Effect, Runs}
use wallet_ledger_service.World.Reading.{Reads, ok_injective}

abbrev pub IsErr : {A : Type 0} → Result A → Type 0
IsErr (ok a) = ⊥
IsErr (err e) = ⊤

-- An error that is none of the services' own.
abbrev pub IsFault : {A : Type 0} → Result A → Type 0
IsFault (ok a) = ⊥
IsFault (err e) = has_sentinel e ≡ false

-- The answer, the event and the tables that code makes of the working copy.
abbrev pub Outcome : Type 0 → Type 1
Outcome A = Database → A → Event → Database → Type 0

-- What was done is answered with its event, or the reply to COMMIT is lost: then the code ends in a
-- fault and publishes nothing.
abbrev pub Answered : {A : Type 0} → List Event → A → Event → Result A × List Event → Type 0
Answered before a e (r, after) =
    ((r ≡ ok a) × (after ≡ before ++ e ∷ [])) ⊎ (IsFault r × (after ≡ before))

-- From the working copy `d` the code errs and commits and publishes nothing, or it has committed
-- what `T` says.
abbrev pub Settled : {A : Type 0} → Outcome A → World → Database → Result A × World → Type 0
Settled {A} T w d (r, w') =
    (IsErr r × (w'.db ≡ w.db) × (w'.events ≡ w.events))
    ⊎ ((a : A) × (e : Event) × T d a e w'.db × Answered w.events a e (r, w'.events))

pub record Settles {A : Type 0} (m : M A) (T : Outcome A) : Type 0 where
  pub settled : (w : World) (d : Database) → w.tx ≡ some d → Settled T w d (m w)

-- The working copy's way up to the code that commits.
abbrev pub After : {A B : Type 0} → Effect A → (A → Outcome B) → Outcome B
After {A} R T d b e d'' = (a : A) × (d' : Database) × R d a d' × T a d' b e d''

module _ {A B : Type 0} (R : Effect A) {T : A → Outcome B} {f : A → M B} where
  resume-Settled :
      ((a : A) → Settles (f a) (T a))
      → (start : World) (d : Database) (r : Result A) (w : World) → w.db ≡ start.db
      → w.events ≡ start.events
      → ((a : A) → r ≡ ok a → (d' : Database) × (w.tx ≡ some d') × R d a d')
      → Settled (After R T) start d (resume r f w)
  resume-Settled l start d (err x) w same quiet m = inl (tt, same, quiet)
  resume-Settled l start d (ok a) w same quiet m =
      let (d', t, x) = m a refl in
      elim ((l a).settled w d' t) [
        | inl (bad, s, q) ↦ inl (bad, s ∙ same, q ∙ quiet)
        | inr (b, e, y, ans) ↦ inr (b, e, (a, d', x, y), rw (← quiet) ans)
      ]

module _ {A B : Type 0} {R : Effect A} {T : A → Outcome B} {m : M A} {f : A → M B} where
  pub Settles-bind : Runs m R → ((a : A) → Settles (f a) (T a)) → Settles (m >>= f) (After R T)
  unfolding ◌>>=◌
  Settles-bind k l = record {
    settled = λ w d h.
        resume-Settled R l w d (m w).0 (m w).1 (k.db_same w) (k.events_same w)
          (λ a. k.moves w d a h);
  }

module _ {A : Type 0} where
  pub Settles-weaken :
      {T U : Outcome A} {m : M A}
      → Settles m T
      → ((d : Database) (a : A) (e : Event) (d' : Database) → T d a e d' → U d a e d')
      → Settles m U
  Settles-weaken k f = record {
    settled = λ w d h. elim (k.settled w d h) [
      | inl x ↦ inl x
      | inr (a, e, t, ans) ↦ inr (a, e, f d a e _ t, ans)
    ];
  }

  close-Settled :
      (text : String) (event : Event) (a : A) (t : Option Database) (c : CommitResult) (w : World)
      (d : Database)
      → t ≡ some d
      → Settled
          (λ d1 b e d2. (d2 ≡ d1) × (b ≡ a) × (e ≡ event))
          w
          d
          (resume
            (rewrap text (close t c w).0)
            (λ _. spawn_publish event >>= λ _. pure a)
            (close t c w).1)
  unfolding ◌>>=◌ spawn_publish pure
  close-Settled text event a none c w d h = cc
  close-Settled text event a (some c) committed w d h =
      inr (a, event, (some-injective _ _ h, refl, refl), inl (refl, refl))
  close-Settled text event a (some c) refused w d h = inl (tt, refl, refl)
  close-Settled text event a (some c) reply_lost w d h =
      inr (a, event, (some-injective _ _ h, refl, refl), inr (refl, refl))

  -- COMMIT, the event and the answer.
  pub Settles-commit :
      (env : Env) (text : String) (event : Event) (a : A)
      → Settles
          (wrap text (commit env) >>= λ _. spawn_publish event >>= λ _. pure a)
          (λ d b e d'. (d' ≡ d) × (b ≡ a) × (e ≡ event))
  unfolding wrap commit ◌>>=◌
  Settles-commit env text event a = record {
    settled = λ w d h.
        close-Settled text event a w.tx (env.commit_result w.calls)
          (record w { calls = suc w.calls }) d h;
  }

-- A whole request: from the tables `start` that it first reads, with `d` as its transaction begins.
abbrev pub Ruling : Type 0 → Type 1
Ruling A = Database → Outcome A

-- It errs, and the tables are as it found them or as other sessions have left them; or it has
-- committed what `T` says of the tables that other sessions have left.
abbrev pub Requested : {A : Type 0} → Env → Ruling A → World → Result A × World → Type 0
Requested {A} env T w (r, w') =
    (IsErr r × ((w'.db ≡ w.db) ⊎ ((n : ℕ) × (w'.db ≡ env.others n w.db))) × (w'.events ≡ w.events))
    ⊎ ((n : ℕ) × (a : A) × (e : Event) × T w.db (env.others n w.db) a e w'.db
        × Answered w.events a e (r, w'.events))

pub record Requests {A : Type 0} (env : Env) (m : M A) (T : Ruling A) : Type 0 where
  pub requested : (w : World) → Requested env T w (m w)

abbrev pub Having : {A B : Type 0} → (Database → A → Type 0) → (A → Ruling B) → Ruling B
Having {A} P T start d b e d' = (a : A) × P start a × T a start d b e d'

module _ {A B : Type 0} (env : Env) (P : Database → A → Type 0) {T : A → Ruling B}
    {f : A → M B} where
  resume-Requested :
      ((a : A) → Requests env (f a) (T a))
      → (start : World) (r : Result A) (w : World) → w.db ≡ start.db
      → w.events ≡ start.events
      → ((a : A) → r ≡ ok a → P start.db a)
      → Requested env (Having P T) start (resume r f w)
  resume-Requested l start (err x) w same quiet p = inl (tt, inl same, quiet)
  resume-Requested l start (ok a) w same quiet p = elim ((l a).requested w) [
    | inl (bad, inl s, q) ↦ inl (bad, inl (s ∙ same), q ∙ quiet)
    | inl (bad, inr (n, s), q) ↦ inl (bad, inr (n, rw (← same) s), q ∙ quiet)
    | inr (n, b, e, y, ans) ↦ inr (n, b, e, (a, p a refl, rw (← same) y), rw (← quiet) ans)
  ]

module _ {A B : Type 0} {env : Env} {P : Database → A → Type 0} {T : A → Ruling B} {m : M A}
    {f : A → M B} where
  pub Requests-bind :
      Reads m P → ((a : A) → Requests env (f a) (T a)) → Requests env (m >>= f) (Having P T)
  unfolding ◌>>=◌
  Requests-bind k l = record {
    requested =
        λ w. resume-Requested env P l w (m w).0 (m w).1 (k.db_same w) (k.events_same w) (k.finds w);
  }

module _ {A : Type 0} where
  pub Requests-weaken :
      {env : Env} {T U : Ruling A} {m : M A}
      → Requests env m T
      → ((start d : Database) (a : A) (e : Event) (d' : Database)
          → T start d a e d'
          → U start d a e d')
      → Requests env m U
  Requests-weaken {env} k f = record {
    requested = λ w. elim (k.requested w) [
      | inl x ↦ inl x
      | inr (n, a, e, t, ans) ↦ inr (n, a, e, f w.db (env.others n w.db) a e _ t, ans)
    ];
  }

  begin-Requested :
      (env : Env) (text : String) (m : M A) (T : Outcome A)
      → Settles m T
      → (fault : Bool) (w : World) (n : ℕ)
      → Requested env
          (λ start d. T d)
          w
          (resume
            (rewrap text (or_fault fault (open_tx env n) w).0)
            (λ _. with_rollback m)
            (or_fault fault (open_tx env n) w).1)
  unfolding with_rollback
  begin-Requested env text m T k true w n = inl (tt, inl refl, refl)
  begin-Requested env text m T k false w n =
      let b = (open_tx env n w).1 in
      elim (k.settled b (env.others n w.db) refl) [
        | inl (bad, s, q) ↦ inl (bad, inr (n, s), q)
        | inr (a, e, t, ans) ↦ inr (n, a, e, t, ans)
      ]

  -- BEGIN, the body and the deferred rollback.
  pub Requests-begin :
      (env : Env) (text : String) {m : M A} {T : Outcome A}
      → Settles m T
      → Requests env (wrap text (begin env) >>= λ _. with_rollback m) (λ start d. T d)
  unfolding wrap begin ◌>>=◌
  Requests-begin env text {m} {T} k = record {
    requested = λ w.
        begin-Requested env text m T k (env.fails w.calls) (record w { calls = suc w.calls })
          w.calls;
  }

-- What holds of the tables that a request may meet, and what its outcome keeps, holds as it ends.
pub Requests-keeps :
    {A : Type 0} {env : Env} {m : M A} {T : Ruling A} (P : Database → Type 0)
    → Requests env m T
    → ((start d : Database) (a : A) (e : Event) (d' : Database) → T start d a e d' → P d → P d')
    → (w : World) → P w.db
    → ((n : ℕ) → P (env.others n w.db))
    → P (m w).1.db
Requests-keeps {env = env} P k f w here there = elim (k.requested w) [
  | inl (bad, inl same, q) ↦ subst P (sym same) here
  | inl (bad, inr (n, same), q) ↦ subst P (sym same) (there n)
  | inr (n, a, e, t, ans) ↦ f w.db (env.others n w.db) a e _ t (there n)
]

pub not_err : {A : Type 0} (r : Result A) (a : A) → r ≡ ok a → IsErr r → ⊥
not_err (ok b) a h bad = bad
not_err (err e) a h bad = cc

not_fault : {A : Type 0} (r : Result A) (a : A) → r ≡ ok a → IsFault r → ⊥
not_fault (ok b) a h bad = bad
not_fault (err e) a h bad = cc

-- A request that answers has committed what it answers, and published its event.
pub Requests-ok :
    {A : Type 0} {env : Env} {m : M A} {T : Ruling A}
    → Requests env m T
    → (w : World) (a : A) → (m w).0 ≡ ok a
    → (n : ℕ) × (e : Event) × T w.db (env.others n w.db) a e (m w).1.db
      × ((m w).1.events ≡ w.events ++ e ∷ [])
Requests-ok {env = env} {m = m} {T = T} k w a h = elim (k.requested w) [
  | inl (bad, _, _) ↦ absurd (not_err _ a h bad)
  | inr (n, b, e, t, inl (r, q)) ↦ (
    n,
    e,
    subst (λ c. T w.db (env.others n w.db) c e (m w).1.db) (ok_injective b a (sym r ∙ h)) t,
    q,
  )
  | inr (n, b, e, t, inr (bad, _)) ↦ absurd (not_fault _ a h bad)
]
