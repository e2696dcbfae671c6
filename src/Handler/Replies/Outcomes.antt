-- ===== src/Handler/Replies/Outcomes.antt =====
-- What a reply says of the service that it settles.
use wallet_ledger_service.Common.{
  String, ℕ, ◌≡◌, ◌≢◌, refl, sym, ap, ◌∙◌, Bool, true, false, ◌⊎◌, inl, inr, [], ◌∷◌, ◌++◌, arith,
  if◌then◌else◌,
}
use wallet_ledger_service.Model.{Uuid}
use wallet_ledger_service.Middleware.Auth.{Fetched, got, missing, get_user_id_from_context}
use wallet_ledger_service.Failure.{Error, Result, ok, err, has_sentinel, is_panic}
use wallet_ledger_service.World.{Env, World, Event, M}
use wallet_ledger_service.World.Commits.{IsErr, IsFault, Ruling, Requests}
use wallet_ledger_service.Http.{
  Context, Bound, bound, refused, Reply, replied, panicking, write_error,
}
use wallet_ledger_service.Handler.Replies.{Serve, answer, settle, reply, with_user, with_bound}

-- The tables are as the request found them or as other sessions have left them, and no event is
-- handed on.
abbrev pub Untouched : Env → World → World → Type 0
Untouched env w w' =
    ((w'.db ≡ w.db) ⊎ ((n : ℕ) × (w'.db ≡ env.others n w.db))) × (w'.events ≡ w.events)

-- A reply whose status is neither `s` nor 500 comes with nothing changed.
pub record Spares (env : Env) (s : ℕ) (serve : Serve) : Type 0 where
  pub spares :
      (w : World) (x : Reply)
      → (serve w).0 ≡ replied x
      → x.status ≢ s
      → x.status ≢ 500
      → Untouched env w (serve w).1

abbrev pub Promise : Type 1
Promise = World → Reply → World → Type 0

-- A reply with the status `s` comes with what `Q` says.
pub record Keeps (s : ℕ) (serve : Serve) (Q : Promise) : Type 0 where
  pub keeps : (w : World) (x : Reply) → (serve w).0 ≡ replied x → x.status ≡ s → Q w x (serve w).1

pub replied_injective : (a b : Reply) → replied a ≡ replied b → a ≡ b
replied_injective a b h = ground arith

panic_apart : (r : Reply) → panicking ≡ replied r → ⊥
panic_apart r h = cc

module _ {A : Type 0} (bad : Error → Reply) (good : A → Reply) where
  answer_ok :
      (r : Result A) (a : A) (x : Reply) → r ≡ ok a → answer bad good r ≡ replied x → x ≡ good a
  answer_ok r a x same h = replied_injective x (good a) (sym h ∙ ap (answer bad good) same)

  answer_err :
      (e : Error) (b : Bool) (x : Reply)
      → (if b then panicking else replied (bad e)) ≡ replied x
      → x ≡ bad e
  answer_err e true x h = absurd (panic_apart x h)
  answer_err e false x h = sym (replied_injective _ _ h)

  answer_fault :
      (r : Result A) (x : Reply)
      → IsFault r
      → answer bad good r ≡ replied x
      → (e : Error) × (has_sentinel e ≡ false) × (x ≡ bad e)
  answer_fault (ok a) x f h = absurd f
  answer_fault (err e) x f h = (e, f, answer_err e (is_panic e) x h)

  answer_bad :
      (r : Result A) (x : Reply)
      → IsErr r
      → answer bad good r ≡ replied x
      → (e : Error) × (x ≡ bad e)
  answer_bad (ok a) x f h = absurd f
  answer_bad (err e) x f h = (e, answer_err e (is_panic e) x h)

  module _ {env : Env} {m : M A} {T : Ruling A} (s : ℕ) where
    pub settle-Spares :
        Requests env m T
        → ((a : A) → (good a).status ≡ s)
        → ((e : Error) → has_sentinel e ≡ false → (bad e).status ≡ 500)
        → Spares env s (settle bad good m)
    unfolding settle
    settle-Spares k is_good is_fault = record {
      spares = λ w x h not_good not_fault. elim (k.requested w) [
        | inl (_, same, quiet) ↦ (same, quiet)
        | inr (n, a, e, t, inl (r, _)) ↦
            absurd (not_good (ap (λ (y : Reply). y.status) (answer_ok _ a x r h) ∙ is_good a))
        | inr (n, a, e, t, inr (f, _)) ↦
            let (g, lost, same) = answer_fault _ x f h in
            absurd (not_fault (ap (λ (y : Reply). y.status) same ∙ is_fault g lost))
      ];
    }

    pub settle-Keeps :
        Requests env m T
        → ((e : Error) → (bad e).status ≢ s)
        → Keeps s (settle bad good m) (λ w x w'.
          (n : ℕ) × (a : A) × (e : Event) × T w.db (env.others n w.db) a e w'.db
          × (x ≡ good a)
          × (w'.events ≡ w.events ++ e ∷ []))
    unfolding settle
    settle-Keeps k not_bad = record {
      keeps = λ w x h is_good. elim (k.requested w) [
        | inl (b, _, _) ↦
            let (g, same) = answer_bad _ x b h in
            absurd (not_bad g (sym (ap (λ (y : Reply). y.status) same) ∙ is_good))
        | inr (n, a, e, t, inl (r, q)) ↦ (n, a, e, t, answer_ok _ a x r h, q)
        | inr (n, a, e, t, inr (f, _)) ↦
            let (g, _, same) = answer_fault _ x f h in
            absurd (not_bad g (sym (ap (λ (y : Reply). y.status) same) ∙ is_good))
      ];
    }

reply_same : (y x : Reply) (w : World) → (reply y w).0 ≡ replied x → x ≡ y
reply_same y x w h = sym (replied_injective y x h)

reply-Spares : (env : Env) (s : ℕ) (y : Reply) → Spares env s (reply y)
reply-Spares env s y = record { spares = λ w x h p q. (inl refl, refl) }

reply-Keeps : (s : ℕ) (y : Reply) (Q : Promise) → y.status ≢ s → Keeps s (reply y) Q
reply-Keeps s y Q n = record {
  keeps = λ w x h p. absurd (n (sym (ap (λ (z : Reply). z.status) (reply_same y x w h)) ∙ p));
}

Fetched-cases :
    {A : Type 0} (o : Fetched A) → ((a : A) × (o ≡ got a)) ⊎ ((text : String) × (o ≡ missing text))
Fetched-cases (got a) = inl (a, refl)
Fetched-cases (missing text) = inr (text, refl)

Keeps-weaken :
    {s : ℕ} {serve : Serve} {P Q : Promise}
    → Keeps s serve P
    → ((w : World) (x : Reply) (w' : World) → P w x w' → Q w x w')
    → Keeps s serve Q
Keeps-weaken k f = record { keeps = λ w x h p. f w x _ (k.keeps w x h p) }

-- The guards reply 401 and 400 and leave all as it is.
module _ {f : Uuid → Serve} (c : Context) where
  pub with_user-Spares :
      {env : Env} {s : ℕ} → ((id : Uuid) → Spares env s (f id)) → Spares env s (with_user c f)
  unfolding with_user
  with_user-Spares {env} {s} k = elim (Fetched-cases (get_user_id_from_context c)) [
    | inl (id, e) ↦ rw (with_user, e) (k id)
    | inr (text, e) ↦ rw (with_user, e) (reply-Spares env s _)
  ]

  pub with_user-Keeps :
      {s : ℕ} {Q : Uuid → Promise}
      → 401 ≢ s
      → ((id : Uuid) → Keeps s (f id) (Q id))
      → Keeps s
          (with_user c f)
          (λ w x w'. (id : Uuid) × (get_user_id_from_context c ≡ got id) × Q id w x w')
  unfolding with_user write_error
  with_user-Keeps {s} n k = elim (Fetched-cases (get_user_id_from_context c)) [
    | inl (id, e) ↦ rw (with_user, e) (Keeps-weaken (k id) λ w x w' q. (id, refl, q))
    | inr (text, e) ↦ rw (with_user, e) (reply-Keeps s _ _ n)
  ]

module _ {B : Type 0} {f : B → Serve} where
  pub with_bound-Spares :
      {env : Env} {s : ℕ} (b : Bound B)
      → ((a : B) → Spares env s (f a))
      → Spares env s (with_bound b f)
  unfolding with_bound
  with_bound-Spares (bound a) k = k a
  with_bound-Spares {env} {s} (refused e) k = reply-Spares env s _

  pub with_bound-Keeps :
      {s : ℕ} {Q : B → Promise} (b : Bound B)
      → 400 ≢ s
      → ((a : B) → Keeps s (f a) (Q a))
      → Keeps s (with_bound b f) (λ w x w'. (a : B) × (b ≡ bound a) × Q a w x w')
  unfolding with_bound write_error
  with_bound-Keeps (bound a) n k = Keeps-weaken (k a) λ w x w' q. (a, refl, q)
  with_bound-Keeps {s} (refused e) n k = reply-Keeps s _ _ n
