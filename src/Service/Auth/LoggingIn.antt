-- ===== src/Service/Auth/LoggingIn.antt =====
-- What a login has found, internal/service/auth_service.go.
use mathlib.Core.Path.{subst}
use wallet_ledger_service.Common.{
  true_of_not, String, ◌≡◌, refl, sym, ap, ◌∙◌, true, not, ◌⊎◌, inl, inr, some, [], ◌∷◌, ◌++◌,
}
use wallet_ledger_service.Model.{Uuid, User}
use wallet_ledger_service.Failure.{Result, ok, err, invalid_credentials}
use wallet_ledger_service.Database.{Database}
use wallet_ledger_service.World.{
  Env, World, Event, EventData, M, resume, ◌>>=◌, pure, spawn_publish,
}
use wallet_ledger_service.World.Commits.{IsErr, not_err}
use wallet_ledger_service.World.Reading.{
  Reads, Reads-or_raise, Reads-raise_if, Reads-wrap, ok_injective,
}
use wallet_ledger_service.Repository.Effects.{Found}
use wallet_ledger_service.Repository.Users.{map_user}
use wallet_ledger_service.Sql.Users.{find_user_by_email}
use wallet_ledger_service.Dto.Bodies.{LoginRequest, LoginResponse}
use wallet_ledger_service.Service.Events.{publish_event}
use wallet_ledger_service.Service.Auth.{login}
use wallet_ledger_service.Service.Auth.Registering.{Reads-or_fail, find_by_email-Reads}

-- Code that reads the tables and ends with one event, or errs without one.
abbrev Told : {A : Type 0} → (Database → A → Event → Type 0) → World → Result A × World → Type 0
Told {A} T w (r, w') =
    (w'.db ≡ w.db)
    × ((IsErr r × (w'.events ≡ w.events))
        ⊎ ((a : A) × (e : Event) × (r ≡ ok a) × T w.db a e × (w'.events ≡ w.events ++ e ∷ [])))

record Tells {A : Type 0} (m : M A) (T : Database → A → Event → Type 0) : Type 0 where
  tells : (w : World) → Told T w (m w)

module _ {A B : Type 0} (P : Database → A → Type 0) {T : A → Database → B → Event → Type 0}
    {f : A → M B} where
  resume-Told :
      ((a : A) → Tells (f a) (T a))
      → (start : World) (r : Result A) (w : World) → w.db ≡ start.db
      → w.events ≡ start.events
      → ((a : A) → r ≡ ok a → P start.db a)
      → Told (λ d b e. (a : A) × P d a × T a d b e) start (resume r f w)
  resume-Told l start (err x) w same quiet p = (same, inl (tt, quiet))
  resume-Told l start (ok a) w same quiet p =
      let (same', ends) = (l a).tells w in
      (
        same' ∙ same,
        elim ends [
          | inl (bad, q) ↦ inl (bad, q ∙ quiet)
          | inr (b, e, r, t, q) ↦ inr (
            b,
            e,
            r,
            (a, p a refl, subst (λ d. T a d b e) same t),
            q ∙ ap (λ l. l ++ e ∷ []) quiet,
          )
        ],
      )

module _ {A B : Type 0} {P : Database → A → Type 0} {T : A → Database → B → Event → Type 0}
    {m : M A} {f : A → M B} where
  Tells-bind :
      Reads m P
      → ((a : A) → Tells (f a) (T a))
      → Tells (m >>= f) (λ d b e. (a : A) × P d a × T a d b e)
  unfolding ◌>>=◌
  Tells-bind k l = record {
    tells = λ w. resume-Told P l w (m w).0 (m w).1 (k.db_same w) (k.events_same w) (k.finds w);
  }

Tells-weaken :
    {A : Type 0} {m : M A} {T U : Database → A → Event → Type 0}
    → Tells m T
    → ((d : Database) (a : A) (e : Event) → T d a e → U d a e)
    → Tells m U
Tells-weaken k f = record {
  tells = λ w.
      let (same, ends) = k.tells w in
      (same, elim ends [ inl x ↦ inl x | inr (a, e, r, t, q) ↦ inr (a, e, r, f w.db a e t, q) ]);
}

module _ (env : Env) where
  Tells-publish :
      {A : Type 0} (kind : String) (id : Uuid) (payload : EventData) (a : A)
      → Tells (publish_event env kind id payload >>= λ _. pure a) (λ d b e.
        (b ≡ a)
        × (e ≡ record { event_type = kind; user_id = env.uuid_string id; payload = payload }))
  unfolding publish_event ◌>>=◌ spawn_publish pure
  Tells-publish kind id payload a = record {
    tells = λ w. (refl, inr (a, _, refl, (refl, refl), refl));
  }

  -- The stored user whose password was given, the token signed for that user, and the event.
  pub record LoggedIn (req : LoginRequest) (d : Database) (a : LoginResponse × String) (e : Event)
      : Type 0 where
    pub user : User
    pub stored : Found map_user (find_user_by_email req.email d) (some user)
    pub checked : env.check_password req.password user.password_hash ≡ true
    pub signed : env.sign_token user.id user.email user.role ≡ some a.1
    pub answer : a.0 ≡ record { user_id = user.id; email = user.email; role = user.role }
    pub event : e ≡ record {
      event_type = "LOGIN";
      user_id = env.uuid_string user.id;
      payload = EventData.nil;
    }

  login-Tells : (req : LoginRequest) → Tells (login env req) (LoggedIn req)
  unfolding login
  login-Tells req =
      Tells-weaken
        (Tells-bind (find_by_email-Reads env req.email) λ found.
          Tells-bind (Reads-or_raise found invalid_credentials) λ user.
            Tells-bind (Reads-raise_if (not (env.check_password req.password user.password_hash)) _)
              λ _.
                Tells-bind
                  (Reads-wrap _ (Reads-or_fail env (env.sign_token user.id user.email user.role) _))
                  λ token. Tells-publish "LOGIN" user.id EventData.nil _)
        (λ d a e (found, h1, (user, h2, (u, h3, (token, h4, (h5, h6))))). record {
          user = user;
          stored = subst (λ o. Found map_user _ o) h2 h1;
          checked = true_of_not _ h3;
          signed = h4 ∙ ap (λ (x : LoginResponse × String). some x.1) (sym h5);
          answer = ap (λ (x : LoginResponse × String). x.0) h5;
          event = h6;
        })

  -- A login that answers has found the stored user with the address, whose password hash the given
  -- password matches; the token is the one signed for that user's id, address and role, the
  -- response names the same, no table is changed, and one LOGIN event of the user is handed on.
  pub login-LoggedIn :
      (req : LoginRequest) (w : World) (a : LoginResponse × String)
      → (login env req w).0 ≡ ok a
      → ((login env req w).1.db ≡ w.db)
        × ((e : Event) × LoggedIn req w.db a e × ((login env req w).1.events ≡ w.events ++ e ∷ []))
  login-LoggedIn req w a h =
      let (same, ends) = (login-Tells req).tells w in
      (
        same,
        elim ends [
          | inl (bad, q) ↦ absurd (not_err _ a h bad)
          | inr (b, e, r, t, q) ↦
              (e, subst (λ x. LoggedIn req w.db x e) (ok_injective b a (sym r ∙ h)) t, q)
        ],
      )
