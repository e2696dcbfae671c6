-- ===== src/Server/Access.antt =====
-- Who gets past the middleware of cmd/server/main.go.
use Prim.Native.String
use text.Mathlib.Text.{starts_with}
use wallet_ledger_service.Common.{
  ℕ, String, ◌≡◌, refl, sym, ap, true, false, Bool-cases, some, Option-cases, ◌⊎◌, inl, inr, ◌/◌,
  ◌*◌, ⊤, str_eq, eq_iff,
}
use wallet_ledger_service.Model.{Time}
use wallet_ledger_service.World.{Env}
use wallet_ledger_service.Http.{Context, write_error}
use wallet_ledger_service.Middleware.Site.{Site, Chain, tick, second}
use wallet_ledger_service.Middleware.Cors.{cors, with_headers, cors_headers}
use wallet_ledger_service.Middleware.RateLimit.{rate_limit, rate_limit_script, exceeds}
use wallet_ledger_service.Middleware.Jwt.{Claims, with_claims, parse_token, jwt_auth, role_guard}
use wallet_ledger_service.Middleware.Audit.{audit_log}
use wallet_ledger_service.Server.{
  Server, Request, Route, register_route, login_route, logout_route, my_wallet_route, top_up_route,
  transfer_route, transactions_route, transaction_detail_route, ledger_entries_route,
  audit_logs_route, notifications_route, mark_as_read_route, clear_all_route, stream_route,
  admin_users_route, admin_transactions_route, admin_transaction_detail_route,
  admin_audit_logs_route, pattern_of, protected, idempotent, admin, chain_of, find_route, serve,
}

-- Nothing is written, handed on, published or remembered.
abbrev pub Kept : Site → Site → Type 0
Kept s s' =
    (s'.world.db ≡ s.world.db)
    × (s'.world.events ≡ s.world.events)
    × (s'.world.pushes ≡ s.world.pushes)
    × (s'.audits ≡ s.audits)
    × (s'.values ≡ s.values)

-- A chain that keeps everything but for the contexts that `P` is about.
record Guards (P : Context → Type 0) (chain : Chain) : Type 0 where
  guards : (c : Context) (s : Site) → Kept s (chain c s).1 ⊎ P c

Kept-refl : (s : Site) → Kept s s
Kept-refl s = (refl, refl, refl, refl, refl)

module _ {P : Context → Type 0} {next : Chain} where
  cors-Guards : Guards P next → Guards P (cors next)
  unfolding cors
  cors-Guards g = record {
    guards = λ c s. elim (Bool-cases (str_eq c.method "OPTIONS")) [
      | inl options ↦ inl (rw (cors, options) (Kept-refl s))
      | inr other ↦ rw (cors, other) (g.guards c s)
    ];
  }

  rate_limit-Guards :
      (env : Env) (n : ℕ) (t : Time) → Guards P next → Guards P (rate_limit env n t next)
  unfolding rate_limit
  rate_limit-Guards env n t g = record {
    guards = λ c s. elim (Bool-cases (env.fails s.world.calls)) [
      | inl down ↦ rw (rate_limit, down) (g.guards c (tick s))
      | inr up ↦
          elim (Bool-cases (
            exceeds n (
              rate_limit_script (env.now s.world.calls) (t / second * second)
                (s.counters (String.◌++◌ "ratelimit:" c.client_ip))))) [
                  | inl over ↦ inl (rw (rate_limit, up, over) (Kept-refl s))
                  | inr under ↦ rw (rate_limit, up, under) (g.guards c _)
                ]
    ];
  }

-- Two chains that answer alike and keep everything but for the contexts that `P` is about.
record Shuts (P : Context → Type 0) (chain other : Chain) : Type 0 where
  shuts : (c : Context) (s : Site) → (Kept s (chain c s).1 × (chain c s ≡ other c s)) ⊎ P c

module _ {P : Context → Type 0} {next other : Chain} where
  cors-Shuts : Shuts P next other → Shuts P (cors next) (cors other)
  unfolding cors
  cors-Shuts g = record {
    shuts = λ c s. elim (Bool-cases (str_eq c.method "OPTIONS")) [
      | inl options ↦ inl (rw (cors, options) (Kept-refl s, refl))
      | inr same ↦ elim (g.shuts c s) [
        | inl (kept, e) ↦
            inl (rw (cors, same) (kept, ap (λ x. (with_headers (cors_headers c) x.0, x.1)) e))
        | inr p ↦ inr p
      ]
    ];
  }

  rate_limit-Shuts :
      (env : Env) (n : ℕ) (t : Time)
      → Shuts P next other
      → Shuts P (rate_limit env n t next) (rate_limit env n t other)
  unfolding rate_limit
  rate_limit-Shuts env n t g = record {
    shuts = λ c s. elim (Bool-cases (env.fails s.world.calls)) [
      | inl down ↦ rw (rate_limit, down) (g.shuts c (tick s))
      | inr up ↦
          elim (Bool-cases (
            exceeds n (
              rate_limit_script (env.now s.world.calls) (t / second * second)
                (s.counters (String.◌++◌ "ratelimit:" c.client_ip))))) [
                  | inl over ↦ inl (rw (rate_limit, up, over) (Kept-refl s, refl))
                  | inr under ↦ rw (rate_limit, up, under) (g.shuts c _)
                ]
    ];
  }

-- The cookie holds a token that has been parsed into claims, of which `P` holds.
abbrev pub Presents : Server → (Claims → Type 0) → Context → Type 0
Presents sv P c =
    (token : String) × (claims : Claims) × (n : ℕ) × (c.cookie "accessToken" ≡ some token)
    × (parse_token sv.jwt (sv.env.now n) token sv.jwt_secret ≡ some claims)
    × P claims

module _ (sv : Server) where
  -- The claims decide what is behind the token's guard.
  jwt_auth-Guards :
      {P : Claims → Type 0} (next : Chain)
      → ((claims : Claims) (c : Context) (s : Site)
          → Kept s (next (with_claims c claims) s).1 ⊎ P claims)
      → Guards (Presents sv P) (jwt_auth sv.env sv.jwt sv.jwt_secret next)
  unfolding jwt_auth
  jwt_auth-Guards next k = record {
    guards = λ c s. elim (Option-cases (c.cookie "accessToken")) [
      | inl absent ↦ inl (rw (jwt_auth, absent) (Kept-refl s))
      | inr (token, present) ↦
          elim (Option-cases (parse_token sv.jwt (sv.env.now s.world.calls) token sv.jwt_secret)) [
            | inl bad ↦ inl (rw (jwt_auth, present, bad) (Kept-refl s))
            | inr (claims, good) ↦ elim (k claims c (tick s)) [
              | inl kept ↦ inl (rw (jwt_auth, present, good) kept)
              | inr p ↦ inr (token, claims, s.world.calls, present, good, p)
            ]
          ]
    ];
  }

  protected-Guards : (next : Chain) → Guards (Presents sv (λ claims. ⊤)) (protected sv next)
  unfolding protected
  protected-Guards next = jwt_auth-Guards (audit_log sv.env next) λ claims c s. inr tt

  -- What serves a request for an admin route, with any handler behind the guards.
  abbrev pub before : Chain → Chain
  before handler = cors (rate_limit sv.env 100 (60 * second) (admin sv handler))

  admin-Shuts :
      (next other : Chain)
      → Shuts (Presents sv (λ claims. claims.role ≡ "ADMIN")) (admin sv next) (admin sv other)
  unfolding admin protected jwt_auth role_guard audit_log write_error
  admin-Shuts next other = record {
    shuts = λ c s. elim (Option-cases (c.cookie "accessToken")) [
      | inl absent ↦ inl (rw (admin, protected, jwt_auth, absent) (Kept-refl s, refl))
      | inr (token, present) ↦
          elim (Option-cases (parse_token sv.jwt (sv.env.now s.world.calls) token sv.jwt_secret)) [
            | inl bad ↦ inl (rw (admin, protected, jwt_auth, present, bad) (Kept-refl s, refl))
            | inr (claims, good) ↦ elim (Bool-cases (str_eq "ADMIN" claims.role)) [
              | inl is_admin ↦
                  inr (token, claims, s.world.calls, present, good, sym ((eq_iff _ _).0 is_admin))
              | inr plain ↦ inl (
                  rw (admin, protected, jwt_auth, present, good, audit_log, role_guard, plain)
                    (Kept-refl s, refl))
            ]
          ]
    ];
  }

  idempotent-Guards : (next : Chain) → Guards (Presents sv (λ claims. ⊤)) (idempotent sv next)
  unfolding idempotent
  idempotent-Guards next = protected-Guards _

  admin-protects : (next : Chain) → Guards (Presents sv (λ claims. ⊤)) (admin sv next)
  unfolding admin
  admin-protects next = protected-Guards _

  admin_route :
      (q : Request) (r : Route)
      → starts_with (pattern_of r) "/api/v1/admin/" ≡ true
      → (next : Chain) × (chain_of sv q r ≡ admin sv next)
  unfolding chain_of
  admin_route q register_route h = cc
  admin_route q login_route h = cc
  admin_route q logout_route h = cc
  admin_route q my_wallet_route h = cc
  admin_route q top_up_route h = cc
  admin_route q transfer_route h = cc
  admin_route q transactions_route h = cc
  admin_route q transaction_detail_route h = cc
  admin_route q ledger_entries_route h = cc
  admin_route q audit_logs_route h = cc
  admin_route q notifications_route h = cc
  admin_route q mark_as_read_route h = cc
  admin_route q clear_all_route h = cc
  admin_route q stream_route h = cc
  admin_route q admin_users_route h = (_, refl)
  admin_route q admin_transactions_route h = (_, refl)
  admin_route q admin_transaction_detail_route h = (_, refl)
  admin_route q admin_audit_logs_route h = (_, refl)

  protected_routes :
      (q : Request) (r : Route)
      → str_eq (pattern_of r) "/api/v1/auth/register" ≡ false
      → str_eq (pattern_of r) "/api/v1/auth/login" ≡ false
      → Guards (Presents sv (λ claims. ⊤)) (chain_of sv q r)
  unfolding chain_of
  protected_routes q register_route h k = cc
  protected_routes q login_route h k = cc
  protected_routes q logout_route h k = protected-Guards _
  protected_routes q my_wallet_route h k = protected-Guards _
  protected_routes q top_up_route h k = idempotent-Guards _
  protected_routes q transfer_route h k = idempotent-Guards _
  protected_routes q transactions_route h k = protected-Guards _
  protected_routes q transaction_detail_route h k = protected-Guards _
  protected_routes q ledger_entries_route h k = protected-Guards _
  protected_routes q audit_logs_route h k = protected-Guards _
  protected_routes q notifications_route h k = protected-Guards _
  protected_routes q mark_as_read_route h k = protected-Guards _
  protected_routes q clear_all_route h k = protected-Guards _
  protected_routes q stream_route h k = protected-Guards _
  protected_routes q admin_users_route h k = admin-protects _
  protected_routes q admin_transactions_route h k = admin-protects _
  protected_routes q admin_transaction_detail_route h k = admin-protects _
  protected_routes q admin_audit_logs_route h k = admin-protects _

  module _ (q : Request) (s : Site) (r : Route) where
    serve-guarded :
        {P : Context → Type 0}
        → find_route sv q.context ≡ some r
        → Guards P (chain_of sv q r)
        → Kept s (serve sv q s).1 ⊎ P q.context
    unfolding serve
    serve-guarded h g =
        rw (serve, h)
          ((cors-Guards
              (rate_limit-Guards sv.env 100 (60 * second) (record { guards = g.guards }))).guards
            q.context s)

    -- A request for a route under /api/v1/admin/ is answered as it would be with any other handler
    -- behind the guards, so that the handler has no part in it, and leaves the tables, the events,
    -- the notifications pushed, the audit events and the cached responses as they were; or its
    -- cookie holds a token that was parsed into claims with the role ADMIN.
    pub serve-admin :
        (handler : Chain)
        → find_route sv q.context ≡ some r
        → starts_with (pattern_of r) "/api/v1/admin/" ≡ true
        → (Kept s (serve sv q s).1 × (serve sv q s ≡ before handler q.context s))
          ⊎ Presents sv (λ claims. claims.role ≡ "ADMIN") q.context
    unfolding serve
    serve-admin handler h a =
        let (next, is) = admin_route q r a in
        rw (serve, h, is)
          ((cors-Shuts (rate_limit-Shuts sv.env 100 (60 * second) (admin-Shuts next handler))).shuts
            q.context s)

    -- A request for any route but registration and login leaves the tables, the events, the
    -- notifications pushed, the audit events and the cached responses as they were, or its cookie
    -- holds a token that was parsed.
    pub serve-protected :
        find_route sv q.context ≡ some r
        → str_eq (pattern_of r) "/api/v1/auth/register" ≡ false
        → str_eq (pattern_of r) "/api/v1/auth/login" ≡ false
        → Kept s (serve sv q s).1 ⊎ Presents sv (λ claims. ⊤) q.context
    serve-protected h a b = serve-guarded h (protected_routes q r a b)
