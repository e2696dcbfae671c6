-- ===== src/Middleware/RateLimit/Window.antt =====
-- How many requests of one client pass internal/middleware/rate_limit_middleware.go.
use Prim.Native.Nat.{min}
use Prim.Native.String
use text.Mathlib.TextLemmas.{append_cancel_left}
use wallet_ledger_service.Common.{
  ℕ, suc, String, Bool, true, false, Bool-cases, inl, inr, ◌≡◌, refl, ap, ◌∙◌, not, ◌&&◌, Option,
  none, some, Option-cases, List, [], ◌∷◌, str_eq, eq_iff, leb, ◌==◌, ◌+◌, ◌-◌, ◌*◌, ◌/◌, ◌≤◌, ◌<◌,
  arith, if◌then◌else◌,
}
use wallet_ledger_service.Model.{Time}
use wallet_ledger_service.World.{Env}
use wallet_ledger_service.Http.{Context, Answer, replied, panicking, write_error}
use wallet_ledger_service.Middleware.Site.{Site, Chain, Counter, put, second}
use wallet_ledger_service.Middleware.RateLimit.{exceeds, rate_limit, rate_limit_script}

abbrev pub is_refused : Answer → Bool
is_refused (replied r) = r.status == 429
is_refused panicking = false

-- What runs behind the limit leaves the counters alone and has no reply 429 of its own.
pub record Behind (next : Chain) : Type 0 where
  pub keeps : (c : Context) (s : Site) → (next c s).1.counters ≡ s.counters
  pub own : (c : Context) (s : Site) → is_refused (next c s).0 ≡ false

abbrev key : String → String
key ip = String.◌++◌ "ratelimit:" ip

-- How many of the requests are from the address.
abbrev pub asked : String → List Context → ℕ
asked ip [] = 0
asked ip (c ∷ cs) = let rest = asked ip cs in if str_eq c.client_ip ip then suc rest else rest

module _ (env : Env) (n : ℕ) (window : Time) (next : Chain) where
  -- How many requests from the address are not refused, of requests that come one after the other.
  abbrev pub served : String → List Context → Site → ℕ
  served ip [] s = 0
  served ip (c ∷ cs) s =
      let (a, s') = rate_limit env n window next c s in
      let rest = served ip cs s' in
      if str_eq c.client_ip ip && not (is_refused a) then suc rest else rest

  -- The time that a key is given to live, in whole seconds.
  abbrev pub ttl : Time
  ttl = window / second * second

  module _ (b : Behind next) (up : (k : ℕ) → env.fails k ≡ false) where
    step_refused :
        (c : Context) (s : Site)
        → is_refused (rate_limit env n window next c s).0
          ≡ exceeds n (rate_limit_script (env.now s.world.calls) ttl (s.counters (key c.client_ip)))
    unfolding rate_limit write_error
    step_refused c s =
        elim (Bool-cases (
          exceeds n
            (rate_limit_script (env.now s.world.calls) ttl (s.counters (key c.client_ip))))) [
              | inl over ↦ rw (rate_limit, up s.world.calls, over) refl
              | inr under ↦ rw (rate_limit, up s.world.calls, under) (b.own c _)
            ]

    step_counters :
        (c : Context) (s : Site)
        → (rate_limit env n window next c s).1.counters
          ≡ put
              (key c.client_ip)
              (rate_limit_script (env.now s.world.calls) ttl (s.counters (key c.client_ip)))
              s.counters
    unfolding rate_limit
    step_counters c s =
        elim (Bool-cases (
          exceeds n
            (rate_limit_script (env.now s.world.calls) ttl (s.counters (key c.client_ip))))) [
              | inl over ↦ rw (rate_limit, up s.world.calls, over) refl
              | inr under ↦ rw (rate_limit, up s.world.calls, under) (b.keeps c _)
            ]

    module _ (ip : String) where
      same_key : (x : String) → str_eq (key x) (key ip) ≡ true → str_eq x ip ≡ true
      same_key x h =
          (eq_iff x ip).1 (append_cancel_left "ratelimit:" x ip ((eq_iff (key x) (key ip)).0 h))

      -- Another client's request leaves the counter alone and is not counted.
      other_counter :
          (c : Context) (s : Site)
          → str_eq c.client_ip ip ≡ false
          → (rate_limit env n window next c s).1.counters (key ip) ≡ s.counters (key ip)
      other_counter c s h = elim (Bool-cases (str_eq (key c.client_ip) (key ip))) [
        | inl same ↦ cc (same_key c.client_ip same, h)
        | inr apart ↦ ap (λ f. f (key ip)) (step_counters c s) ∙ rw apart refl
      ]

      other_served :
          (c : Context) (cs : List Context) (s : Site)
          → str_eq c.client_ip ip ≡ false
          → served ip (c ∷ cs) s ≡ served ip cs (rate_limit env n window next c s).1
      other_served c cs s h = rw h refl

      own_counter :
          (c : Context) (s : Site) (o : Option Counter)
          → str_eq c.client_ip ip ≡ true
          → s.counters (key ip) ≡ o
          → (rate_limit env n window next c s).1.counters (key ip)
            ≡ some (rate_limit_script (env.now s.world.calls) ttl o)
      own_counter c s o h e =
          let same : c.client_ip ≡ ip = (eq_iff _ _).0 h in
          let itself : str_eq (key c.client_ip) (key ip) ≡ true = (eq_iff _ _).1 (ap key same) in
          ap (λ f. f (key ip)) (step_counters c s)
          ∙ rw itself (
              ap (λ x. some (rate_limit_script (env.now s.world.calls) ttl x))
                (ap (λ x. s.counters (key x)) same ∙ e))

      own_served :
          (c : Context) (cs : List Context) (s : Site) (o : Option Counter)
          → str_eq c.client_ip ip ≡ true
          → s.counters (key ip) ≡ o
          → served ip (c ∷ cs) s ≡ (
              if exceeds n (rate_limit_script (env.now s.world.calls) ttl o)
              then served ip cs (rate_limit env n window next c s).1
              else suc (served ip cs (rate_limit env n window next c s).1))
      own_served c cs s o h e =
          let looked : s.counters (key c.client_ip) ≡ o =
            ap (λ x. s.counters (key x)) ((eq_iff _ _).0 h) ∙ e in
          let refused : is_refused (rate_limit env n window next c s).0
              ≡ exceeds n (rate_limit_script (env.now s.world.calls) ttl o) =
            step_refused c s
            ∙ ap (λ x. exceeds n (rate_limit_script (env.now s.world.calls) ttl x)) looked in
          rw (h, refused) (not_if (exceeds n (rate_limit_script (env.now s.world.calls) ttl o)) _ _)
        where
          not_if :
              {A : Type 0} (b : Bool) (x y : A) → (if not b then y else x) ≡ (if b then x else y)
          not_if true x y = refl
          not_if false x y = refl

      -- What is left of a window.
      served_within :
          (count : ℕ) (e : Time) (cs : List Context) (s : Site)
          → ((k : ℕ) → env.now k < e)
          → s.counters (key ip) ≡ some (record { count = count; expires = e })
          → served ip cs s ≡ min (n - count) (asked ip cs)
      unfolding rate_limit_script
      served_within count e [] s h look = omega arith
      served_within count e (c ∷ cs) s h look = elim (Bool-cases (str_eq c.client_ip ip)) [
        | inl own ↦
            let now = env.now s.world.calls in
            let live : leb e now ≡ false = ground (arith, h s.world.calls) in
            let rest =
              served_within (suc count) e cs (rate_limit env n window next c s).1 h
                (own_counter c s _ own look ∙ rw live refl) in
            own_served c cs s _ own look ∙ ground (arith, live, own, rest)
        | inr other ↦
            other_served c cs s other
            ∙ served_within count e cs (rate_limit env n window next c s).1 h
                (other_counter c s other ∙ look)
            ∙ rw other refl
      ]

      -- Where no call fails, and what runs behind `RateLimit` leaves the counters alone and has no
      -- reply 429 of its own: of any requests, one after the other, from the first of one address
      -- until its window ends, as many of that address as the limit are not answered 429, or all
      -- if they are fewer, whatever other addresses ask; the first finds no counter.
      pub served_window :
          (c : Context) (cs : List Context) (s : Site)
          → str_eq c.client_ip ip ≡ true
          → s.counters (key ip) ≡ none
          → ((k : ℕ) → env.now k < env.now s.world.calls + ttl)
          → served ip (c ∷ cs) s ≡ min n (asked ip (c ∷ cs))
      unfolding rate_limit_script
      served_window c cs s own look h =
          let now = env.now s.world.calls in
          let rest =
            served_within 1 (now + ttl) cs (rate_limit env n window next c s).1 h
              (own_counter c s none own look) in
          own_served c cs s none own look ∙ ground (arith, own, rest)

      served_across :
          (a : Time) (count : ℕ) (e : Time) (cs : List Context) (s : Site)
          → ((k : ℕ) → a ≤ env.now k)
          → ((k : ℕ) → env.now k < a + ttl)
          → s.counters (key ip) ≡ some (record { count = count; expires = e })
          → served ip cs s ≤ (n - count) + n
      unfolding rate_limit_script
      served_across a count e [] s f h look = omega arith
      served_across a count e (c ∷ cs) s f h look = elim (Bool-cases (str_eq c.client_ip ip)) [
        | inl own ↦
            let now = env.now s.world.calls in
            let s' = (rate_limit env n window next c s).1 in
            let counted = own_counter c s _ own look in
            elim (Bool-cases (leb e now)) [
              | inl expired ↦
                  let rest =
                    served_within 1 (now + ttl) cs s' (λ k. omega (arith, h k, f s.world.calls))
                      (counted ∙ rw expired refl) in
                  rw (own_served c cs s _ own look) (ground (arith, expired, rest))
              | inr live ↦
                  let rest = served_across a (suc count) e cs s' f h (counted ∙ rw live refl) in
                  rw (own_served c cs s _ own look) (ground (arith, live, rest))
            ]
        | inr other ↦ rw (other_served c cs s other) (
            served_across a count e cs (rate_limit env n window next c s).1 f h
              (other_counter c s other ∙ look))
      ]

      served_fresh :
          (a : Time) (cs : List Context) (s : Site)
          → ((k : ℕ) → a ≤ env.now k)
          → ((k : ℕ) → env.now k < a + ttl)
          → s.counters (key ip) ≡ none
          → served ip cs s ≤ n
      served_fresh a [] s f h look = omega arith
      served_fresh a (c ∷ cs) s f h look = elim (Bool-cases (str_eq c.client_ip ip)) [
        | inl own ↦
            let all = served_window c cs s own look (λ k. omega (arith, h k, f s.world.calls)) in
            omega (arith, all)
        | inr other ↦ rw (other_served c cs s other) (
            served_fresh a cs (rate_limit env n window next c s).1 f h
              (other_counter c s other ∙ look))
      ]

      -- Where no call fails, and what runs behind `RateLimit` leaves the counters alone and has no
      -- reply 429 of its own: of any requests, one after the other, while the clock stays in a
      -- stretch as long as a window, at most twice the limit of those from one address are not
      -- answered 429, whatever counters Redis holds at its start.
      pub served_sliding :
          (a : Time) (cs : List Context) (s : Site)
          → ((k : ℕ) → a ≤ env.now k)
          → ((k : ℕ) → env.now k < a + ttl)
          → served ip cs s ≤ 2 * n
      served_sliding a cs s f h = elim (Option-cases (s.counters (key ip))) [
        | inl look ↦ omega (arith, served_fresh a cs s f h look)
        | inr (k, look) ↦ omega (arith, served_across a k.count k.expires cs s f h look)
      ]
