-- ===== src/Middleware/Idempotency/Replays.antt =====
-- What internal/middleware/idempotency_middleware.go replays.
use wallet_ledger_service.Common.{
  ℕ, String, ◌≡◌, refl, ◌∙◌, true, false, none, some, str_eq, eq_iff, leb, ◌+◌, ◌*◌, ◌<◌, arith,
}
use wallet_ledger_service.World.{Env}
use wallet_ledger_service.Http.{Context, Reply, Answer, replied, panicking, Wire, bytes}
use wallet_ledger_service.Middleware.Site.{Site, Chain, Stored, tick, second, is_success}
use wallet_ledger_service.Middleware.Idempotency.{
  CachedResponse, CacheJson, redis_key, hit, get_value, look_up, remember, on_lookup, idempotency,
}

-- A POST with a key.
abbrev pub IsKeyed : Context → Type 0
IsKeyed c = (str_eq c.method "POST" ≡ true) × (str_eq (c.header "Idempotency-Key") "" ≡ false)

-- What is marshalled can be unmarshalled.
abbrev pub Restores : CacheJson → Type 0
Restores json =
    (res : CachedResponse) (text : String)
    → json.marshal res ≡ some text
    → json.unmarshal text ≡ some res

module _ (env : Env) (wire : Wire) (json : CacheJson) where
  idempotency-keyed :
      (next : Chain) (c : Context) (s : Site)
      → IsKeyed c
      → idempotency env wire json next c s
        ≡ on_lookup env wire json
            (redis_key c)
            (look_up env wire json (redis_key c) s)
            next
            c
            (tick s)
  unfolding idempotency
  idempotency-keyed next c s (post, keyed) = rw (idempotency, post, keyed) refl

  leb-false : (a b : ℕ) → b < a → leb a b ≡ false
  leb-false a b h = ground arith

  remember-refused :
      (key : String) (a : Answer) (s : Site)
      → ((r : Reply) → a ≡ replied r → is_success r.status ≡ false)
      → remember env wire json key (a, s) ≡ (a, s)
  remember-refused key panicking s bad = refl
  remember-refused key (replied r) s bad = rw (bad r refl) refl

  -- A live value is found.
  look_up-live :
      (key : String) (s : Site) (v : Stored) (res : CachedResponse)
      → env.fails s.world.calls ≡ false
      → s.values key ≡ some v
      → env.now s.world.calls < v.expires
      → json.unmarshal v.value ≡ some res
      → look_up env wire json key s ≡ some res
  unfolding look_up get_value
  look_up-live key s v res up held live read =
      rw (look_up, up, held, get_value, leb-false v.expires (env.now s.world.calls) live) read

  module _ (next : Chain) (c : Context) (s : Site) where
    abbrev pub cached : Reply → CachedResponse
    cached r = record { status_code = r.status; body = bytes wire r.body }

    -- A first success is stored for 24 hours.
    idempotency-stores :
        (r : Reply) (text : String)
        → IsKeyed c
        → look_up env wire json (redis_key c) s ≡ none
        → (next c (tick s)).0 ≡ replied r
        → is_success r.status ≡ true
        → json.marshal (cached r) ≡ some text
        → env.fails (next c (tick s)).1.world.calls ≡ false
        → (idempotency env wire json next c s).1.values (redis_key c)
          ≡ some (record {
            value = text;
            expires = env.now (next c (tick s)).1.world.calls + 24 * 3600 * second;
          })
    idempotency-stores r text keyed miss answered good written up =
        rw
          (
            idempotency-keyed next c s keyed,
            miss,
            answered,
            good,
            written,
            up,
            (eq_iff (redis_key c) (redis_key c)).1 refl,
          )
          refl

    -- Where a POST with an idempotency key that Redis does not know does not end with a reply 2xx,
    -- the middleware adds nothing to what stands behind it: the reply is the same, and nothing is
    -- kept under the key.
    pub idempotency-refused :
        IsKeyed c
        → look_up env wire json (redis_key c) s ≡ none
        → ((r : Reply) → (next c (tick s)).0 ≡ replied r → is_success r.status ≡ false)
        → idempotency env wire json next c s ≡ next c (tick s)
    idempotency-refused keyed miss bad =
        idempotency-keyed next c s keyed
        ∙ rw miss (remember-refused (redis_key c) (next c (tick s)).0 (next c (tick s)).1 bad)

    -- A POST with an idempotency key that Redis does not know has been replied to with a status
    -- 2xx, the response could be marshalled, and SET went through. Then a POST with the same key,
    -- of whatever user, path and body, is given the same status and body, and what stands behind
    -- the middleware is not run: this holds while Redis has kept the value, for less than 24
    -- hours, where GET goes through and unmarshalling restores what marshalling made.
    pub idempotency-replays :
        (next' : Chain) (c' : Context) (s' : Site) (r : Reply) (text : String)
        → Restores json
        → IsKeyed c
        → IsKeyed c'
        → c'.header "Idempotency-Key" ≡ c.header "Idempotency-Key"
        → look_up env wire json (redis_key c) s ≡ none
        → (next c (tick s)).0 ≡ replied r
        → is_success r.status ≡ true
        → json.marshal (cached r) ≡ some text
        → env.fails (next c (tick s)).1.world.calls ≡ false
        → s'.values (redis_key c) ≡ (idempotency env wire json next c s).1.values (redis_key c)
        → env.fails s'.world.calls ≡ false
        → env.now s'.world.calls < env.now (next c (tick s)).1.world.calls + 24 * 3600 * second
        → idempotency env wire json next' c' s' ≡ (replied (hit (cached r)), tick s')
    idempotency-replays next' c' s' r text restores keyed keyed' same miss answered good written up
          held up' live =
        let stored = idempotency-stores r text keyed miss answered good written up in
        idempotency-keyed next' c' s' keyed'
        ∙ rw
            (
              same,
              look_up-live (redis_key c) s' _ (cached r) up' (held ∙ stored) live
                  (restores (cached r) text written),
            )
            refl
