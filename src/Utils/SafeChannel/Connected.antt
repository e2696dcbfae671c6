-- ===== src/Utils/SafeChannel/Connected.antt =====
-- What `EnsureConnected` of internal/utils/rabbitmq.go leaves behind.
use mathlib.Core.List.{append_assoc, append-nil}
use wallet_ledger_service.Common.{
  ℕ, suc, String, ◌≡◌, refl, sym, ap, ◌∙◌, ⊤, Bool, true, false, Bool-cases, Option, none, some,
  Option-cases, List, [], ◌∷◌, ◌++◌, ◌⊎◌, inl, inr, ◌≤◌, arith,
}
use wallet_ledger_service.Failure.{Result, ok, err, is_panic}
use wallet_ledger_service.Utils.SafeChannel.{
  Declaration, exchange, queue, binding, Channel, SafeChannel, Broker, Act, then_act, ◌>>=◌, done,
  wrap, wrap_error, outcome, declare, declare_exchange_and_queues, conn_gone, ch_gone, drop_ended,
  needs_dial, dial, reconnect, channel_of, ensure_channel, ensure_connected_locked,
}

-- The exchange, and each queue bound to it.
abbrev pub topology : List Declaration
topology =
    exchange "wallet_events"
    ∷ queue "notification_queue"
    ∷ binding "notification_queue" "wallet.event.#" "wallet_events"
    ∷ queue "audit_queue"
    ∷ binding "audit_queue" "wallet.event.#" "wallet_events"
    ∷ queue "analytics_queue"
    ∷ binding "analytics_queue" "wallet.event.#" "wallet_events"
    ∷ []

module _ (broker : Broker) where
  -- An error that a failed call explains, one from a number on, and no panic.
  abbrev pub Faults : ℕ → Result ⊤ → Type 0
  Faults from (ok a) = ⊥
  Faults from (err e) = (is_panic e ≡ false) × ((n : ℕ) × (from ≤ n) × (broker.succeeds n ≡ false))

  pub Faults-earlier : (m n : ℕ) (r : Result ⊤) → m ≤ n → Faults n r → Faults m r
  Faults-earlier m n (ok a) h f = f
  Faults-earlier m n (err e) h (calm, (k, late, down)) = (calm, (k, omega (arith, h, late), down))

  abbrev pub Declared : SafeChannel → List Declaration → Result ⊤ × SafeChannel → Type 0
  Declared s ds (r, s') =
      (s'.conn ≡ s.conn)
      × (s'.ch ≡ s.ch)
      × (s'.attempts ≡ s.attempts)
      × (s.calls ≤ s'.calls)
      × (Faults s.calls r ⊎ ((r ≡ ok tt) × (s'.declared ≡ s.declared ++ ds)))

  record Declares (m : Act ⊤) (ds : List Declaration) : Type 0 where
    declares : (s : SafeChannel) → Declared s ds (m s)

  wrap-Declared :
      (text : String) (s : SafeChannel) (ds : List Declaration) (r : Result ⊤) (s' : SafeChannel)
      → Declared s ds (r, s')
      → Declared s ds (wrap_error text r, s')
  wrap-Declared text s ds (ok u) s' h = h
  wrap-Declared text s ds (err e) s' (a, b, c, l, inl f) = (a, b, c, l, inl f)
  wrap-Declared text s ds (err e) s' (a, b, c, l, inr (g, d)) = cc

  then-Declared :
      (s : SafeChannel) (ds es : List Declaration) (f : ⊤ → Act ⊤) (r : Result ⊤) (s' : SafeChannel)
      → Declared s ds (r, s')
      → Declares (f tt) es
      → Declared s (ds ++ es) (then_act r f s')
  then-Declared s ds es f (err e) s' (a, b, c, l, inl g) k = (a, b, c, l, inl g)
  then-Declared s ds es f (err e) s' (a, b, c, l, inr (g, d)) k = cc
  then-Declared s ds es f (ok u) s' (a, b, c, l, inl g) k = absurd g
  then-Declared s ds es f (ok u) s' (a, b, c, l, inr (g, d)) k =
      let (a', b', c', l', e') = k.declares s' in
      (
        a' ∙ a,
        b' ∙ b,
        c' ∙ c,
        omega (arith, l, l'),
        elim e' [
          | inl x ↦ inl (Faults-earlier s.calls s'.calls (f tt s').0 l x)
          | inr (x, d') ↦ inr (x, d' ∙ ap (λ l. l ++ es) d ∙ append_assoc s.declared ds es)
        ],
      )

  -- A channel on the connection that is held, at a broker where all is declared.
  abbrev pub Ready : SafeChannel → Type 0
  Ready s =
      (k : Channel) × (s.ch ≡ some k)
      × (s.conn ≡ some k.connection)
      × ((before : List Declaration) × (after : List Declaration) × (s.declared
            ≡ before ++ (topology ++ after)))

  -- What holds between the operations.
  abbrev pub IsWired : SafeChannel → Type 0
  IsWired s = (s.ch ≡ none) ⊎ Ready s

  abbrev pub Ensured : SafeChannel → Result ⊤ × SafeChannel → Type 0
  Ensured s (r, s') =
      (s'.attempts ≡ s.attempts)
      × (s.calls ≤ s'.calls)
      × (((r ≡ ok tt) × Ready s') ⊎ (Faults s.calls r × (s'.ch ≡ none)))

  finish :
      (s s1 : SafeChannel) (k : Channel) (r : Result ⊤) (s2 : SafeChannel)
      → Declared s1 topology (r, s2)
      → s1.ch ≡ none
      → s1.conn ≡ some k.connection
      → s1.attempts ≡ s.attempts
      → s.calls ≤ s1.calls
      → Ensured s (then_act r (λ _ z. (ok tt, record z { ch = some k; ch_close = some k })) s2)
  finish s s1 k (err e) s2 (a, b, c, l, inl f) no_ch on same le = (
    c ∙ same,
    omega (arith, le, l),
    inr (Faults-earlier s.calls s1.calls (err e) le f, b ∙ no_ch),
  )
  finish s s1 k (err e) s2 (a, b, c, l, inr (g, d)) no_ch on same le = cc
  finish s s1 k (ok u) s2 (a, b, c, l, inl f) no_ch on same le = absurd f
  finish s s1 k (ok u) s2 (a, b, c, l, inr (g, d)) no_ch on same le = (
    c ∙ same,
    omega (arith, le, l),
    inl (
      refl,
      (
        k,
        refl,
        a ∙ on,
        (s1.declared, [], d ∙ ap (λ l. s1.declared ++ l) (sym (append-nil topology))),
      ),
    ),
  )

  request_declared :
      (b : Bool) (d : Declaration) (n : ℕ) (s : SafeChannel)
      → broker.succeeds n ≡ b
      → s.calls ≤ n
      → Declared s (d ∷ []) (
          then_act
            (outcome b n (record s { calls = suc s.calls })).0
            (λ m z. (ok tt, record z { declared = z.declared ++ d ∷ [] }))
            (outcome b n (record s { calls = suc s.calls })).1)
  request_declared true d n s h l = (refl, refl, refl, omega arith, inr (refl, refl))
  request_declared false d n s h l = (refl, refl, refl, omega arith, inl (refl, (n, l, h)))

  declare-Declares :
      (text : String) (d : Declaration) → Declares (wrap text (declare broker d)) (d ∷ [])
  declare-Declares text d = record {
    declares = λ s.
        wrap-Declared text s (d ∷ []) (declare broker d s).0 (declare broker d s).1
          (request_declared (broker.succeeds s.calls) d s.calls s refl (omega arith));
  }

  Declares-then :
      {m k : Act ⊤} {ds es : List Declaration}
      → Declares m ds
      → Declares k es
      → Declares (m >>= λ _. k) (ds ++ es)
  Declares-then {m} {k} {ds} {es} h l = record {
    declares = λ s. then-Declared s ds es (λ _. k) (m s).0 (m s).1 (h.declares s) l;
  }

  Declares-done : Declares (done tt) []
  Declares-done = record {
    declares = λ s. (refl, refl, refl, omega arith, inr (refl, sym (append-nil s.declared)));
  }

  declare_exchange_and_queues-Declares : Declares (declare_exchange_and_queues broker) topology
  unfolding declare_exchange_and_queues
  declare_exchange_and_queues-Declares = Declares-then (declare-Declares _ _) (
      Declares-then (declare-Declares _ _) (
        Declares-then (declare-Declares _ _) (
          Declares-then (declare-Declares _ _) (
            Declares-then (declare-Declares _ _) (
              Declares-then (declare-Declares _ _)
                (Declares-then (declare-Declares _ _) Declares-done))))))

  ensure_channel-Ensured :
      (o : Option Channel) (s : SafeChannel) (c : ℕ)
      → s.ch ≡ o
      → s.conn ≡ some c
      → IsWired s
      → Ensured s (ensure_channel broker o s)
  ensure_channel-Ensured (some k) s c h on (inl no_ch) = cc
  ensure_channel-Ensured (some k) s c h on (inr ready) = (refl, omega arith, inl (refl, ready))
  ensure_channel-Ensured none s c h on w = elim (Bool-cases (broker.succeeds s.calls)) [
    | inl opened ↦
        let s1 : SafeChannel = record s { calls = suc s.calls } in
        let (r, s2) = declare_exchange_and_queues broker s1 in
        let named : channel_of broker s.conn s.calls
            ≡ ok (record { connection = c; number = s.calls }) =
          ap (λ p. channel_of broker p s.calls) on in
        rw (opened, named)
          (finish s s1 (record { connection = c; number = s.calls })
            (wrap_error "failed to declare exchange/queues" r) s2
            (wrap-Declared _ s1 topology r s2 (declare_exchange_and_queues-Declares.declares s1)) h
            on refl (omega arith))
    | inr shut ↦ rw shut (refl, omega arith, inr ((refl, (s.calls, omega arith, shut)), h))
  ]

  abbrev Reconnected : SafeChannel → Result ⊤ × SafeChannel → Type 0
  Reconnected s (r, s') =
      (s'.attempts ≡ s.attempts)
      × (s.calls ≤ s'.calls)
      × (((r ≡ ok tt) × ((c : ℕ) × (s'.conn ≡ some c)) × IsWired s')
          ⊎ (Faults s.calls r × (s'.ch ≡ none)))

  dial-Reconnected : (s : SafeChannel) → Reconnected s (dial broker s)
  dial-Reconnected s = elim (Bool-cases (broker.succeeds s.calls)) [
    | inl reached ↦ rw reached (refl, omega arith, inl (refl, (s.calls, refl), inl refl))
    | inr lost ↦ rw lost (refl, omega arith, inr ((refl, (s.calls, omega arith, lost)), refl))
  ]

  reconnect-Reconnected :
      (s : SafeChannel) → (s.conn ≡ none) ⊎ IsWired s → Reconnected s (reconnect broker s)
  reconnect-Reconnected s w = elim (Option-cases s.conn) [
    | inl gone ↦ rw (ap (λ p. needs_dial broker p s.calls) gone) (dial-Reconnected s)
    | inr (c, on) ↦ elim (Bool-cases (broker.is_closed s.calls c)) [
      | inl closed ↦ rw (ap (λ p. needs_dial broker p s.calls) on ∙ closed) (dial-Reconnected s)
      | inr alive ↦
          rw (ap (λ p. needs_dial broker p s.calls) on ∙ alive)
            (refl, omega arith, inl (refl, (c, on), elim w [ inl gone ↦ cc | inr x ↦ x ]))
    ]
  ]

  drop_ended-keeps :
      (s : SafeChannel)
      → IsWired s
      → ((drop_ended broker s).conn ≡ none) ⊎ IsWired (drop_ended broker s)
  drop_ended-keeps s w = elim (Bool-cases (conn_gone broker s.conn_close s.calls)) [
    | inl gone ↦ inl (rw gone refl)
    | inr on ↦ elim (Bool-cases (ch_gone broker s.ch_close s.calls)) [
      | inl shut ↦ inr (inl (rw shut refl))
      | inr up ↦ inr (rw (on, up) w)
    ]
  ]

  then-Ensured :
      (s s1 : SafeChannel) (r : Result ⊤) (s2 : SafeChannel)
      → s1.attempts ≡ s.attempts
      → s.calls ≤ s1.calls
      → Reconnected s1 (r, s2)
      → Ensured s (then_act r (λ u z. ensure_channel broker z.ch z) s2)
  then-Ensured s s1 (err e) s2 same le (a, l, inl (h, _, _)) = cc
  then-Ensured s s1 (err e) s2 same le (a, l, inr (f, none_left)) = (
    a ∙ same,
    omega (arith, l, le),
    inr (Faults-earlier s.calls s1.calls (err e) le f, none_left),
  )
  then-Ensured s s1 (ok u) s2 same le (a, l, inr (f, _)) = absurd f
  then-Ensured s s1 (ok u) s2 same le (a, l, inl (h, (c, on), w)) =
      let (b, m, ends) = ensure_channel-Ensured s2.ch s2 c refl on w in
      (
        b ∙ a ∙ same,
        omega (arith, l, le, m),
        elim ends [
          | inl x ↦ inl x
          | inr (f, shut) ↦ inr (
            Faults-earlier s.calls s2.calls (ensure_channel broker s2.ch s2).0
                (omega (arith, l, le)) f,
            shut,
          )
        ],
      )

  -- Between operations either no channel is held or `Ready` holds: a channel of the connection
  -- that is held, with the exchange, the three queues and their bindings declared. From there
  -- `EnsureConnected` asks for no publication, and it returns nil and leaves `Ready`, or it
  -- returns an error that a failed call explains and leaves no channel; it does not panic.
  pub ensure_connected_locked-Ensured :
      (s : SafeChannel) → IsWired s → Ensured s (ensure_connected_locked broker s)
  unfolding ensure_connected_locked
  ensure_connected_locked-Ensured s w =
      then-Ensured s (drop_ended broker s) (reconnect broker (drop_ended broker s)).0
        (reconnect broker (drop_ended broker s)).1 refl (omega arith)
        (reconnect-Reconnected (drop_ended broker s) (drop_ended-keeps s w))
