-- ===== src/Utils/SafeChannel/Renewal.antt =====
-- How `EnsureConnected` of internal/utils/rabbitmq.go replaces what has ended.
use mathlib.Core.Path.{subst}
use wallet_ledger_service.Common.{
  ℕ, suc, ◌≡◌, refl, sym, ap, ◌∙◌, ⊤, true, Bool-cases, none, some, Option-cases, ◌⊎◌, inl, inr,
  ◌≤◌, arith,
}
use wallet_ledger_service.Failure.{Result, ok, err}
use wallet_ledger_service.Utils.SafeChannel.{
  Channel, SafeChannel, Broker, then_act, wrap_error, declare_exchange_and_queues, conn_gone,
  ch_gone, drop_ended, needs_dial, dial, reconnect, channel_of, ensure_channel,
  ensure_connected_locked,
}
use wallet_ledger_service.Utils.SafeChannel.Connected.{
  Faults, Ready, IsWired, ensure_connected_locked-Ensured,
}

module _ (broker : Broker) where
  -- The end of the channel or of the connection has been reported, or the connection is found
  -- closed.
  abbrev pub Ended : SafeChannel → Type 0
  Ended s =
      (ch_gone broker s.ch_close s.calls ≡ true)
      ⊎ ((conn_gone broker s.conn_close s.calls ≡ true)
          ⊎ (needs_dial broker s.conn (suc s.calls) ≡ true))

  -- A channel that was opened by a call from a number on.
  abbrev Opened : ℕ → Result ⊤ × SafeChannel → Type 0
  Opened from (ok u, s') = (k : Channel) × (s'.ch ≡ some k) × (from ≤ k.number)
  Opened from (err e, s') = ⊤

  after-Opened :
      (from : ℕ) (k : Channel) (r : Result ⊤) (s : SafeChannel)
      → from ≤ k.number
      → Opened from (then_act r (λ _ z. (ok tt, record z { ch = some k; ch_close = some k })) s)
  after-Opened from k (ok u) s h = (k, refl, h)
  after-Opened from k (err e) s h = tt

  ensure_channel-Opened :
      (from : ℕ) (s : SafeChannel) → from ≤ s.calls → Opened from (ensure_channel broker none s)
  ensure_channel-Opened from s h = elim (Bool-cases (broker.succeeds s.calls)) [
    | inr shut ↦ rw shut tt
    | inl up ↦ elim (Option-cases s.conn) [
      | inl gone ↦ rw (up, ap (λ p. channel_of broker p s.calls) gone) tt
      | inr (c, on) ↦
          let s1 : SafeChannel = record s { calls = suc s.calls } in
          rw (up, ap (λ p. channel_of broker p s.calls) on)
            (after-Opened from (record { connection = c; number = s.calls })
              (wrap_error "failed to declare exchange/queues"
                (declare_exchange_and_queues broker s1).0)
              (declare_exchange_and_queues broker s1).1 h)
    ]
  ]

  -- No channel is left.
  abbrev Shut : ℕ → Result ⊤ × SafeChannel → Type 0
  Shut from (r, s') = (s'.ch ≡ none) × (from ≤ s'.calls)

  dial-Shut : (s : SafeChannel) → Shut s.calls (dial broker s)
  dial-Shut s = elim (Bool-cases (broker.succeeds s.calls)) [
    | inl reached ↦ rw reached (refl, omega arith)
    | inr lost ↦ rw lost (refl, omega arith)
  ]

  reconnect-Shut :
      (s : SafeChannel)
      → (s.ch ≡ none) ⊎ (needs_dial broker s.conn s.calls ≡ true)
      → Shut s.calls (reconnect broker s)
  reconnect-Shut s (inr needed) = rw needed (dial-Shut s)
  reconnect-Shut s (inl gone) = elim (Bool-cases (needs_dial broker s.conn s.calls)) [
    | inl needed ↦ rw needed (dial-Shut s)
    | inr alive ↦ rw alive (gone, omega arith)
  ]

  drop_ended-needs :
      (s : SafeChannel)
      → Ended s
      → ((drop_ended broker s).ch ≡ none)
        ⊎ (needs_dial broker (drop_ended broker s).conn (drop_ended broker s).calls ≡ true)
  drop_ended-needs s (inl gone) = inl (rw gone refl)
  drop_ended-needs s (inr (inl gone)) = inr (rw gone refl)
  drop_ended-needs s (inr (inr closed)) =
      elim (Bool-cases (conn_gone broker s.conn_close s.calls)) [
        | inl gone ↦ inr (rw gone refl)
        | inr on ↦ inr (rw on closed)
      ]

  then-Opened :
      (from : ℕ) (r : Result ⊤) (s : SafeChannel)
      → Shut from (r, s)
      → Opened from (then_act r (λ u z. ensure_channel broker z.ch z) s)
  then-Opened from (err e) s h = tt
  then-Opened from (ok u) s (gone, h) =
      subst (λ o. Opened from (ensure_channel broker o s)) (sym gone)
        (ensure_channel-Opened from s h)

  ensure-Opened : (s : SafeChannel) → Ended s → Opened s.calls (ensure_connected_locked broker s)
  unfolding ensure_connected_locked
  ensure-Opened s ended =
      let (gone, late) = reconnect-Shut (drop_ended broker s) (drop_ended-needs s ended) in
      then-Opened s.calls (reconnect broker (drop_ended broker s)).0
        (reconnect broker (drop_ended broker s)).1 (gone, omega (arith, late))

  -- A channel opened since, on the connection that is held, or none and an error.
  abbrev pub Renewed : SafeChannel → Result ⊤ × SafeChannel → Type 0
  Renewed s (r, s') =
      ((r ≡ ok tt)
        × ((k : Channel) × (s'.ch ≡ some k) × (s.calls ≤ k.number) × (s'.conn ≡ some k.connection)))
      ⊎ (Faults broker s.calls r × (s'.ch ≡ none))

  renewed :
      (s : SafeChannel) (r : Result ⊤) (s' : SafeChannel)
      → Opened s.calls (r, s')
      → ((r ≡ ok tt) × Ready broker s') ⊎ (Faults broker s.calls r × (s'.ch ≡ none))
      → Renewed s (r, s')
  renewed s (err e) s' o (inr f) = inr f
  renewed s (err e) s' o (inl (h, _)) = cc
  renewed s (ok u) s' o (inr (f, _)) = absurd f
  renewed s (ok u) s' (k, here, late) (inl (h, (j, there, on, _))) =
      let same : j ≡ k = cc in
      inl (refl, (k, here, late, on ∙ ap (λ (x : Channel). some x.connection) same))

  -- From a state between operations, where the end of the channel or of the connection has been
  -- reported or the connection is found closed, `EnsureConnected` returns nil and holds a channel
  -- that it has opened itself, on the connection that is held, or it returns an error that a
  -- failed call explains and holds no channel.
  pub ensure_connected_locked-renews :
      (s : SafeChannel) → IsWired broker s → Ended s → Renewed s (ensure_connected_locked broker s)
  ensure_connected_locked-renews s w ended =
      renewed s (ensure_connected_locked broker s).0 (ensure_connected_locked broker s).1
        (ensure-Opened s ended) (ensure_connected_locked-Ensured broker s w).2
