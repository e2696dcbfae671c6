-- ===== src/Utils/SafeChannel/Publishing.antt =====
-- What `PublishWithContext` of internal/utils/rabbitmq.go promises.
use mathlib.Core.Path.{subst}
use wallet_ledger_service.Common.{
  ℕ, suc, String, ◌≡◌, refl, ap, ◌∙◌, ⊤, Bool, true, false, Bool-cases, Option, none, some, List,
  [], ◌∷◌, ◌++◌, ◌⊎◌, inl, inr, ◌≤◌, ◌<◌, arith,
}
use wallet_ledger_service.Failure.{Result, ok, err}
use wallet_ledger_service.Utils.SafeChannel.{
  Channel, Message, Attempt, SafeChannel, Broker, then_act, wrap_error, ensure_connected_locked,
  publish_on, publish_again, on_failure, publish_with_context,
}
use wallet_ledger_service.Utils.SafeChannel.Connected.{
  Faults, Faults-earlier, Ready, IsWired, Ensured, ensure_connected_locked-Ensured,
}

-- A publication by the call of a number.
abbrev pub tried : Message → ℕ → Bool → Attempt
tried msg n written = record { message = msg; number = n; written = written }

-- How a publication ends: written at once or at the second attempt; or not attempted since there
-- is no channel; or attempted once, and then a later call fails on the way to a new channel; or
-- attempted twice in vain.
pub data Published (broker : Broker) (msg : Message) (s : SafeChannel) (r : Result ⊤)
    (s' : SafeChannel) : Type 0 where
  at_once :
      (n : ℕ)
      → r ≡ ok tt
      → s'.attempts ≡ s.attempts ++ tried msg n true ∷ []
      → Published broker msg s r s'
  again :
      (n m : ℕ)
      → n < m
      → r ≡ ok tt
      → s'.attempts ≡ (s.attempts ++ tried msg n false ∷ []) ++ tried msg m true ∷ []
      → Published broker msg s r s'
  unreached : Faults broker s.calls r → s'.attempts ≡ s.attempts → Published broker msg s r s'
  cut_off :
      (n : ℕ)
      → Faults broker (suc n) r
      → s'.attempts ≡ s.attempts ++ tried msg n false ∷ []
      → Published broker msg s r s'
  in_vain :
      (n m : ℕ)
      → n < m
      → Faults broker s.calls r
      → s'.attempts ≡ (s.attempts ++ tried msg n false ∷ []) ++ tried msg m false ∷ []
      → Published broker msg s r s'

module _ (broker : Broker) (msg : Message) where
  -- One attempt, on a channel that is ready.
  abbrev Attempted : SafeChannel → Result ⊤ × SafeChannel → Type 0
  Attempted s (r, s') =
      Ready broker s'
      × (s'.calls ≡ suc s.calls)
      × (((r ≡ ok tt) × (s'.attempts ≡ s.attempts ++ tried msg s.calls true ∷ []))
          ⊎ (Faults broker s.calls r × (s'.attempts ≡ s.attempts ++ tried msg s.calls false ∷ [])))

  publish_on-Attempted :
      (s : SafeChannel) (o : Option Channel)
      → s.ch ≡ o
      → Ready broker s
      → Attempted s (publish_on broker o msg s)
  publish_on-Attempted s none h (k, here, _, _) = cc
  publish_on-Attempted s (some c) h ready = elim (Bool-cases (broker.succeeds s.calls)) [
    | inl up ↦ rw up (ready, refl, inl (refl, refl))
    | inr down ↦ rw down (ready, refl, inr ((refl, (s.calls, omega arith, down)), refl))
  ]

  -- The way to a new channel, and one attempt there.
  abbrev Second : SafeChannel → Result ⊤ × SafeChannel → Type 0
  Second s (r, s') =
      IsWired broker s'
      × (((r ≡ ok tt)
            × ((m : ℕ) × (s.calls ≤ m) × (s'.attempts ≡ s.attempts ++ tried msg m true ∷ [])))
          ⊎ ((Faults broker s.calls r × (s'.attempts ≡ s.attempts))
              ⊎ (Faults broker s.calls r
                  × ((m : ℕ) × (s.calls ≤ m)
                      × (s'.attempts ≡ s.attempts ++ tried msg m false ∷ [])))))

  wrapped_attempt :
      (text : String) (s s1 : SafeChannel) (r : Result ⊤) (s2 : SafeChannel)
      → s1.attempts ≡ s.attempts
      → s.calls ≤ s1.calls
      → Attempted s1 (r, s2)
      → Second s (wrap_error text r, s2)
  wrapped_attempt text s s1 (err e) s2 a l (w, k, inl (g, b)) = cc
  wrapped_attempt text s s1 (err e) s2 a l (w, k, inr ((calm, (n, late, down)), b)) = (
    inr w,
    inr (
        inr (
          (calm, (n, omega (arith, l, late), down)),
          (s1.calls, l, b ∙ ap (λ es. es ++ tried msg s1.calls false ∷ []) a),
        )),
  )
  wrapped_attempt text s s1 (ok v) s2 a l (w, k, inl (g, b)) =
      (inr w, inl (refl, (s1.calls, l, b ∙ ap (λ es. es ++ tried msg s1.calls true ∷ []) a)))
  wrapped_attempt text s s1 (ok v) s2 a l (w, k, inr (f, b)) = absurd f

  attempt-Second :
      (text : String) (s : SafeChannel) (r : Result ⊤) (s1 : SafeChannel)
      → Ensured broker s (r, s1)
      → Second s (
          then_act r
            (λ u z.
              (wrap_error text (publish_on broker z.ch msg z).0, (publish_on broker z.ch msg z).1))
            s1)
  attempt-Second text s (err e) s1 (a, l, inl (h, _)) = cc
  attempt-Second text s (err e) s1 (a, l, inr (f, shut)) = (inl shut, inr (inl (f, a)))
  attempt-Second text s (ok u) s1 (a, l, inr (f, _)) = absurd f
  attempt-Second text s (ok u) s1 (a, l, inl (h, ready)) =
      wrapped_attempt text s s1 (publish_on broker s1.ch msg s1).0
        (publish_on broker s1.ch msg s1).1 a l (publish_on-Attempted s1 s1.ch refl ready)

  wrapped-Ensured :
      (text : String) (s : SafeChannel) (r : Result ⊤) (s1 : SafeChannel)
      → Ensured broker s (r, s1)
      → Ensured broker s (wrap_error text r, s1)
  wrapped-Ensured text s (err e) s1 (a, l, inl (h, _)) = cc
  wrapped-Ensured text s (err e) s1 (a, l, inr (f, shut)) = (a, l, inr (f, shut))
  wrapped-Ensured text s (ok u) s1 h = h

  publish_again-Second : (s : SafeChannel) → Second s (publish_again broker msg s)
  publish_again-Second s =
      let s0 : SafeChannel = record s { ch = none } in
      let (r, s1) = ensure_connected_locked broker s0 in
      attempt-Second _ s (wrap_error "retry publish failed, unable to reconnect" r) s1
        (wrapped-Ensured _ s r s1 (ensure_connected_locked-Ensured broker s0 (inl refl)))

  then_again :
      (s s1 : SafeChannel) (r : Result ⊤) (s2 : SafeChannel)
      → s1.attempts ≡ s.attempts
      → s.calls ≤ s1.calls
      → Attempted s1 (r, s2)
      → IsWired broker (on_failure broker r (publish_again broker msg) s2).1
        × Published broker msg s
            (on_failure broker r (publish_again broker msg) s2).0
            (on_failure broker r (publish_again broker msg) s2).1
  then_again s s1 (ok v) s2 a l (w, k, inl (g, b)) =
      (inr w, at_once s1.calls refl (b ∙ ap (λ es. es ++ tried msg s1.calls true ∷ []) a))
  then_again s s1 (ok v) s2 a l (w, k, inr (f, b)) = absurd f
  then_again s s1 (err e) s2 a l (w, k, inl (g, b)) = cc
  then_again s s1 (err e) s2 a l (w, k, inr (f, b)) =
      let first = b ∙ ap (λ es. es ++ tried msg s1.calls false ∷ []) a in
      let (wired, ends) = publish_again-Second s2 in
      rw (f.0) (
        wired,
        elim ends [
          | inl (g, (m, late, c)) ↦
              again s1.calls m (omega (arith, k, late)) g
                (c ∙ ap (λ es. es ++ tried msg m true ∷ []) first)
          | inr (inl (g, c)) ↦
              cut_off s1.calls (subst (λ n. Faults broker n (publish_again broker msg s2).0) k g)
                (c ∙ first)
          | inr (inr (g, (m, late, c))) ↦
              in_vain s1.calls m (omega (arith, k, late))
                (Faults-earlier broker s.calls s2.calls (publish_again broker msg s2).0
                  (omega (arith, k, l)) g)
                (c ∙ ap (λ es. es ++ tried msg m false ∷ []) first)
        ],
      )

  abbrev tries : ⊤ → SafeChannel → Result ⊤ × SafeChannel
  tries u z =
      on_failure broker (publish_on broker z.ch msg z).0 (publish_again broker msg)
        (publish_on broker z.ch msg z).1

  first_attempt :
      (s : SafeChannel) (r : Result ⊤) (s1 : SafeChannel)
      → Ensured broker s (r, s1)
      → IsWired broker (then_act r tries s1).1
        × Published broker msg s (then_act r tries s1).0 (then_act r tries s1).1
  first_attempt s (err e) s1 (a, l, inl (h, _)) = cc
  first_attempt s (err e) s1 (a, l, inr (f, shut)) = (inl shut, unreached f a)
  first_attempt s (ok u) s1 (a, l, inr (f, _)) = absurd f
  first_attempt s (ok u) s1 (a, l, inl (h, ready)) =
      then_again s s1 (publish_on broker s1.ch msg s1).0 (publish_on broker s1.ch msg s1).1 a l
        (publish_on-Attempted s1 s1.ch refl ready)

  -- From a state between operations `PublishWithContext` ends in such a state and in one of five
  -- ways. It returns nil, and the library has written the message at the first attempt, or at a
  -- second after the first had failed. Or it returns an error that is no panic: no attempt was
  -- made, and a call failed; or one was made in vain, and a later call failed; or two were made in
  -- vain.
  pub publish_with_context-Published :
      (s : SafeChannel)
      → IsWired broker s
      → IsWired broker (publish_with_context broker msg s).1
        × Published broker msg s
            (publish_with_context broker msg s).0
            (publish_with_context broker msg s).1
  unfolding publish_with_context
  publish_with_context-Published s w =
      let (r, s1) = ensure_connected_locked broker s in
      first_attempt s (wrap_error "publish failed, unable to connect" r) s1
        (wrapped-Ensured _ s r s1 (ensure_connected_locked-Ensured broker s w))

  -- The message is the last that was tried, and the library has written it.
  abbrev pub Delivered : Result ⊤ → SafeChannel → Type 0
  Delivered r s' =
      (r ≡ ok tt)
      × ((n : ℕ) × (before : List Attempt) × (s'.attempts ≡ before ++ tried msg n true ∷ []))
