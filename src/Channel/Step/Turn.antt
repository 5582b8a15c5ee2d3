-- ===== src/Channel/Step/Turn.antt =====
-- The turns of the loop, for one client channel.
use yasio.Base.{
  ℕ, ◌≡◌, ◌≢◌, ◌⊎◌, inl, inr, refl, ap, sym, subst, ◌∙◌, List, [], ◌∷◌, ◌++◌, Bool, true, false,
  Bool-cases, if_cases, if_both, true-ne_false, ◌&&◌, ◌||◌, arith, Option, some, none,
}
use yasio.Base.Int.{ℤ, pos}
use yasio.Channel.{
  State, closed, resolving, connecting, opened, timed_out, same, Event, on_open, on_close,
  Connection, Channel, handle_connect_failed, handle_close, on_timeout, timeout_at, cleanup_io,
}
use yasio.Channel.Step.{
  Answers, step_at, process_channel, transport_at, process_transport, perform, process_timer,
}
use yasio.Channel.Step.Sound.{
  SoundAt, IsSound, connected_by, connected, seen, and_then, follows, IsDial, scheduled,
}
use yasio.Channel.Step.Resolve.{process_channel-After, begun-cases}

not_asked : (a b d e : Bool) → (a || (b || (d || e))) ≡ false → b ≡ false
not_asked a b d e q = ground arith

none-ne_some : {A : Type 0} {a : A} → none ≢ some a
none-ne_some e = subst (λ o. elim o [ none ↦ Unit {0} | some v ↦ ⊥ ]) e tt

and_then-append :
    (o : Option Bool) (r : Bool) (xs ys : List Event)
    → ((b : Bool) → follows b xs ≡ some r → follows b (xs ++ ys) ≡ follows r ys)
    → and_then o (λ b. follows b xs) ≡ some r
    → and_then o (λ b. follows b (xs ++ ys)) ≡ follows r ys
and_then-append none r xs ys f h = elim (none-ne_some h) [ ]
and_then-append (some b) r xs ys f h = f b h

follows-append :
    (b r : Bool) (xs ys : List Event) → follows b xs ≡ some r → follows b (xs ++ ys) ≡ follows r ys
follows-append b r [] ys h =
    ap (λ v. follows v ys) (ap (λ (o : Option Bool). elim o [ none ↦ b | some v ↦ v ]) h)
follows-append b r (x ∷ xs) ys h =
    and_then-append (seen b x) r xs ys (λ s k. follows-append s r xs ys k) h

module _ {Endpoint : Type 0} where
  -- A channel that is to be opened is in channel_ops_, whatever its state.
  asked-scheduled :
      (s : State) (c : Channel Endpoint) → SoundAt s c → c.open_mask ≡ true → c.in_ops ≡ true
  asked-scheduled closed c (_, _, w) = w
  asked-scheduled resolving c (_, i, _) = λ q. i
  asked-scheduled connecting c (_, i, _, _) = λ q. i
  asked-scheduled opened c (_, _, _, w) = w

  -- What process_transports leaves: a transport that stays has no request to be opened anew.
  abbrev Left : Channel Endpoint → Channel Endpoint × List Event → Type 0
  Left c p =
      IsSound p.0
      × (follows (connected c) p.1 ≡ some (connected p.0))
      × ((p.0.connection ≡ none) ⊎ (p.0.open_mask ≡ false))

  handle_close-Left :
      (c : Channel Endpoint) (t u : Connection)
      → IsSound c
      → c.connection ≡ some t
      → Left c (handle_close c u)
  unfolding handle_close cleanup_io
  handle_close-Left c t u h k = (
    (refl, refl, asked-scheduled c.state c h),
    ap (λ x. follows (connected_by x) (on_close u.error ∷ [])) k,
    inl refl,
  )

  transport_at-Left :
      (c : Channel Endpoint) (stopping : Bool) (e : Answers) (o : Option Connection)
      → c.connection ≡ o
      → IsSound c
      → Left c (transport_at c stopping e o)
  unfolding transport_at
  transport_at-Left c stopping e none k h = (h, refl, inl k)
  transport_at-Left c stopping e (some t) k h =
      if_both (Left c) e.io_ok _ _
        (elim (Bool-cases (t.close_mask || (c.open_mask || (c.close_mask || stopping)))) [
          | inl q ↦ rw q (handle_close-Left c t _ h k)
          | inr q ↦ rw q (h, refl, inr (not_asked t.close_mask c.open_mask c.close_mask stopping q))
        ])
        (handle_close-Left c t _ h k)

  -- A step that keeps the channel sound, and whose events say whether it is connected.
  abbrev pub Tells : Channel Endpoint → Channel Endpoint × List Event → Type 0
  Tells c p = IsSound p.0 × (follows (connected c) p.1 ≡ some (connected p.0))

  told :
      (c : Channel Endpoint) (e : ℤ)
      → c.connection ≡ none
      → same e (pos 0) ≡ false
      → follows (connected c) (on_open e ∷ []) ≡ some (connected c)
  told c e n z =
      ap (λ x. follows (connected_by x) (on_open e ∷ [])) n
      ∙ ap some z
      ∙ ap (λ x. some (connected_by x)) (sym n)

  timeout_at-Tells :
      (s : State) (c : Channel Endpoint) → c.state ≡ s → SoundAt s c → Tells c (timeout_at s c)
  unfolding timeout_at handle_connect_failed cleanup_io
  timeout_at-Tells closed c k (n, z, w) =
      ((n, refl, λ q. elim (true-ne_false (sym q)) [ ]), told c timed_out n refl)
  timeout_at-Tells resolving c k (n, i, m) = ((n, refl, λ q. i), told c timed_out n refl)
  timeout_at-Tells connecting c k (n, i, m, e) = ((n, refl, λ q. i), told c timed_out n refl)
  timeout_at-Tells opened c k h = (subst (λ s. SoundAt s c) (sym k) h, refl)

  -- Whether the timer is armed does not matter.
  untimed :
      (s : State) (c : Channel Endpoint)
      → SoundAt s c
      → SoundAt s (record c { timer_armed = false })
  untimed closed c h = h
  untimed resolving c h = h
  untimed connecting c h = h
  untimed opened c h = h

  on_timeout-Tells : (c : Channel Endpoint) → IsSound c → Tells c (on_timeout c)
  unfolding on_timeout
  on_timeout-Tells c h =
      timeout_at-Tells c.state (record c { timer_armed = false }) refl (untimed c.state c h)

  pub Tells-then :
      (c : Channel Endpoint) (p q : Channel Endpoint × List Event)
      → Tells c p
      → Tells p.0 q
      → Tells c (q.0, p.1 ++ q.1)
  Tells-then c p q (h, f) (k, g) = (k, follows-append (connected c) (connected p.0) p.1 q.1 f ∙ g)

module _ {Endpoint : Type 0} (as_in : List ℕ → ℕ → Option Endpoint)
    (with_port : Endpoint → ℕ → Endpoint) where
  free-Tells :
      (c : Channel Endpoint) (e : Answers)
      → IsSound c
      → c.connection ≡ none
      → c.in_ops ≡ true
      → IsDial e.dial
      → Tells c (process_channel as_in with_port c e)
  free-Tells c e h n i d =
      let (s, f) = process_channel-After as_in with_port c e h n i d in
      (s, ap (λ x. follows (connected_by x) (process_channel as_in with_port c e).1) n ∙ f)

  -- process_channels leaves an opened channel alone.
  opened-Tells :
      (c : Channel Endpoint) (e : Answers)
      → c.state ≡ opened
      → SoundAt opened c
      → c.open_mask ≡ false
      → Tells c (process_channel as_in with_port c e)
  unfolding process_channel step_at
  opened-Tells c e k (t, n, z, w) m = elim (begun-cases as_in with_port c) [
    | inl (l, q) ↦ elim (true-ne_false (sym l ∙ m)) [ ]
    | inr (l, q) ↦
        subst
          (λ b. Tells c (
            scheduled (step_at as_in with_port b.state b e).0,
            (step_at as_in with_port b.state b e).1,
          ))
          (sym q)
          (subst
            (λ s.
              Tells c
                (scheduled (step_at as_in with_port s c e).0, (step_at as_in with_port s c e).1))
            (sym k)
            (
              subst (λ s. SoundAt s (scheduled c)) (sym k)
                  (t, n, z, λ j. elim (true-ne_false (sym j ∙ m)) [ ]),
              refl,
            ))
  ]

  -- process_channels, where no transport is to be opened anew.
  channel-Tells :
      (s : State) (c : Channel Endpoint) (e : Answers)
      → c.state ≡ s
      → IsSound c
      → SoundAt s c
      → (c.connection ≡ none) ⊎ (c.open_mask ≡ false)
      → c.in_ops ≡ true
      → IsDial e.dial
      → Tells c (process_channel as_in with_port c e)
  channel-Tells closed c e k h g o i d = free-Tells c e h g.0 i d
  channel-Tells resolving c e k h g o i d = free-Tells c e h g.0 i d
  channel-Tells connecting c e k h g o i d = free-Tells c e h g.0 i d
  channel-Tells opened c e k h g (inl n) i d = free-Tells c e h n i d
  channel-Tells opened c e k h g (inr m) i d = opened-Tells c e k g m

  -- process_channels keeps a channel sound that has no transport or is not to be opened anew, and its
  -- events tell the user whether the channel is connected.
  pub perform-Tells :
      (c : Channel Endpoint) (e : Answers)
      → IsSound c
      → (c.connection ≡ none) ⊎ (c.open_mask ≡ false)
      → IsDial e.dial
      → Tells c (perform as_in with_port c e)
  unfolding perform
  perform-Tells c e h o d =
      if_cases (Tells c) c.in_ops (process_channel as_in with_port c e) (c, [])
        (λ i. channel-Tells c.state c e refl h h o i d) (λ i. (h, refl))

module _ {Endpoint : Type 0} where
  pub process_transport-Tells :
      (c : Channel Endpoint) (stopping : Bool) (e : Answers)
      → IsSound c
      → Tells c (process_transport c stopping e)
  unfolding process_transport
  process_transport-Tells c stopping e h =
      let (s, f, o) = transport_at-Left c stopping e c.connection refl h in (s, f)

  -- Where the user does not call between process_transports and process_channels, the channel is as the
  -- latter needs it.
  pub process_transport-ready :
      (c : Channel Endpoint) (stopping : Bool) (e : Answers)
      → IsSound c
      → ((process_transport c stopping e).0.connection ≡ none)
        ⊎ ((process_transport c stopping e).0.open_mask ≡ false)
  unfolding process_transport
  process_transport-ready c stopping e h = (transport_at-Left c stopping e c.connection refl h).2

  pub process_timer-Tells :
      (c : Channel Endpoint) (due : Bool) → IsSound c → Tells c (process_timer c due)
  unfolding process_timer
  process_timer-Tells c due h =
      if_both (Tells c) (c.timer_armed && due) (on_timeout c) (c, []) (on_timeout-Tells c h)
        (h, refl)
