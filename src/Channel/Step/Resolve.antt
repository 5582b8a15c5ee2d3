-- ===== src/Channel/Step/Resolve.antt =====
-- do_resolve and process_channels of yasio/io_service.cpp, for a channel without a transport.
use yasio.Base.{
  ℕ, ◌≡◌, ◌⊎◌, inl, inr, refl, ap, sym, subst, ◌∙◌, List, [], Bool, true, false, Bool-cases,
  Option-cases, if_both, true-ne_false, Option, some, none, if◌then◌else◌, not, ◌||◌,
}
use yasio.Base.Int.{pos}
use yasio.Channel.{
  State, closed, resolving, connecting, opened, in_progress, same, Channel, Dial, is_empty,
}
use yasio.Channel.Step.{
  Answers, prepared, do_resolve, query, resolved, resolve_step, begun, step_at, process_channel,
  take_host, take_port,
}
use yasio.Channel.Step.Sound.{
  SoundAt, IsSound, connected_by, connected, follows, IsDial, After, failed-After, do_connect-After,
  completion-After,
}

module _ {Endpoint : Type 0} (as_in : List ℕ → ℕ → Option Endpoint)
    (with_port : Endpoint → ℕ → Endpoint) where
  -- Resolving concerns the addresses and the error alone.
  abbrev Keeps : Channel Endpoint → Channel Endpoint → Type 0
  Keeps c d = (d.connection ≡ c.connection) × (d.open_mask ≡ c.open_mask) × (d.state ≡ c.state)

  take_host-Keeps : (c : Channel Endpoint) → Keeps c (take_host as_in with_port c)
  unfolding take_host
  take_host-Keeps c = elim (Option-cases (as_in c.remote_host c.remote_port)) [
    | inl q ↦ rw q (refl, refl, refl)
    | inr (ep, q) ↦ rw q (refl, refl, refl)
  ]

  take_port-Keeps : (c d : Channel Endpoint) → Keeps c d → Keeps c (take_port as_in with_port d)
  unfolding take_port
  take_port-Keeps c d k = k

  port_step-Keeps :
      (c d : Channel Endpoint)
      → Keeps c d
      → Keeps c (if d.port_dirty then take_port as_in with_port d else d)
  port_step-Keeps c d k = if_both (Keeps c) d.port_dirty _ d (take_port-Keeps c d k) k

  prepared-Keeps : (c : Channel Endpoint) → Keeps c (prepared as_in with_port c)
  unfolding prepared
  prepared-Keeps c =
      port_step-Keeps c (if c.host_dirty then take_host as_in with_port c else c)
        (if_both (Keeps c) c.host_dirty _ c (take_host-Keeps c) (refl, refl, refl))

  -- A channel without an address has an error, were it that the query goes on.
  query-Keeps :
      (c d : Channel Endpoint)
      → Keeps c d
      → Keeps c (query as_in with_port d) × (same (query as_in with_port d).error (pos 0) ≡ false)
  unfolding query
  query-Keeps c d k = elim (Bool-cases (is_empty d.remote_host)) [
    | inl q ↦ rw q (k, refl)
    | inr q ↦
        rw q (elim (Bool-cases (same d.error (pos 0))) [
          | inl z ↦ rw z (k, refl)
          | inr z ↦ rw z (k, z)
        ])
  ]

  -- do_connect is called with an address only, and a failure to resolve has an error.
  abbrev pub Resolves : Channel Endpoint → Bool × Channel Endpoint → Type 0
  Resolves c (true, d) = Keeps c d × (is_empty d.remote_eps ≡ false)
  Resolves c (false, d) = Keeps c d × (same d.error (pos 0) ≡ false)

  -- Resolving touches neither the transport of the channel nor its state nor the request to open. It
  -- returns 0 only with an address to connect to, and -1 only with an error on record, were it that
  -- the query is under way.
  pub do_resolve-Resolves :
      (c : Channel Endpoint) (expired : Bool) → Resolves c (do_resolve as_in with_port c expired)
  unfolding do_resolve
  do_resolve-Resolves c expired =
      let d = prepared as_in with_port c in
      let old = record d { remote_eps = [] } in
      let fresh = not d.needs_query || same d.error in_progress || not expired in
      elim (Bool-cases (is_empty d.remote_eps)) [
        | inl q ↦ rw q (query-Keeps c d (prepared-Keeps c))
        | inr q ↦ rw q (
            if_both (Resolves c) fresh (true, d) (false, query as_in with_port old)
              (prepared-Keeps c, q) (query-Keeps c old (prepared-Keeps c)))
      ]

  resolved-After :
      (c : Channel Endpoint) (d : Dial) (p : Bool × Channel Endpoint)
      → Resolves c p
      → c.connection ≡ none
      → c.open_mask ≡ false
      → c.state ≡ resolving
      → IsDial d
      → After (resolved d p)
  unfolding resolved
  resolved-After c d (true, r) ((a, b, s), _) n m k (h1, h2, h3) =
      do_connect-After r d.popen_error d.bind_error d.connect_error (a ∙ n) (b ∙ m) h1 h2 h3
  resolved-After c d (false, r) ((a, b, s), z) n m k h =
      elim (Bool-cases (same r.error in_progress)) [
        | inl q ↦ rw q (
          subst (λ t. SoundAt t (record r { in_ops = same r.error in_progress })) (sym (s ∙ k))
              (a ∙ n, q, b ∙ m),
          ap (λ x. some (connected_by x)) (sym (a ∙ n)),
        )
        | inr q ↦ rw q (failed-After r r.error (a ∙ n) z)
      ]

  step_at-After :
      (s : State) (c : Channel Endpoint) (e : Answers)
      → c.state ≡ s
      → SoundAt s c
      → c.connection ≡ none
      → c.open_mask ≡ false
      → IsDial e.dial
      → After (step_at as_in with_port s c e)
  unfolding step_at resolve_step
  step_at-After closed c e k (n, z, w) _ m d = (
    subst (λ t. SoundAt t (record c { in_ops = same c.error in_progress })) (sym k)
        (n, z, λ q. elim (true-ne_false (sym q ∙ m)) [ ]),
    ap (λ x. some (connected_by x)) (sym n),
  )
  step_at-After resolving c e k h n m d =
      resolved-After c e.dial (do_resolve as_in with_port c e.addresses_expired)
        (do_resolve-Resolves c e.addresses_expired) n m k d
  step_at-After connecting c e k h n m d = completion-After c e.ready e.timer_due h k
  step_at-After opened c e k (t, h, _, _) n m d = cc

  pub begun-cases :
      (c : Channel Endpoint)
      → ((c.open_mask ≡ true)
          × (begun as_in with_port c ≡ record c { open_mask = false; state = resolving }))
        ⊎ ((c.open_mask ≡ false) × (begun as_in with_port c ≡ c))
  unfolding begun
  begun-cases c = by_mask c.open_mask refl
    where
      by_mask :
          (b : Bool)
          → c.open_mask ≡ b
          → ((c.open_mask ≡ true)
              × ((if b then record c { open_mask = false; state = resolving } else c)
                  ≡ record c { open_mask = false; state = resolving }))
            ⊎ ((c.open_mask ≡ false)
                × ((if b then record c { open_mask = false; state = resolving } else c) ≡ c))
      by_mask true q = inl (q, refl)
      by_mask false q = inr (q, refl)

  -- A channel without a transport in process_channels.
  pub process_channel-After :
      (c : Channel Endpoint) (e : Answers)
      → IsSound c
      → c.connection ≡ none
      → c.in_ops ≡ true
      → IsDial e.dial
      → let r = process_channel as_in with_port c e in
        IsSound r.0 × (follows false r.1 ≡ some (connected r.0))
  unfolding process_channel
  process_channel-After c e h n i d = elim (begun-cases c) [
    | inl (m, q) ↦
        subst (λ b. After (step_at as_in with_port b.state b e)) (sym q)
          (step_at-After resolving (record c { open_mask = false; state = resolving }) e refl
            (n, i, refl) n refl d)
    | inr (m, q) ↦
        subst (λ b. After (step_at as_in with_port b.state b e)) (sym q)
          (step_at-After c.state c e refl h n m d)
  ]
